-- ===== src/Lib.antt =====
-- The client-side logic of the Resilience frontend (frontend/src): what the map and globe
-- pages, the planning page and the live streams decide in the browser. The parts, the files
-- that model them and their sources, under frontend/src:
--
-- Api: the wire types of api/types.ts, as far as the other parts read them; Api.Json has the
-- values of type `unknown`.
-- EntitySelection: the one selected site, asset or signal. SearchParams, Route, Missing,
-- LocationState and Tokens have the functions of lib/entitySelectionRoute.ts, Sync the hook of
-- hooks/useEntitySelectionSync.ts, which calls them: its refs, states and location are the
-- record `SyncState`, and each callback and effect is a function on it; Sync.Clearing has when the
-- effect on stale selections clears.
-- Sse: the streams. Backoff is lib/sseBackoff.ts, Token lib/sseToken.ts. Link is the part that
-- hooks/useEventSource.ts, hooks/useSignalStream.ts and hooks/useTelemetryStream.ts share:
-- token request, stream, retry timer and delay. EventSource, SignalStream and TelemetryStream
-- add what each hook keeps besides. A run is a list of events; a run of Link or EventSource is
-- one life of the effect, from its start to its cleanup and after.
-- LiveSignals: the signal map of lib/liveSignals.ts, which SignalStream updates.
-- Freshness: lib/freshness.ts and, in Freshness.Health, hooks/useSourceHealth.ts; its
-- connection status is that of EventSource.
-- MapTools: the drawing tools of hooks/useMapToolState.ts. State has the hook's state, Handlers
-- its callbacks, Actions a session as a list of calls of them.
-- Planning: Flags is utils/planningFlags.ts, Drafts lib/planningPageUtils.ts, DraftState
-- hooks/usePlanningDrafts.ts with one function for each effect and handler.
-- Paging: the worker pool of hooks/fetchAllPaginated.ts. The order in which fetches settle is a
-- list of pages, so that every interleaving of the workers is a run.
-- RuleForm: the conversions between a correlation rule and its form,
-- components/correlationRules/types.ts.
-- Pulses: lib/replayEventPulses.ts, the audit events near the replay cursor.
-- Replay: the replay clock, context/ReplayContext.tsx and context/replayTransport.ts, with one
-- function for each control, for the tick of the interval and for the effect that keeps it;
-- Past, Steps and Playback have its laws; Replay.Guard has hooks/useReplayGuardedMutation.ts
-- and hooks/useReplayParams.ts, which read the clock.
-- Client: api/client.ts. A request is a state with a phase, and what the browser reports is an
-- event; Messages has the texts of errors, Url the query and Blob the binary request.
-- Session: context/AuthContext.tsx, api/auth.ts and hooks/useRole.ts, which the responses of
-- Client sign out.
-- Triage: the keys of the alert list, hooks/useTriageKeyboard.ts.
-- Snapshots: utils/diffSnapshots.ts. Clicks: lib/mapClickResolution.ts. Coverage:
-- lib/coverage.ts.
-- Clusters: lib/mapSignalClustering.ts. Vessels: lib/replayVessel.ts.
-- CacheEvents: what a pushed event refreshes and shows, hooks/useSseEvents.ts.
-- Hydration: the selection of a link is applied to the map, hooks/useMapUrlSelectionHydration.ts,
-- and where an asset is shown, lib/assetPresentation.ts; Landing follows the effect over renders.
-- Formatters: relative times and the readiness of tasks, lib/formatters.ts.
-- Base: shared tests, lists, ES maps, sorting and grouping, and integers (Base.Int).
--
-- What the code takes from the browser is a parameter: the coding of `URLSearchParams` with the
-- laws of the URL standard (the record `SearchParams`, which EntitySelection.Codec fills for
-- the examples), `Date.parse` and `toISOString`, the URL constructor, `JSON.stringify`,
-- `crypto.randomUUID`, the texts of numbers, the conversion of an input text between units, and
-- what each fetch settles with. Instants are whole milliseconds, coordinates integers or values
-- that are passed on. Recursion is on lists and numbers, and nothing runs on fuel: the only
-- bounds are the source's own (20 pending tokens, 6 workers, 50 pulses, waits from 5000 to
-- 30000 ms).
--
-- Not modelled: React's scheduling of effects (each effect is a step, in the order of the
-- source), rendering, the map and globe engines, floating-point geometry, the query library and
-- the backend.
mod Base
pub mod Api
pub mod Freshness
pub mod MapTools
pub mod Client
pub mod EntitySelection
pub mod LiveSignals
pub mod Session
pub mod Sse
pub mod Planning
pub mod Paging
pub mod Replay
pub mod RuleForm
pub mod Pulses
pub mod Triage
pub mod Snapshots
pub mod Clicks
pub mod Coverage
pub mod Clusters
pub mod Vessels
pub mod CacheEvents
pub mod Hydration
pub mod Formatters
