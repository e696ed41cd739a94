-- ===== src/Sse/EventSourceLaws.antt =====
-- The status that useEventSource.ts shows agrees with its connection.
use react_ai_healthycare.Base.{
  ℕ, ◌≡◌, String, List, [], ◌∷◌, Option, none, some, Bool, true, false, if◌then◌else◌, arith,
}
use react_ai_healthycare.Api.Json.{Json}
use react_ai_healthycare.Freshness.{ConnectionStatus, connecting, connected, disconnected}
use react_ai_healthycare.Sse.EventSource.{
  EventSourceState, mount, initial, on_timer, on_token, on_token_failed, on_connected, on_message,
  on_error, cleanup,
}

pub data Event : Type 0 where
  timer_fires token_comes token_fails opened error unmount : Event
  message : String → Option Json → Event

-- The token and the stream send events only to a hook that waits for them.
unfoldable pub step : EventSourceState → Event → EventSourceState
unfolding on_timer on_token on_token_failed on_connected on_message on_error cleanup
step s timer_fires = on_timer s
step s token_comes = if s.link.awaiting then on_token s else s
step s token_fails = if s.link.awaiting then on_token_failed s else s
step s opened = if s.link.is_open then on_connected s else s
step s (message name parsed) = if s.link.is_open then on_message name parsed s else s
step s error = if s.link.is_open then on_error s else s
step s unmount = cleanup s

unfoldable pub run : EventSourceState → List Event → EventSourceState
run s [] = s
run s (e ∷ es) = run (step s e) es

-- Waiting for a token it shows "connecting", with an open stream "connecting" or "connected", and
-- with a timer "disconnected"; no two of these go on together, and one does.
abbrev pub Shows : Bool → Bool → Option ℕ → ConnectionStatus → Type 0
Shows true false none connecting = Unit
Shows false true none connecting = Unit
Shows false true none connected = Unit
Shows false false (some d) disconnected = Unit
Shows _ _ _ _ = ⊥

pub record ShowsLink (s : EventSourceState) : Type 0 where
  pub one : s.link.ended ≡ false → Shows s.link.awaiting s.link.is_open s.link.timer s.status
  pub over :
      s.link.ended ≡ true
      → (s.status ≡ disconnected) × (s.link.is_open ≡ false) × (s.link.timer ≡ none)

step-ShowsLink : (s : EventSourceState) (e : Event) → ShowsLink s → ShowsLink (step s e)
unfolding step
step-ShowsLink s timer_fires v = ground arith
step-ShowsLink s token_comes v = ground arith
step-ShowsLink s token_fails v = ground arith
step-ShowsLink s opened v = ground arith
step-ShowsLink s (message name parsed) v = ground arith
step-ShowsLink s error v = ground arith
step-ShowsLink s unmount v = ground arith

run-ShowsLink : (s : EventSourceState) (es : List Event) → ShowsLink s → ShowsLink (run s es)
unfolding run
run-ShowsLink s [] v = v
run-ShowsLink s (e ∷ es) v = run-ShowsLink (step s e) es (step-ShowsLink s e v)

-- After the hook has mounted and whatever has happened since, it waits for a token and shows
-- "connecting", or has its stream and does not show "disconnected", or waits to retry and shows
-- "disconnected"; once unmounted it has no stream, no timer and shows "disconnected".
pub run-mount-ShowsLink : (es : List Event) → ShowsLink (run (mount initial) es)
unfolding mount initial
run-mount-ShowsLink es = run-ShowsLink _ es (ground arith)
