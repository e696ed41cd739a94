-- ===== src/Sse.antt =====
-- The live streams of the frontend: the back-off of frontend/src/lib/sseBackoff.ts, the shared token
-- request of frontend/src/lib/sseToken.ts, and the hooks useEventSource.ts, useSignalStream.ts and
-- useTelemetryStream.ts, which open, retry and close a stream in the same way.
pub mod Backoff
pub mod Token
pub mod Link
pub mod LinkLaws
pub mod EventSource
pub mod EventSourceLaws
pub mod SignalStream
pub mod SignalStreamLaws
pub mod Cursor
pub mod Telemetry
pub mod TelemetryStream
mod Tests
