-- ===== src/Sse/Link.antt =====
-- The connection that useEventSource.ts, useSignalStream.ts and useTelemetryStream.ts each keep, in
-- one run of their effect: `connect`, `scheduleReconnect`, the listeners and the cleanup.
use react_ai_healthycare.Base.{ℕ, Option, none, some, Bool, true, false, if◌then◌else◌}
use react_ai_healthycare.Sse.Backoff.{
  retry_reset_delay_ms, current_sse_retry_delay_ms, next_sse_retry_delay_ms,
}

-- `awaiting`: a call of `connect` waits for its token; `is_open`: `esRef` holds a stream; `timer`: the
-- delay of the timer that runs; `ended`: `cancelled`, or not `mounted`.
pub record Link : Type 0 where
  pub awaiting : Bool
  pub is_open : Bool
  pub timer : Option ℕ
  pub delay : ℕ
  pub ended : Bool

abbrev pub connect : Link → Link
connect l = record l { awaiting = true }

-- The state after the effect has started.
abbrev pub start : ℕ → Link
start delay =
    connect
      (record { awaiting = false; is_open = false; timer = none; delay = delay; ended = false })

unfoldable pub schedule_reconnect : Link → Link
schedule_reconnect l = record l { timer = some (current_sse_retry_delay_ms l.delay) }

-- the callback of the timer
unfoldable pub on_timer : Link → Link
on_timer l = elim l.timer [
  | none ↦ l
  | some retry_delay ↦
      connect (record l { timer = none; delay = next_sse_retry_delay_ms retry_delay })
]

-- the token has come, or the request failed
unfoldable pub on_token : Link → Link
on_token l = record l { awaiting = false; is_open = if l.ended then l.is_open else true }

unfoldable pub on_token_failed : Link → Link
unfolding schedule_reconnect
on_token_failed l =
    let failed = record l { awaiting = false } in
    if l.ended then failed else schedule_reconnect failed

-- the stream's `connected` event, and its error
unfoldable pub on_connected : Link → Link
on_connected l = record l { delay = retry_reset_delay_ms }

unfoldable pub on_error : Link → Link
unfolding schedule_reconnect
on_error l =
    let closed = record l { is_open = false } in
    if l.ended then closed else schedule_reconnect closed

unfoldable pub cleanup : Link → Link
cleanup l = record l { ended = true; is_open = false; timer = none }
