-- ===== src/Sse/LinkLaws.antt =====
-- What holds of a connection over every sequence of events: it is never doubled and never stuck, its
-- waits stay in bounds, and after the cleanup nothing is opened or scheduled again.
use react_ai_healthycare.Base.{
  ℕ, ◌+◌, ◌≤◌, ◌≡◌, List, [], ◌∷◌, Option, none, some, Bool, true, false, if◌then◌else◌, arith,
}
use react_ai_healthycare.Sse.Backoff.{current_sse_retry_delay_ms, next_sse_retry_delay_ms}
use react_ai_healthycare.Sse.Link.{
  Link, start, on_timer, on_token, on_token_failed, on_connected, on_error, cleanup,
}

pub data Event : Type 0 where
  timer_fires token_comes token_fails connected error unmount : Event

-- The token and the stream send events only to a link that waits for them.
unfoldable pub step : Link → Event → Link
unfolding on_timer on_token on_token_failed on_connected on_error cleanup
step l timer_fires = on_timer l
step l token_comes = if l.awaiting then on_token l else l
step l token_fails = if l.awaiting then on_token_failed l else l
step l connected = if l.is_open then on_connected l else l
step l error = if l.is_open then on_error l else l
step l unmount = cleanup l

unfoldable pub run : Link → List Event → Link
run l [] = l
run l (e ∷ es) = run (step l e) es

abbrev one_if : Bool → ℕ
one_if true = 1
one_if false = 0

abbrev one_if_some : Option ℕ → ℕ
one_if_some none = 0
one_if_some (some d) = 1

-- what goes on for the connection: a token request, an open stream or a timer
abbrev pub activities : Link → ℕ
activities l = one_if l.awaiting + one_if l.is_open + one_if_some l.timer

abbrev pub IsBounded : Option ℕ → Type 0
IsBounded none = Unit
IsBounded (some d) = (5000 ≤ d) × (d ≤ 30000)

pub record Inv (l : Link) : Type 0 where
  pub live : l.ended ≡ false → activities l ≡ 1
  pub over : l.ended ≡ true → (l.is_open ≡ false) × (l.timer ≡ none)
  pub wait : IsBounded l.timer
  pub delay_le : l.delay ≤ 30000

step-Inv : (l : Link) (e : Event) → Inv l → Inv (step l e)
unfolding step current_sse_retry_delay_ms next_sse_retry_delay_ms
step-Inv l timer_fires v = ground arith
step-Inv l token_comes v = ground arith
step-Inv l token_fails v = ground arith
step-Inv l connected v = ground arith
step-Inv l error v = ground arith
step-Inv l unmount v = ground arith

run-Inv : (l : Link) (es : List Event) → Inv l → Inv (run l es)
unfolding run
run-Inv l [] v = v
run-Inv l (e ∷ es) v = run-Inv (step l e) es (step-Inv l e v)

-- A connection that starts with a delay of at most 30000 ms has, until it is unmounted, at every time
-- exactly one of a token request, an open stream and a timer; each timer waits for 5000 ms at least
-- and 30000 ms at most; and once unmounted it has neither a stream nor a timer.
pub run-start-Inv : (d : ℕ) (es : List Event) → d ≤ 30000 → Inv (run (start d) es)
run-start-Inv d es h = run-Inv (start d) es (ground arith)
