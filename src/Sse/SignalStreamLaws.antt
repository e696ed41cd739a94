-- ===== src/Sse/SignalStreamLaws.antt =====
-- The signals that useSignalStream.ts holds stay within the limits.
use react_ai_healthycare.Base.{
  false, Bool, true, arith, ℕ, suc, ◌≤◌, ◌≡◌, String, List, [], ◌∷◌, Option, none, some,
  if◌then◌else◌, length, values, string_eq,
}
use react_ai_healthycare.Base.Int.{ℤ}
use react_ai_healthycare.Sse.SignalStream.{
  SignalStreamState, all_limits, reset, mount, on_seed_cursor, on_timer, on_token, on_token_failed,
  on_connected, on_signal, on_error, cleanup,
}
use react_ai_healthycare.Api.Enums.{SignalType}
use react_ai_healthycare.Api.Records.{Signal}
use react_ai_healthycare.LiveSignals.{SignalMap}
use react_ai_healthycare.LiveSignals.Bounds.{
  IsKeyed, of_type, merge_signals_bound, merge_signals-IsKeyed,
}

pub data Event : Type 0 where
  timer_fires token_comes token_fails opened error unmount disable remount : Event
  seed : Option String → Event
  message : Option Signal → Event

module _ (parse_date : String → Option ℤ) (limits : SignalType → Option ℕ) where
  -- The token and the stream send events only to a hook that waits for them.
  unfoldable pub step : SignalStreamState → Event → SignalStreamState
  step s timer_fires = on_timer parse_date s
  step s token_comes = if s.link.awaiting then on_token parse_date s else s
  step s token_fails = if s.link.awaiting then on_token_failed parse_date s else s
  step s opened = if s.link.is_open then on_connected parse_date s else s
  step s error = if s.link.is_open then on_error parse_date s else s
  step s unmount = cleanup parse_date s
  step s disable = reset parse_date none s
  step s remount = mount parse_date s
  step s (seed cursor) = on_seed_cursor parse_date cursor s
  step s (message m) = if s.link.is_open then on_signal parse_date limits m s else s

  unfoldable pub run : SignalStreamState → List Event → SignalStreamState
  run s [] = s
  run s (e ∷ es) = run (step s e) es

  abbrev pub IsWithin : SignalMap → Type 0
  IsWithin m =
      IsKeyed m
      × ((t : SignalType) (l : ℕ)
          → all_limits parse_date limits t ≡ some (suc l)
          → length (of_type t (values m)) ≤ suc l)

  on_signal-IsWithin :
      (m : Option Signal) (s : SignalStreamState)
      → IsWithin s.signals_by_id
      → IsWithin (on_signal parse_date limits m s).signals_by_id
  unfolding on_signal
  on_signal-IsWithin none s h = h
  on_signal-IsWithin (some signal) s h = (
    merge_signals-IsKeyed parse_date (all_limits parse_date limits) s.signals_by_id (signal ∷ [])
        h.0,
    λ t l e.
        merge_signals_bound parse_date (all_limits parse_date limits) s.signals_by_id (signal ∷ [])
          t l h.0 e,
  )

  either :
      (b : Bool) (s u : SignalStreamState)
      → IsWithin s.signals_by_id
      → IsWithin u.signals_by_id
      → IsWithin (if b then s else u).signals_by_id
  either true s u h i = h
  either false s u h i = i

  step-IsWithin :
      (s : SignalStreamState) (e : Event)
      → IsWithin s.signals_by_id
      → IsWithin (step s e).signals_by_id
  unfolding step on_timer on_token on_token_failed on_connected on_error cleanup reset mount
      on_seed_cursor
  step-IsWithin s timer_fires h = h
  step-IsWithin s token_comes h = either s.link.awaiting (on_token parse_date s) s h h
  step-IsWithin s token_fails h = either s.link.awaiting (on_token_failed parse_date s) s h h
  step-IsWithin s opened h = either s.link.is_open (on_connected parse_date s) s h h
  step-IsWithin s error h = either s.link.is_open (on_error parse_date s) s h h
  step-IsWithin s unmount h = h
  step-IsWithin s disable h = (tt, λ t l e. omega arith)
  step-IsWithin s remount h = h
  step-IsWithin s (seed cursor) h = h
  step-IsWithin s (message m) h =
      either s.link.is_open (on_signal parse_date limits m s) s (on_signal-IsWithin m s h) h

  -- Whatever the events, a hook that held no signals holds every signal under its own id, and of each
  -- type whose limit, the caller's or else the default, is at least 1 no more than that limit.
  pub run-IsWithin :
      (s : SignalStreamState) (es : List Event)
      → s.signals_by_id ≡ []
      → IsWithin (run s es).signals_by_id
  unfolding run
  run-IsWithin s es h = from s es (rw h (tt, λ t l e. omega arith))
    where
      from :
          (u : SignalStreamState) (rest : List Event)
          → IsWithin u.signals_by_id
          → IsWithin (run u rest).signals_by_id
      from u [] i = i
      from u (e ∷ rest) i = from (step u e) rest (step-IsWithin u e i)
