-- ===== src/Sse/Cursor.antt =====
-- The cursor of useSignalStream.ts, from which a new stream asks for signals, does not go back.
use react_ai_healthycare.Base.{
  [], List, ◌∷◌, true, false, Bool, Bool-cases, if◌then◌else◌, all, String, Option, none, some, not,
  ◌||◌, ◌≡◌, is_some, truthy?, arith, Option-cases, inl, inr, ℕ,
}
use react_ai_healthycare.Base.Int.{ℤ, ◌≤ℤ◌}
use react_ai_healthycare.Api.Records.{Signal}
use react_ai_healthycare.Sse.SignalStream.{
  SignalStreamState, on_seed_cursor, on_timer, on_token, on_token_failed, on_connected, on_signal,
  on_error, cleanup, mount, max_iso_timestamp,
}
use react_ai_healthycare.Api.Enums.{SignalType}
use react_ai_healthycare.Sse.SignalStreamLaws.{
  Event, timer_fires, token_comes, token_fails, opened, error, unmount, disable, remount, seed,
  message, step, run,
}

module _ (parse_date : String → Option ℤ) where
  abbrev pub time_of : Option String → Option ℤ
  time_of none = none
  time_of (some text) = parse_date text

  abbrev pub cursor_time : Option String → Option ℤ
  cursor_time o = time_of (truthy? o)

  -- The text is missing, or a date.
  abbrev pub is_readable : Option String → Bool
  is_readable o = not (is_some (truthy? o)) || is_some (cursor_time o)

  abbrev pub IsAtLeast : ℤ → Option ℤ → Type 0
  IsAtLeast x none = ⊥
  IsAtLeast x (some z) = x ≤ℤ z

  max_iso-IsAtLeast :
      (x : ℤ) (left right : Option String)
      → IsAtLeast x (cursor_time left)
      → is_readable right ≡ true
      → IsAtLeast x (cursor_time (max_iso_timestamp parse_date left right))
  unfolding max_iso_timestamp
  max_iso-IsAtLeast x left right h r = elim (Option-cases (truthy? left)) [
    | inl e ↦ ground (arith, e, h)
    | inr (a, e) ↦ elim (Option-cases (truthy? right)) [
      | inl f ↦ ground (arith, e, f, h)
      | inr (b, f) ↦ elim (Option-cases (parse_date a)) [
        | inl g ↦ ground (arith, e, f, g, h)
        | inr (y, g) ↦ elim (Option-cases (parse_date b)) [
          | inl k ↦ ground (arith, e, f, g, k, h, r)
          | inr (z, k) ↦ ground (arith, e, f, g, k, h, r)
        ]
      ]
    ]
  ]

  -- The event brings no text that is not a date, and does not reset the hook.
  abbrev pub is_dated : Event → Bool
  is_dated disable = false
  is_dated (seed cursor) = is_readable cursor
  is_dated (message none) = true
  is_dated (message (some signal)) = is_readable (some signal.ingested_at)
  is_dated e = true

  abbrev IsFrom : ℤ → SignalStreamState → Type 0
  IsFrom x s = IsAtLeast x (cursor_time s.latest_seen)

  either-IsFrom :
      (x : ℤ) (b : Bool) (s u : SignalStreamState)
      → IsFrom x s
      → IsFrom x u
      → IsFrom x (if b then s else u)
  either-IsFrom x true s u h i = h
  either-IsFrom x false s u h i = i

  module _ (limits : SignalType → Option ℕ) where
    on_signal-IsFrom :
        (x : ℤ) (s : SignalStreamState) (m : Option Signal)
        → IsFrom x s
        → is_dated (message m) ≡ true
        → IsFrom x (on_signal parse_date limits m s)
    unfolding on_signal
    on_signal-IsFrom x s none h d = h
    on_signal-IsFrom x s (some signal) h d =
        max_iso-IsAtLeast x s.latest_seen (some signal.ingested_at) h d

    step-IsFrom :
        (x : ℤ) (s : SignalStreamState) (e : Event)
        → IsFrom x s
        → is_dated e ≡ true
        → IsFrom x (step parse_date limits s e)
    unfolding step on_timer on_token on_token_failed on_connected on_error cleanup mount
        on_seed_cursor
    step-IsFrom x s timer_fires h d = h
    step-IsFrom x s token_comes h d = either-IsFrom x s.link.awaiting (on_token parse_date s) s h h
    step-IsFrom x s token_fails h d =
        either-IsFrom x s.link.awaiting (on_token_failed parse_date s) s h h
    step-IsFrom x s opened h d = either-IsFrom x s.link.is_open (on_connected parse_date s) s h h
    step-IsFrom x s error h d = either-IsFrom x s.link.is_open (on_error parse_date s) s h h
    step-IsFrom x s unmount h d = h
    step-IsFrom x s disable h d = ground (arith, d)
    step-IsFrom x s remount h d = h
    step-IsFrom x s (seed cursor) h d = max_iso-IsAtLeast x s.latest_seen cursor h d
    step-IsFrom x s (message m) h d =
        either-IsFrom x s.link.is_open (on_signal parse_date limits m s) s
          (on_signal-IsFrom x s m h d) h

    -- If the cursor is a date, no event resets the hook, and every text that comes in is missing or a
    -- date, then the cursor stays a date, no earlier than it was.
    pub run-IsFrom :
        (x : ℤ) (s : SignalStreamState) (es : List Event)
        → IsAtLeast x (cursor_time s.latest_seen)
        → all is_dated es ≡ true
        → IsAtLeast x (cursor_time (run parse_date limits s es).latest_seen)
    unfolding run
    run-IsFrom x s [] h d = h
    run-IsFrom x s (e ∷ es) h d = elim (Bool-cases (is_dated e)) [
      | inl dated ↦
          run-IsFrom x (step parse_date limits s e) es (step-IsFrom x s e h dated)
            (ground (arith, d, dated))
      | inr other ↦ ground (arith, d, other)
    ]
