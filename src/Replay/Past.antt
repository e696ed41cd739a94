-- ===== src/Replay/Past.antt =====
-- The replay stays in the past.
use react_ai_healthycare.Base.{
  String, List, [], ◌∷◌, Option, none, some, ◌≡◌, refl, ap, inl, inr, truthy?, arith, Bool-cases,
  ==_iff, string_eq,
}
use react_ai_healthycare.Base.Int.{ℤ, pos, ◌+ℤ◌, ◌≤ℤ◌, ◌<ℤ◌, leb_ℤ, -ℤ_parts}
use react_ai_healthycare.Replay.{
  PlaybackRate, Dates, Replay, Event, picks, plays, pauses, commits, sets_rate, steps_forward,
  steps_backward, ticks, commit, move_to, set_time, advance, advance_ms, on_tick, step, run,
  step_forward, step_backward, forward_from, backward_from, floor_ms, set_as_of, play, pause,
  set_playback_rate,
}
use react_ai_healthycare.Replay.Laws.{where_some_ind}

module _ (dates : Dates) where
  -- Where the ref has a date, it is before `now_ms`.
  abbrev pub IsPast : ℤ → Option String → Type 0
  IsPast now_ms o = (v : String) (t : ℤ) → o ≡ some v → dates.get_time v ≡ some t → t <ℤ now_ms

  -- The clock at an event, with what is known of the one before.
  abbrev pub clock : ℤ → Event → ℤ
  clock now_ms (steps_forward n) = n
  clock now_ms (steps_backward n) = n
  clock now_ms (ticks n) = n
  clock now_ms _ = now_ms

  -- The clock does not go back, and dates in the past are picked.
  abbrev pub IsTimely : ℤ → List Event → Type 0
  IsTimely now_ms [] = Unit
  IsTimely now_ms (steps_forward n ∷ es) = (now_ms ≤ℤ n) × IsTimely n es
  IsTimely now_ms (steps_backward n ∷ es) = (now_ms ≤ℤ n) × IsTimely n es
  IsTimely now_ms (ticks n ∷ es) = (now_ms ≤ℤ n) × IsTimely n es
  IsTimely now_ms (picks v ∷ es) = IsPast now_ms v × IsTimely now_ms es
  IsTimely now_ms (_ ∷ es) = IsTimely now_ms es

  abbrev pub last_clock : ℤ → List Event → ℤ
  last_clock now_ms [] = now_ms
  last_clock now_ms (e ∷ es) = last_clock (clock now_ms e) es

  weaken : (m n : ℤ) (o : Option String) → m ≤ℤ n → IsPast m o → IsPast n o
  weaken m n o h p v t e d = omega (arith, p v t e d)

  to_iso-IsPast :
      (u now_ms : ℤ) (v : String) → dates.to_iso u ≡ some v → u <ℤ now_ms → IsPast now_ms (some v)
  to_iso-IsPast u now_ms v e h w t q d =
      ground (arith, dates.get_time-to_iso u v e, ap (λ o. o) q, d, h)

  none-IsPast : (now_ms : ℤ) → IsPast now_ms none
  none-IsPast now_ms v t e d = ground (arith, e)

  move_to-IsPast :
      (u now_ms : ℤ) (o : Option String) (s : Replay)
      → dates.to_iso u ≡ o
      → u <ℤ now_ms
      → IsPast now_ms s.as_of_ref
      → IsPast now_ms (move_to dates o s).as_of_ref
  move_to-IsPast u now_ms none s e h p = p
  move_to-IsPast u now_ms (some v) s e h p = to_iso-IsPast u now_ms v e h

  set_time-IsPast :
      (u now_ms : ℤ) (o : Option String) (s : Replay)
      → dates.to_iso u ≡ o
      → u <ℤ now_ms
      → IsPast now_ms s.as_of_ref
      → IsPast now_ms (set_time dates o s).as_of_ref
  set_time-IsPast u now_ms none s e h p = p
  set_time-IsPast u now_ms (some v) s e h p = to_iso-IsPast u now_ms v e h

  advance-IsPast :
      (rate : PlaybackRate) (now_ms : ℤ) (o : Option ℤ) (s : Replay)
      → IsPast now_ms s.as_of_ref
      → IsPast now_ms (advance dates rate now_ms o s).as_of_ref
  advance-IsPast rate now_ms none s p = p
  advance-IsPast rate now_ms (some t) s p =
      elim (Bool-cases (leb_ℤ now_ms (t +ℤ pos (advance_ms rate)))) [
        | inl h ↦ rw h (none-IsPast now_ms)
        | inr h ↦ rw h (move_to-IsPast _ now_ms _ s refl (ground arith) p)
      ]

  forward_from-IsPast :
      (now_ms : ℤ) (o : Option ℤ) (s : Replay)
      → IsPast now_ms s.as_of_ref
      → IsPast now_ms (forward_from dates now_ms o s).as_of_ref
  forward_from-IsPast now_ms none s p = p
  forward_from-IsPast now_ms (some t) s p =
      set_time-IsPast _ now_ms _ s refl (ground (arith, -ℤ_parts now_ms (pos 1000))) p

  backward_from-IsPast :
      (now_ms : ℤ) (o : Option ℤ) (s : Replay)
      → ((t : ℤ) → o ≡ some t → t <ℤ now_ms)
      → IsPast now_ms s.as_of_ref
      → IsPast now_ms (backward_from dates now_ms o s).as_of_ref
  backward_from-IsPast now_ms none s q p = p
  backward_from-IsPast now_ms (some t) s q p = elim (Bool-cases (leb_ℤ t (floor_ms now_ms))) [
    | inl h ↦ rw h p
    | inr h ↦ rw h (
        set_time-IsPast _ now_ms _ s refl
          (ground (arith, q t refl, -ℤ_parts t (pos 300000), -ℤ_parts now_ms (pos 2592000000))) p)
  ]

  truthy?_eq : (o : Option String) (v : String) → truthy? o ≡ some v → o ≡ some v
  truthy?_eq none v h = ground (arith, h)
  truthy?_eq (some w) v h = ground (arith, h, ==_iff w "")

  module _ (now_ms : ℤ) where
    abbrev Past : Replay → Type 0
    Past s = IsPast now_ms s.as_of_ref

    step_forward-IsPast : (s : Replay) → Past s → Past (step_forward dates now_ms s)
    unfolding step_forward
    step_forward-IsPast s p =
        where_some_ind Past (truthy? s.as_of_ref) _ s p
          λ c e. forward_from-IsPast now_ms (dates.get_time c) s p

    step_backward-IsPast : (s : Replay) → Past s → Past (step_backward dates now_ms s)
    unfolding step_backward
    step_backward-IsPast s p = where_some_ind Past (truthy? s.as_of_ref) _ s p λ c e.
        backward_from-IsPast now_ms (dates.get_time c) s
          (λ t d. p c t (truthy?_eq s.as_of_ref c e) d) p

    tick-IsPast : (s : Replay) → Past s → Past (step dates (ticks now_ms) s)
    unfolding on_tick
    tick-IsPast s p = where_some_ind Past s.interval _ s p λ rate e.
        where_some_ind Past (truthy? s.as_of_ref) _ _ p
          λ c d. advance-IsPast rate now_ms (dates.get_time c) s p

    play-IsPast : (s : Replay) → Past s → Past (play s)
    unfolding play
    play-IsPast s p = where_some_ind Past (truthy? s.as_of_ref) _ s p λ c e. p

  -- If the clock does not go back and each date picked is before it, then the position that the
  -- replay reads from stays before the clock, whatever is played, stepped or ticked.
  pub run-IsPast :
      (now_ms : ℤ) (es : List Event) (s : Replay)
      → IsTimely now_ms es
      → IsPast now_ms s.as_of_ref
      → IsPast (last_clock now_ms es) (run dates es s).as_of_ref
  unfolding set_as_of pause set_playback_rate commit
  run-IsPast now_ms [] s h p = p
  run-IsPast now_ms (picks v ∷ es) s h p = run-IsPast now_ms es (set_as_of v s) h.1 h.0
  run-IsPast now_ms (plays ∷ es) s h p = run-IsPast now_ms es (play s) h (play-IsPast now_ms s p)
  run-IsPast now_ms (pauses ∷ es) s h p = run-IsPast now_ms es (pause s) h p
  run-IsPast now_ms (commits ∷ es) s h p = run-IsPast now_ms es (commit s) h p
  run-IsPast now_ms (sets_rate r ∷ es) s h p = run-IsPast now_ms es (set_playback_rate r s) h p
  run-IsPast now_ms (steps_forward n ∷ es) s h p =
      run-IsPast n es _ h.1 (step_forward-IsPast n s (weaken now_ms n s.as_of_ref h.0 p))
  run-IsPast now_ms (steps_backward n ∷ es) s h p =
      run-IsPast n es _ h.1 (step_backward-IsPast n s (weaken now_ms n s.as_of_ref h.0 p))
  run-IsPast now_ms (ticks n ∷ es) s h p =
      run-IsPast n es _ h.1 (tick-IsPast n s (weaken now_ms n s.as_of_ref h.0 p))
