-- ===== src/Replay/Tests.antt =====
-- Dates written as a letter and a number, and a session with the clock.
use react_ai_healthycare.Base.{
  ℕ, ◌*◌, ◌+◌, ◌≤◌, ◌/◌, ◌%◌, String, List, [], ◌∷◌, Option, none, some, Bool, true, ◌≡◌, refl,
  arith, if◌then◌else◌, ◌&&◌, eqb, Bool-cases, inl, inr, sym, ap, ◌∙◌, decimal, value, ◌or◌,
  value-decimal,
}
use react_ai_healthycare.Base.Int.{ℤ, pos, negsuc, leb_ℤ, ◌-ℤ◌, ◌+ℤ◌}
use react_ai_healthycare.Replay.{
  rate_5, IsTime, Dates, Replay, Event, picks, plays, pauses, commits, steps_forward,
  steps_backward, ticks, initial, run, set_as_of, play, commit,
}
use react_ai_healthycare.Replay.Laws.{IsConsistent, run-initial-IsConsistent}
use react_ai_healthycare.Replay.Playback.{IsPlayingFrom, IsLive, playback_ends}
use react_ai_healthycare.Replay.Past.{IsPast, run-IsPast}
use react_ai_healthycare.Replay.Steps.{IsAt, forward-backward_roundtrip}
use react_ai_healthycare.Replay.Guard.{called, IsGuarded, run-IsGuarded}

abbrev in_range : ℤ → Bool
in_range t = leb_ℤ (negsuc 8639999999999999) t && leb_ℤ t (pos 8640000000000000)

abbrev to_code : ℤ → ℕ
to_code (pos n) = 2 * n
to_code (negsuc n) = 2 * n + 1

abbrev of_code : ℕ → ℤ
of_code n = if eqb (n % 2) 0 then pos (n / 2) else negsuc (n / 2)

abbrev checked : ℤ → Option ℤ
checked t = if in_range t then some t else none

abbrev read_date : String → Option ℤ
read_date String.[] = none
read_date (String.◌∷◌ c s) = checked (of_code (value s 0))

abbrev write_date : ℤ → Option String
write_date t = if in_range t then some (String.◌∷◌ "T" (decimal (to_code t))) else none

code_roundtrip : (t : ℤ) → of_code (to_code t) ≡ t
code_roundtrip (pos n) = ground arith
code_roundtrip (negsuc n) = ground arith

checked-IsTime : (u t : ℤ) → checked u ≡ some t → IsTime t
checked-IsTime u t h = elim (Bool-cases (in_range u)) [
  | inl q ↦ ground (arith, h, q)
  | inr q ↦ ground (arith, h, q)
]

read_date-IsTime : (s : String) (t : ℤ) → read_date s ≡ some t → IsTime t
read_date-IsTime String.[] t h = ground (arith, h)
read_date-IsTime (String.◌∷◌ c s) t h = checked-IsTime (of_code (value s 0)) t h

write_date_lem : (t : ℤ) → IsTime t → (s : String) × (write_date t ≡ some s)
write_date_lem t h = (String.◌∷◌ "T" (decimal (to_code t)), ground (arith, h))

written :
    (t : ℤ) (s : String)
    → in_range t ≡ true
    → write_date t ≡ some s
    → String.◌∷◌ "T" (decimal (to_code t)) ≡ s
written t s q h =
    ap (λ o. o or "")
      (sym (ap (λ b. if b then some (String.◌∷◌ "T" (decimal (to_code t))) else none) q) ∙ h)

read-write_date : (t : ℤ) (s : String) → write_date t ≡ some s → read_date s ≡ some t
read-write_date t s h = elim (Bool-cases (in_range t)) [
  | inl q ↦
      ap read_date (sym (written t s q h))
      ∙ (ap (λ n. checked (of_code n)) (value-decimal (to_code t))
          ∙ (ap checked (code_roundtrip t) ∙ ap (λ b. if b then some t else none) q))
  | inr q ↦ absurd (ground (arith, h, q))
]

abbrev dates : Dates
dates = record {
  get_time = read_date;
  to_iso = write_date;
  get_time-IsTime = read_date-IsTime;
  to_iso_lem = write_date_lem;
  get_time-to_iso = read-write_date;
  empty_invalid = refl;
}

-- The 100000th second after 1970, and a clock five minutes and a second later.
abbrev position : String
position = "T200000000"

abbrev session : List (Event)
session = picks (some position) ∷ plays ∷ commits ∷ []

run-initial-IsConsistent_example : IsConsistent (run dates session initial)
run-initial-IsConsistent_example = run-initial-IsConsistent dates session

playing : (run dates session initial).is_playing ≡ true
unfolding set_as_of play commit
playing = refl

-- Playback was paused in the past.
run-IsGuarded_example :
    IsGuarded {V = ℕ} called 3 (run dates (picks (some position) ∷ plays ∷ pauses ∷ []) initial)
run-IsGuarded_example =
    run-IsGuarded dates (picks (some position) ∷ plays ∷ pauses ∷ []) called 3
      (refl, (tt, (tt, tt)))

dated : dates.get_time position ≡ some (pos 100000000)
unfolding value
dated = refl

plays_from : IsPlayingFrom dates rate_5 (pos 100000000) (run dates session initial)
unfolding set_as_of play commit
plays_from = record {
  playing = refl;
  rated = refl;
  ticking = refl;
  position = position;
  shown = refl;
  referred = refl;
  dated = dated;
}

abbrev playback : List Event
playback = ticks (pos 100000500) ∷ commits ∷ ticks (pos 100001000) ∷ ticks (pos 100301500) ∷ []

-- The position is 301.5 seconds before the last tick, and a tick advances it by 150 seconds.
playback_ends_example : IsLive dates (run dates playback (run dates session initial))
unfolding ◌+ℤ◌
playback_ends_example =
    let bounded : (n : ℕ)
        → n ≤ 301500
        → IsTime (pos (n + 100000000)) × (n + 100000000 + 0 ≤ 100301500 + 0) =
      λ n h. ((omega arith, omega arith), omega arith) in
    playback_ends dates rate_5 (pos 100000000) (pos 100301500) playback _ plays_from
      (
        bounded 500 (omega arith),
        (tt, (bounded 1000 (omega arith), (bounded 301500 (omega arith), tt))),
      )
      (omega arith) (omega arith)

position-IsPast : IsPast dates (pos 100301000) (some position)
position-IsPast v t e d =
    let same : pos 100000000 ≡ t =
      ap (λ o. o or pos 0) (sym dated ∙ (ap read_date (ap (λ o. o or "") e) ∙ d)) in
    rw (← same) (omega arith)

run-IsPast_example :
    IsPast dates
      (pos 100301500)
      (run dates
        (picks (some position) ∷ plays ∷ steps_forward (pos 100301500) ∷ [])
        initial).as_of_ref
run-IsPast_example =
    run-IsPast dates (pos 100301000)
      (picks (some position) ∷ plays ∷ steps_forward (pos 100301500) ∷ []) initial
      (position-IsPast, (omega arith, tt)) λ v t e d. ground (arith, e)

abbrev picked : Replay
picked = run dates (picks (some position) ∷ []) initial

picked-IsAt : IsAt dates (pos 100000000) picked
unfolding set_as_of
picked-IsAt = record { position = position; shown = refl; referred = refl; dated = dated }

forward-backward_roundtrip_example :
    IsAt dates
      (pos 100000000)
      (run dates (steps_backward (pos 100301000) ∷ steps_forward (pos 100301500) ∷ []) picked)
unfolding ◌-ℤ◌
forward-backward_roundtrip_example =
    forward-backward_roundtrip dates (pos 100000000) (pos 100301000) (pos 100301500) picked
      picked-IsAt (omega arith, omega arith) (omega arith) (omega arith)
