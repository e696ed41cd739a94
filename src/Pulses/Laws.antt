-- ===== src/Pulses/Laws.antt =====
-- The pulses are few, past, inside the window, nearest first, and none nearer is left out.
use mathlib.Core.List.{Perm}
use react_ai_healthycare.Base.{
  Bool-cases, Option-cases, inl, inr, false, ℕ, zero, suc, String, List, [], ◌∷◌, ◌++◌, Option,
  some, Bool, true, ◌≡◌, ◌≤◌, arith, length, take, drop, All, All-take, All-drop, All-sort_by,
  length-take, take-append-drop, sort_by, sort_by-perm, sort_by-IsSorted, IsSorted, Map,
}
use react_ai_healthycare.Base.Int.{ℤ, pos, ◌≤ℤ◌, -ℤ_parts}
use react_ai_healthycare.Pulses.{
  resolve_pulse_location, is_pulse_event_type, SiteCoord, Pulse, nearer, candidate, candidates,
  build_pulses, pulse_at,
}
use react_ai_healthycare.Api.Records.{AuditEvent}

module _ {A : Type 0} (before : A → A → Bool) where
  take-IsSorted : (n : ℕ) (xs : List A) → IsSorted before xs → IsSorted before (take n xs)
  take-IsSorted zero xs s = tt
  take-IsSorted (suc n) [] s = tt
  take-IsSorted (suc n) (x ∷ xs) s =
      (All-take (λ b. before x b ≡ true) n xs s.0, take-IsSorted n xs s.1)

  -- What is cut off comes after what is kept.
  IsSorted-cut :
      (n : ℕ) (xs : List A)
      → IsSorted before xs
      → All (λ a. All (λ b. before a b ≡ true) (drop n xs)) (take n xs)
  IsSorted-cut zero xs s = tt
  IsSorted-cut (suc n) [] s = tt
  IsSorted-cut (suc n) (x ∷ xs) s =
      (All-drop (λ b. before x b ≡ true) n xs s.0, IsSorted-cut n xs s.1)

-- The event is not after the cursor, and at most five minutes before it.
abbrev pub IsPast : Pulse → Type 0
IsPast p = (pos 0 ≤ℤ p.distance_ms) × (p.distance_ms ≤ℤ pos 300000)

module _ (parse_date : String → Option ℤ) (sites_by_id : Map String SiteCoord) (as_of_ms : ℤ) where
  pulse_at-IsPast :
      (event : AuditEvent) (location : SiteCoord) (occurred_ms : ℤ) (p : Pulse)
      → pulse_at parse_date sites_by_id as_of_ms event location occurred_ms ≡ some p
      → IsPast p
  pulse_at-IsPast event location occurred_ms p h = ground (arith, h, -ℤ_parts as_of_ms occurred_ms)

  candidate-IsPast :
      (event : AuditEvent) (p : Pulse)
      → candidate parse_date sites_by_id as_of_ms event ≡ some p
      → IsPast p
  unfolding candidate
  candidate-IsPast event p h = elim (Bool-cases (is_pulse_event_type event.event_type)) [
    | inr other ↦ ground (arith, other, h)
    | inl high ↦ elim (Option-cases (resolve_pulse_location event sites_by_id)) [
      | inl nowhere ↦ ground (arith, high, nowhere, h)
      | inr (location, there) ↦ elim (Option-cases (parse_date event.occurred_at)) [
        | inl never ↦ ground (arith, high, there, never, h)
        | inr (occurred_ms, e) ↦
            ground (arith, high, there, e, h, pulse_at-IsPast event location occurred_ms p)
      ]
    ]
  ]

  candidates-IsPast :
      (events : List AuditEvent) → All IsPast (candidates parse_date sites_by_id as_of_ms events)
  candidates-IsPast [] = tt
  candidates-IsPast (event ∷ events) =
      elim (Option-cases (candidate parse_date sites_by_id as_of_ms event)) [
        | inl skipped ↦ rw skipped (candidates-IsPast events)
        | inr (p, taken) ↦ rw taken (candidate-IsPast event p taken, candidates-IsPast events)
      ]

  nearer_total : (a b : Pulse) → nearer a b ≡ false → nearer b a ≡ true
  nearer_total a b h = ground (arith, h)

  nearer_trans : (a b c : Pulse) → nearer a b ≡ true → nearer b c ≡ true → nearer a c ≡ true
  nearer_trans a b c h k = ground (arith, h, k)

  -- At most 50 pulses are kept, each of an event not after the cursor and at most five minutes before
  -- it, the nearest first; and what is left out of the candidates is no nearer than what is kept.
  pub build_pulses_lem :
      (events : List AuditEvent)
      → let kept = build_pulses parse_date sites_by_id as_of_ms events in
        let all_of = candidates parse_date sites_by_id as_of_ms events in
        (length kept ≤ 50)
        × All IsPast kept
        × IsSorted nearer kept
        × ((left_out : List Pulse) × Perm (kept ++ left_out) all_of
            × All (λ p. All (λ q. nearer p q ≡ true) left_out) kept)
  unfolding build_pulses
  build_pulses_lem events =
      let all_of = candidates parse_date sites_by_id as_of_ms events in
      let sorted = sort_by nearer all_of in
      let s = sort_by-IsSorted nearer nearer_total nearer_trans all_of in
      (
        omega (arith, length-take 50 sorted),
        All-take IsPast 50 sorted (All-sort_by nearer IsPast all_of (candidates-IsPast events)),
        take-IsSorted nearer 50 sorted s,
        (
          drop 50 sorted,
          rw (take-append-drop 50 sorted) (sort_by-perm nearer all_of),
          IsSorted-cut nearer 50 sorted s,
        ),
      )
