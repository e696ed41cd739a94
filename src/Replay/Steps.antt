-- ===== src/Replay/Steps.antt =====
-- The step controls undo each other.
use react_ai_healthycare.Base.{
  String, Option, none, some, false, ◌≡◌, refl, ap, ◌∙◌, inl, inr, truthy?, arith, Bool-cases,
  if◌then◌else◌, string_eq,
}
use react_ai_healthycare.Base.Int.{
  ℤ, pos, ◌-ℤ◌, ◌+ℤ◌, ◌≤ℤ◌, leb_ℤ, min_ℤ, max_ℤ, +ℤ_parts, -ℤ_parts, ℤ_antisym,
}
use react_ai_healthycare.Replay.{
  IsTime, Dates, Replay, set_time, where_some, step_forward, step_backward, forward_from,
  backward_from, floor_ms,
}
use react_ai_healthycare.Replay.Laws.{to_iso-truthy}

module _ (dates : Dates) where
  -- A position that the ref holds, with its time.
  pub record IsAt (t : ℤ) (s : Replay) : Type 0 where
    pub position : String
    pub shown : s.as_of ≡ some position
    pub referred : truthy? s.as_of_ref ≡ some position
    pub dated : dates.get_time position ≡ some t

  set_time-IsAt :
      (u : ℤ) (o : Option String) (s : Replay)
      → dates.to_iso u ≡ o
      → (v : String) × (o ≡ some v)
      → IsAt u (set_time dates o s)
  set_time-IsAt u none s e (v, h) = ground (arith, h)
  set_time-IsAt u (some w) s e (v, h) = record {
    position = w;
    shown = refl;
    referred = to_iso-truthy dates u w e;
    dated = dates.get_time-to_iso u w e;
  }

  min_ℤ_left : (a b : ℤ) → a ≤ℤ b → min_ℤ a b ≡ a
  min_ℤ_left a b h = ground arith

  max_ℤ_left : (a b : ℤ) → b ≤ℤ a → max_ℤ a b ≡ a
  max_ℤ_left a b h = elim (Bool-cases (leb_ℤ a b)) [
    | inl q ↦ rw q (ℤ_antisym b a h (ground arith))
    | inr q ↦ rw q refl
  ]

  step_forward-IsAt :
      (t now_ms : ℤ) (s : Replay)
      → IsAt t s
      → IsTime (t +ℤ pos 300000)
      → (t +ℤ pos 300000) ≤ℤ (now_ms -ℤ pos 1000)
      → IsAt (t +ℤ pos 300000) (step_forward dates now_ms s)
  unfolding step_forward
  step_forward-IsAt t now_ms s a k h =
      rw
        (ap (λ o. where_some o (λ c. forward_from dates now_ms (dates.get_time c) s) s) a.referred
          ∙ (ap (λ o. forward_from dates now_ms o s) a.dated
              ∙ ap (λ u. set_time dates (dates.to_iso u) s)
                  (min_ℤ_left (t +ℤ pos 300000) (now_ms -ℤ pos 1000) h)))
        (set_time-IsAt (t +ℤ pos 300000) _ s refl (dates.to_iso_lem _ k))

  step_backward-IsAt :
      (t now_ms : ℤ) (s : Replay)
      → IsAt t s
      → IsTime (t -ℤ pos 300000)
      → floor_ms now_ms ≤ℤ (t -ℤ pos 300000)
      → IsAt (t -ℤ pos 300000) (step_backward dates now_ms s)
  unfolding step_backward
  step_backward-IsAt t now_ms s a k h =
      let above : leb_ℤ t (floor_ms now_ms) ≡ false = ground (arith, -ℤ_parts t (pos 300000)) in
      rw
        (ap (λ o. where_some o (λ c. backward_from dates now_ms (dates.get_time c) s) s) a.referred
          ∙ (ap (λ o. backward_from dates now_ms o s) a.dated
              ∙ (ap
                    (λ b.
                      if b
                      then s
                      else set_time dates (dates.to_iso (max_ℤ (t -ℤ pos 300000) (floor_ms now_ms)))
                          s)
                    above
                  ∙ ap (λ u. set_time dates (dates.to_iso u) s)
                      (max_ℤ_left (t -ℤ pos 300000) (floor_ms now_ms) h))))
        (set_time-IsAt (t -ℤ pos 300000) _ s refl (dates.to_iso_lem _ k))

  back_and_forth : (t : ℤ) → (t -ℤ pos 300000) +ℤ pos 300000 ≡ t
  back_and_forth t =
      ℤ_antisym _ _
        (omega (arith, -ℤ_parts t (pos 300000), +ℤ_parts (t -ℤ pos 300000) (pos 300000)))
        (omega (arith, -ℤ_parts t (pos 300000), +ℤ_parts (t -ℤ pos 300000) (pos 300000)))

  -- A step back and then a step forward return to the time `t` of the position, if five minutes
  -- before `t` is a time that a date can hold and is within the 30 days, and `t` is at least a second
  -- before the clock at the second step.
  pub forward-backward_roundtrip :
      (t now_ms then_ms : ℤ) (s : Replay)
      → IsAt t s
      → IsTime (t -ℤ pos 300000)
      → floor_ms now_ms ≤ℤ (t -ℤ pos 300000)
      → t ≤ℤ (then_ms -ℤ pos 1000)
      → IsAt t (step_forward dates then_ms (step_backward dates now_ms s))
  forward-backward_roundtrip t now_ms then_ms s a k h l =
      let back = back_and_forth t in
      rw (← ap (λ u. IsAt u (step_forward dates then_ms (step_backward dates now_ms s))) back) (
        step_forward-IsAt (t -ℤ pos 300000) then_ms (step_backward dates now_ms s)
          (step_backward-IsAt t now_ms s a k h)
          (rw back (dates.get_time-IsTime a.position t a.dated)) (rw back l))
