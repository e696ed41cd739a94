-- ===== src/Replay/Laws.antt =====
-- The invariant of the replay clock, and that it does not get past the present.
use react_ai_healthycare.Base.{
  ◌≢◌, String, List, [], ◌∷◌, Option, none, some, true, ◌≡◌, refl, sym, ap, ◌∙◌, inl, inr, truthy?,
  is_some, arith, ==_iff, string_eq, Bool-cases,
}
use react_ai_healthycare.Base.Int.{ℤ, pos, ◌+ℤ◌, leb_ℤ}
use react_ai_healthycare.Replay.{
  where_some, floor_ms, PlaybackRate, Dates, Replay, Event, picks, plays, pauses, commits,
  sets_rate, steps_forward, steps_backward, ticks, initial, set_as_of, play, pause,
  set_playback_rate, commit, move_to, set_time, advance, advance_ms, on_tick, step_forward,
  step_backward, step, run, forward_from, backward_from,
}

pub truthy_some : (s : String) → s ≢ "" → truthy? (some s) ≡ some s
truthy_some s h = ground (arith, ==_iff s "")

-- To split on a value that may be missing.
pub where_some_ind {ℓ κ} :
    {A : Type ℓ} (P : Replay → Type κ) (o : Option A) (f : A → Replay) (s : Replay)
    → P s
    → ((a : A) → o ≡ some a → P (f a))
    → P (where_some o f s)
where_some_ind P none f s p g = p
where_some_ind P (some a) f s p g = g a refl

-- The ref mirrors the state, and playback has a position.
pub record IsConsistent (s : Replay) : Type 0 where
  pub mirrored : s.as_of_ref ≡ s.as_of
  pub placed : s.is_playing ≡ true → is_some (truthy? s.as_of) ≡ true

module _ (dates : Dates) where
  pub to_iso-truthy : (t : ℤ) (s : String) → dates.to_iso t ≡ some s → truthy? (some s) ≡ some s
  to_iso-truthy t s h =
      truthy_some s
        λ e. ground (arith, dates.get_time-to_iso t s h, ap dates.get_time e, dates.empty_invalid)

  move_to-IsConsistent :
      (t : ℤ) (o : Option String) (s : Replay)
      → dates.to_iso t ≡ o
      → IsConsistent s
      → IsConsistent (move_to dates o s)
  move_to-IsConsistent t none s h i = i
  move_to-IsConsistent t (some next) s h i = record {
    mirrored = refl;
    placed = λ p. ap is_some (to_iso-truthy t next h);
  }

  paused-IsConsistent : (v : Option String) (s : Replay) → IsConsistent (set_as_of v s)
  unfolding set_as_of
  paused-IsConsistent v s = record { mirrored = refl; placed = λ p. ground (arith, p) }

  set_time-IsConsistent :
      (o : Option String) (s : Replay) → IsConsistent s → IsConsistent (set_time dates o s)
  set_time-IsConsistent none s i = i
  set_time-IsConsistent (some v) s i = record { mirrored = refl; placed = λ p. ground (arith, p) }

  advance-IsConsistent :
      (rate : PlaybackRate) (now_ms : ℤ) (o : Option ℤ) (s : Replay)
      → IsConsistent s
      → IsConsistent (advance dates rate now_ms o s)
  advance-IsConsistent rate now_ms none s i = i
  advance-IsConsistent rate now_ms (some t) s i =
      elim (Bool-cases (leb_ℤ now_ms (t +ℤ pos (advance_ms rate)))) [
        | inl h ↦ rw h (record { mirrored = refl; placed = λ p. ground (arith, p) })
        | inr h ↦ rw h (move_to-IsConsistent (t +ℤ pos (advance_ms rate)) _ s refl i)
      ]

  on_tick-IsConsistent :
      (rate : PlaybackRate) (now_ms : ℤ) (s : Replay)
      → IsConsistent s
      → IsConsistent (on_tick dates rate now_ms s)
  unfolding on_tick
  on_tick-IsConsistent rate now_ms s i =
      where_some_ind IsConsistent (truthy? s.as_of_ref) _ _
        (record { mirrored = i.mirrored; placed = λ p. ground (arith, p) })
        λ c h. advance-IsConsistent rate now_ms (dates.get_time c) s i

  play-IsConsistent : (s : Replay) → IsConsistent s → IsConsistent (play s)
  unfolding play
  play-IsConsistent s i = where_some_ind IsConsistent (truthy? s.as_of_ref) _ s i λ c h. record {
    mirrored = i.mirrored;
    placed = λ p. ap (λ o. is_some (truthy? o)) (sym i.mirrored) ∙ ap is_some h;
  }

  step_forward-IsConsistent :
      (now_ms : ℤ) (s : Replay) → IsConsistent s → IsConsistent (step_forward dates now_ms s)
  unfolding step_forward
  step_forward-IsConsistent now_ms s i =
      where_some_ind IsConsistent (truthy? s.as_of_ref) _ s i λ c h. from (dates.get_time c)
    where
      from : (o : Option ℤ) → IsConsistent (forward_from dates now_ms o s)
      from none = i
      from (some t) = set_time-IsConsistent _ s i

  step_backward-IsConsistent :
      (now_ms : ℤ) (s : Replay) → IsConsistent s → IsConsistent (step_backward dates now_ms s)
  unfolding step_backward
  step_backward-IsConsistent now_ms s i =
      where_some_ind IsConsistent (truthy? s.as_of_ref) _ s i λ c h. from (dates.get_time c)
    where
      from : (o : Option ℤ) → IsConsistent (backward_from dates now_ms o s)
      from none = i
      from (some t) = elim (Bool-cases (leb_ℤ t (floor_ms now_ms))) [
        | inl h ↦ rw h i
        | inr h ↦ rw h (set_time-IsConsistent _ s i)
      ]

  step-IsConsistent : (e : Event) (s : Replay) → IsConsistent s → IsConsistent (step dates e s)
  unfolding pause set_playback_rate commit
  step-IsConsistent (picks v) s i = paused-IsConsistent v s
  step-IsConsistent plays s i = play-IsConsistent s i
  step-IsConsistent pauses s i = record { mirrored = i.mirrored; placed = λ p. ground (arith, p) }
  step-IsConsistent commits s i = record { mirrored = i.mirrored; placed = i.placed }
  step-IsConsistent (sets_rate rate) s i = record { mirrored = i.mirrored; placed = i.placed }
  step-IsConsistent (steps_forward now_ms) s i = step_forward-IsConsistent now_ms s i
  step-IsConsistent (steps_backward now_ms) s i = step_backward-IsConsistent now_ms s i
  step-IsConsistent (ticks now_ms) s i =
      where_some_ind IsConsistent s.interval _ s i λ rate h. on_tick-IsConsistent rate now_ms s i

  pub run-IsConsistent :
      (es : List Event) (s : Replay) → IsConsistent s → IsConsistent (run dates es s)
  run-IsConsistent [] s i = i
  run-IsConsistent (e ∷ es) s i = run-IsConsistent es (step dates e s) (step-IsConsistent e s i)

  -- Whatever is picked, played, stepped or ticked from the start, the ref that the interval reads has
  -- the position shown, and playback runs only where there is a position.
  pub run-initial-IsConsistent : (es : List Event) → IsConsistent (run dates es initial)
  run-initial-IsConsistent es =
      run-IsConsistent es initial (record { mirrored = refl; placed = λ p. ground (arith, p) })
