-- ===== src/Replay/Guard.antt =====
-- frontend/src/hooks/useReplayGuardedMutation.ts and useReplayParams.ts: what depends on the clock.
use react_ai_healthycare.Base.{
  String, List, [], ◌∷◌, Option, none, some, Bool, true, false, ◌≡◌, refl, inl, inr, ◌⊎◌, ◌∙◌,
  truthy?, is_some, if◌then◌else◌, Bool-cases, All, arith,
}
use react_ai_healthycare.Base.Int.{ℤ, pos, ◌+ℤ◌, leb_ℤ}
use react_ai_healthycare.Replay.{
  Replay, PlaybackRate, Dates, Event, picks, plays, pauses, commits, sets_rate, steps_forward,
  steps_backward, ticks, initial, set_as_of, play, pause, set_playback_rate, commit, move_to,
  set_time, advance, advance_ms, on_tick, step_forward, step_backward, step, run, forward_from,
  backward_from, floor_ms,
}
use react_ai_healthycare.Replay.Laws.{
  IsConsistent, where_some_ind, to_iso-truthy, run-initial-IsConsistent,
}

abbrev pub is_replaying : Replay → Bool
is_replaying s = is_some s.as_of

-- What the mutation's promise settles with: its error, or what `mutationFn` gives.
pub data Settled (A : Type 0) : Type 0 where
  rejected : (message : String) → Settled A
  called : A → Settled A

unfoldable pub guarded_mutation :
    {V A : Type 0} → (mutation_fn : V → Settled A) → Replay → V → Settled A
guarded_mutation mutation_fn s variables =
    if is_replaying s then rejected "Mutations are blocked during replay" else mutation_fn variables

-- `{ as_of }` or `{}`, and `{ to, as_of }` or `{}`
pub record SignalQueryParams : Type 0 where
  pub to : Option String
  pub as_of : Option String

abbrev pub as_of_param : Replay → Option String
as_of_param s = truthy? s.as_of

unfoldable pub signal_query_params : Replay → SignalQueryParams
signal_query_params s = record { to = truthy? s.as_of; as_of = truthy? s.as_of }

-- A position that is picked is null or a text that is not empty.
abbrev pub IsNamed : Event → Type 0
IsNamed (picks v) = truthy? v ≡ v
IsNamed _ = Unit

-- The position is null or a text that is not empty.
abbrev IsShown : Replay → Type 0
IsShown s = truthy? s.as_of ≡ s.as_of

module _ (dates : Dates) where
  moved-IsShown :
      (t : ℤ) (o : Option String) (s : Replay)
      → dates.to_iso t ≡ o
      → IsShown s
      → IsShown (move_to dates o s) × IsShown (set_time dates o s)
  moved-IsShown t none s h i = (i, i)
  moved-IsShown t (some next) s h i = (to_iso-truthy dates t next h, to_iso-truthy dates t next h)

  advance-IsShown :
      (rate : PlaybackRate) (now_ms : ℤ) (o : Option ℤ) (s : Replay)
      → IsShown s
      → IsShown (advance dates rate now_ms o s)
  advance-IsShown rate now_ms none s i = i
  advance-IsShown rate now_ms (some t) s i =
      elim (Bool-cases (leb_ℤ now_ms (t +ℤ pos (advance_ms rate)))) [
        | inl h ↦ rw h refl
        | inr h ↦ rw h (moved-IsShown (t +ℤ pos (advance_ms rate)) _ s refl i).0
      ]

  forward_from-IsShown :
      (now_ms : ℤ) (o : Option ℤ) (s : Replay) → IsShown s → IsShown (forward_from dates now_ms o s)
  forward_from-IsShown now_ms none s i = i
  forward_from-IsShown now_ms (some t) s i = (moved-IsShown _ _ s refl i).1

  backward_from-IsShown :
      (now_ms : ℤ) (o : Option ℤ) (s : Replay)
      → IsShown s
      → IsShown (backward_from dates now_ms o s)
  backward_from-IsShown now_ms none s i = i
  backward_from-IsShown now_ms (some t) s i = elim (Bool-cases (leb_ℤ t (floor_ms now_ms))) [
    | inl h ↦ rw h i
    | inr h ↦ rw h (moved-IsShown _ _ s refl i).1
  ]

  step-IsShown : (e : Event) (s : Replay) → IsNamed e → IsShown s → IsShown (step dates e s)
  unfolding set_as_of play pause set_playback_rate commit step_forward step_backward on_tick
  step-IsShown (picks v) s n i = n
  step-IsShown plays s n i = where_some_ind IsShown (truthy? s.as_of_ref) _ s i λ c h. i
  step-IsShown pauses s n i = i
  step-IsShown commits s n i = i
  step-IsShown (sets_rate rate) s n i = i
  step-IsShown (steps_forward now_ms) s n i =
      where_some_ind IsShown (truthy? s.as_of_ref) _ s i
        λ c h. forward_from-IsShown now_ms (dates.get_time c) s i
  step-IsShown (steps_backward now_ms) s n i =
      where_some_ind IsShown (truthy? s.as_of_ref) _ s i
        λ c h. backward_from-IsShown now_ms (dates.get_time c) s i
  step-IsShown (ticks now_ms) s n i = where_some_ind IsShown s.interval _ s i λ rate h.
      where_some_ind IsShown (truthy? s.as_of_ref) _ _ i
        λ c k. advance-IsShown rate now_ms (dates.get_time c) s i

  run-IsShown :
      (es : List Event) (s : Replay) → All IsNamed es → IsShown s → IsShown (run dates es s)
  run-IsShown [] s n i = i
  run-IsShown (e ∷ es) s n i = run-IsShown es (step dates e s) n.1 (step-IsShown e s n.0 i)

-- All reads are of the past and mutations blocked, or all reads are live and mutations go through.
abbrev pub IsGuarded : {V A : Type 0} → (V → Settled A) → V → Replay → Type 0
IsGuarded mutation_fn variables s =
    ((t : String) × (as_of_param s ≡ some t)
      × (signal_query_params s ≡ record { to = some t; as_of = some t })
      × (guarded_mutation mutation_fn s variables ≡ rejected "Mutations are blocked during replay"))
    ⊎ ((s.is_playing ≡ false)
        × (as_of_param s ≡ none)
        × (signal_query_params s ≡ record { to = none; as_of = none })
        × (guarded_mutation mutation_fn s variables ≡ mutation_fn variables))

not-playing :
    (playing : Bool) (o : Option String)
    → (playing ≡ true → is_some o ≡ true)
    → o ≡ none
    → playing ≡ false
not-playing true o placed e = ground (arith, placed refl, e)
not-playing false o placed e = refl

shown-IsGuarded :
    {V A : Type 0} (mutation_fn : V → Settled A) (variables : V) (s : Replay) (o : Option String)
    → s.as_of ≡ o
    → IsShown s
    → IsConsistent s
    → IsGuarded mutation_fn variables s
unfolding guarded_mutation signal_query_params
shown-IsGuarded mutation_fn variables s none e i c =
    let none_shown = i ∙ e in
    inr (
      not-playing s.is_playing (truthy? s.as_of) c.placed none_shown,
      none_shown,
      rw none_shown refl,
      rw e refl,
    )
shown-IsGuarded mutation_fn variables s (some t) e i c =
    let t_shown = i ∙ e in inl (t, t_shown, rw t_shown refl, rw e refl)

-- After any session with the controls in which no empty text is picked, paused or playing, either all
-- queries read at the same position and each mutation is rejected without a call, or nothing plays,
-- the queries read the present and each mutation is called.
pub run-IsGuarded :
    (dates : Dates) (es : List Event) {V A : Type 0} (mutation_fn : V → Settled A) (variables : V)
    → All IsNamed es
    → IsGuarded mutation_fn variables (run dates es initial)
run-IsGuarded dates es mutation_fn variables n =
    let s = run dates es initial in
    shown-IsGuarded mutation_fn variables s s.as_of refl (run-IsShown dates es initial n refl)
      (run-initial-IsConsistent dates es)
