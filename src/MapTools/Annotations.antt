-- ===== src/MapTools/Annotations.antt =====
-- The ids of the annotations, and the points of a measurement.
use react_ai_healthycare.Base.{
  ℕ, ◌+◌, ◌≤◌, ◌<◌, ◌≡◌, ◌≢◌, refl, String, List, [], ◌∷◌, ◌++◌, not, if◌then◌else◌, length,
  length-append, arith, All, All-append, All-filter, sym, ◌∙◌, ◌==◌, string_eq, decimal-injective,
  append_cancel,
}
use react_ai_healthycare.MapTools.State.{MapAnnotation, RangeRingUnit, ToolState, Defaults, initial}
use react_ai_healthycare.MapTools.Handlers.{annotation_id, relabel, without}
use react_ai_healthycare.MapTools.Actions.{
  annotation, measurement, Action, clear, disable, toggle, place, label, remove, act, run,
}

annotation_id-injective : (a b : ℕ) → annotation_id a ≡ annotation_id b → a ≡ b
annotation_id-injective a b h = decimal-injective a b (append_cancel "annotation-" _ _ h)

-- The annotation was made by a counter value below `n`.
abbrev IsMadeBelow : ℕ → MapAnnotation → Type 0
IsMadeBelow n a = (k : ℕ) × (k < n) × (a.id ≡ annotation_id k)

abbrev HasOtherId : MapAnnotation → MapAnnotation → Type 0
HasOtherId a b = a.id ≢ b.id

abbrev pub HasDistinctIds : List MapAnnotation → Type 0
HasDistinctIds [] = Unit
HasDistinctIds (a ∷ ms) = All (HasOtherId a) ms × HasDistinctIds ms

HasOtherId-made :
    (n : ℕ) (ms : List MapAnnotation) (b : MapAnnotation)
    → b.id ≡ annotation_id n
    → All (IsMadeBelow n) ms
    → HasDistinctIds ms
    → HasDistinctIds (ms ++ b ∷ [])
HasOtherId-made n [] b e h d = (tt, tt)
HasOtherId-made n (a ∷ ms) b e ((k, below, made), hs) (ne, d) = (
  All-append (HasOtherId a) ms (b ∷ []) ne
      ((λ same. absurd (omega (arith, annotation_id-injective k n (cc)))), tt),
  HasOtherId-made n ms b e hs d,
)

-- Of predicates that read the id alone.
module _ (P : MapAnnotation → Type 0) (i l : String)
    (by_id : (a b : MapAnnotation) → a.id ≡ b.id → P a → P b) where
  All-relabel : (ms : List MapAnnotation) → All P ms → All P (relabel i l ms)
  All-relabel [] h = tt
  All-relabel (a ∷ ms) h = (
    by_id a (if a.id == i then record a { label = l } else a) (ground arith) h.0,
    All-relabel ms h.1,
  )

relabel-HasDistinctIds :
    (i l : String) (ms : List MapAnnotation) → HasDistinctIds ms → HasDistinctIds (relabel i l ms)
relabel-HasDistinctIds i l [] d = tt
relabel-HasDistinctIds i l (a ∷ ms) (ne, d) = (
  All-relabel (HasOtherId (if a.id == i then record a { label = l } else a)) i l
      (λ b c e h. λ same. h (cc)) ms (other ms ne),
  relabel-HasDistinctIds i l ms d,
)
  where
    same_id : (if a.id == i then record a { label = l } else a).id ≡ a.id
    same_id = ground arith

    other :
        (bs : List MapAnnotation)
        → All (HasOtherId a) bs
        → All (HasOtherId (if a.id == i then record a { label = l } else a)) bs
    other [] h = tt
    other (b ∷ bs) h = ((λ e. h.0 (cc (same_id))), other bs h.1)

without-HasDistinctIds :
    (i : String) (ms : List MapAnnotation) → HasDistinctIds ms → HasDistinctIds (without i ms)
without-HasDistinctIds i [] d = tt
without-HasDistinctIds i (a ∷ ms) (ne, d) =
    ground
      (arith, without-HasDistinctIds i ms d, All-filter (HasOtherId a) (λ b. not (b.id == i)) ms ne)

IsMadeBelow-suc :
    (n : ℕ) (ms : List MapAnnotation) → All (IsMadeBelow n) ms → All (IsMadeBelow (n + 1)) ms
IsMadeBelow-suc n [] h = tt
IsMadeBelow-suc n (a ∷ ms) ((k, below, made), hs) =
    ((k, omega arith, made), IsMadeBelow-suc n ms hs)

pub record Inv (s : ToolState) : Type 0 where
  pub made : All (IsMadeBelow s.next_annotation_id) s.annotations
  pub distinct : HasDistinctIds s.annotations
  pub pair : length s.measurement_points ≤ 2

module _ (convert : String → RangeRingUnit → RangeRingUnit → String) where
  act-Inv : (s : ToolState) (a : Action) → Inv s → Inv (act convert s a)
  unfolding act
  act-Inv s (clear annotation) v = record { made = tt; distinct = tt; pair = v.pair }
  act-Inv s (clear measurement) v = record {
    made = v.made;
    distinct = v.distinct;
    pair = omega arith;
  }
  act-Inv s (clear t) v = ground arith
  act-Inv s (disable t) v = ground arith
  act-Inv s (toggle t) v = ground arith
  act-Inv s (place annotation p) v = record {
    made =
        All-append (IsMadeBelow (s.next_annotation_id + 1)) s.annotations _
          (IsMadeBelow-suc _ s.annotations v.made) ((s.next_annotation_id, omega arith, refl), tt);
    distinct = HasOtherId-made _ s.annotations _ refl v.made v.distinct;
    pair = v.pair;
  }
  act-Inv s (place measurement p) v = record {
    made = v.made;
    distinct = v.distinct;
    pair = ground (arith, length-append s.measurement_points (p ∷ []));
  }
  act-Inv s (label i l) v = record {
    made =
        All-relabel (IsMadeBelow s.next_annotation_id) i l (λ a b e h. (h.0, h.1, sym e ∙ h.2))
          s.annotations v.made;
    distinct = relabel-HasDistinctIds i l s.annotations v.distinct;
    pair = v.pair;
  }
  act-Inv s (remove i) v = record {
    made = All-filter _ (λ a. not (a.id == i)) s.annotations v.made;
    distinct = without-HasDistinctIds i s.annotations v.distinct;
    pair = v.pair;
  }
  act-Inv s a v = record { made = v.made; distinct = v.distinct; pair = v.pair }

  run-Inv : (s : ToolState) (actions : List Action) → Inv s → Inv (run convert s actions)
  unfolding run
  run-Inv s [] v = v
  run-Inv s (a ∷ actions) v = run-Inv (act convert s a) actions (act-Inv s a v)

  -- After any session no two annotations share an id, so that a label or a removal reaches one
  -- annotation at most, and a measurement has at most two points.
  pub run-initial-distinct :
      (d : Defaults) (actions : List Action)
      → HasDistinctIds (run convert (initial d) actions).annotations
        × (length (run convert (initial d) actions).measurement_points ≤ 2)
  run-initial-distinct d actions =
      let v =
        run-Inv (initial d) actions (record { made = tt; distinct = tt; pair = omega arith }) in
      (v.distinct, v.pair)
