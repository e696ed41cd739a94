-- ===== src/LiveSignals/Bounds.antt =====
-- Merging keeps each type within its limit.
use react_ai_healthycare.Base.{
  zero, none, some, length-take, take, take-append-drop, inl, length-filter, inr, drop, Elem, ◌≤◌,
  suc, ◌∙◌, ◌+◌, ℕ, sort_by, insert_sorted, ap, sym, ◌++◌, true, length, ==_refl, ◌≡◌, refl, String,
  List, [], ◌∷◌, Option, Bool, not, ◌&&◌, insert, erase, values, filter, string_eq, ◌==◌, ==_iff,
  arith,
}
use react_ai_healthycare.Base.Int.{ℤ}
use react_ai_healthycare.LiveSignals.{
  newer_first, surplus, prune_signal_map_by_type, live_signal_types, prune_types, prune_to,
  sort_signals_newest_first, merge_signals, is_type, delete_all, SignalType, SignalMap, set_all,
}
use react_ai_healthycare.Api.Records.{Signal}

-- Every signal stands under its own id.
abbrev pub IsKeyed : SignalMap → Type 0
IsKeyed [] = Unit
IsKeyed ((k, s) ∷ m) = (k ≡ s.id) × IsKeyed m

pub insert-IsKeyed : (s : Signal) (m : SignalMap) → IsKeyed m → IsKeyed (insert s.id s m)
insert-IsKeyed s [] h = (refl, tt)
insert-IsKeyed s ((k, t) ∷ m) (e, h) = ground (arith, ==_iff k s.id, insert-IsKeyed s m h)

pub erase-IsKeyed : (i : String) (m : SignalMap) → IsKeyed m → IsKeyed (erase i m)
erase-IsKeyed i [] h = tt
erase-IsKeyed i ((k, t) ∷ m) (e, h) = ground (arith, erase-IsKeyed i m h)

pub set_all-IsKeyed : (ss : List Signal) (m : SignalMap) → IsKeyed m → IsKeyed (set_all ss m)
set_all-IsKeyed [] m h = h
set_all-IsKeyed (s ∷ ss) m h = set_all-IsKeyed ss (insert s.id s m) (insert-IsKeyed s m h)

pub delete_all-IsKeyed : (ss : List Signal) (m : SignalMap) → IsKeyed m → IsKeyed (delete_all ss m)
delete_all-IsKeyed [] m h = h
delete_all-IsKeyed (s ∷ ss) m h = delete_all-IsKeyed ss (erase s.id m) (erase-IsKeyed s.id m h)

-- The signal is none of the list, by its id.
abbrev pub not_among : List Signal → Signal → Bool
not_among [] s = true
not_among (x ∷ xs) s = not (s.id == x.id) && not_among xs s

module _ {ℓ} {A : Type ℓ} where
  filter-filter :
      (p q : A → Bool) (xs : List A) → filter p (filter q xs) ≡ filter (λ x. q x && p x) xs
  filter-filter p q [] = refl
  filter-filter p q (x ∷ xs) = ground (arith, filter-filter p q xs)

  filter_comm : (p q : A → Bool) (xs : List A) → filter p (filter q xs) ≡ filter q (filter p xs)
  filter_comm p q [] = refl
  filter_comm p q (x ∷ xs) = ground (arith, filter_comm p q xs)

  filter-true : (xs : List A) → filter (λ x. true) xs ≡ xs
  filter-true [] = refl
  filter-true (x ∷ xs) = ap (x ∷◌) (filter-true xs)

  length-filter-append :
      (p : A → Bool) (xs ys : List A)
      → length (filter p (xs ++ ys)) ≡ length (filter p xs) + length (filter p ys)
  length-filter-append p [] ys = omega arith
  length-filter-append p (x ∷ xs) ys = ground (arith, length-filter-append p xs ys)

  length-filter-insert :
      (p : A → Bool) (before : A → A → Bool) (a : A) (xs : List A)
      → length (filter p (insert_sorted before a xs)) ≡ length (filter p (a ∷ xs))
  length-filter-insert p before a [] = refl
  length-filter-insert p before a (x ∷ xs) = ground (arith, length-filter-insert p before a xs)

  length-filter-sort_by :
      (p : A → Bool) (before : A → A → Bool) (xs : List A)
      → length (filter p (sort_by before xs)) ≡ length (filter p xs)
  length-filter-sort_by p before [] = refl
  length-filter-sort_by p before (x ∷ xs) = ground (
    arith,
    length-filter-insert p before x (sort_by before xs),
    length-filter-sort_by p before xs,
  )

values-erase :
    (i : String) (m : SignalMap)
    → IsKeyed m
    → values (erase i m) ≡ filter (λ s. not (s.id == i)) (values m)
values-erase i [] h = refl
values-erase i ((k, s) ∷ m) (e, h) = rw e (ground (arith, values-erase i m h))

pub values-delete_all :
    (ss : List Signal) (m : SignalMap)
    → IsKeyed m
    → values (delete_all ss m) ≡ filter (not_among ss) (values m)
values-delete_all [] m h = sym (filter-true (values m))
values-delete_all (s ∷ ss) m h =
    values-delete_all ss (erase s.id m) (erase-IsKeyed s.id m h)
    ∙ ap (filter (not_among ss)) (values-erase s.id m h)
    ∙ filter-filter (not_among ss) (λ x. not (x.id == s.id)) (values m)

-- None of a list is outside it.
filter-not_among_more :
    (x : Signal) (ss ts : List Signal)
    → filter (not_among ss) ts ≡ []
    → filter (not_among (x ∷ ss)) ts ≡ []
filter-not_among_more x ss [] h = refl
filter-not_among_more x ss (t ∷ ts) h = ground (arith, filter-not_among_more x ss ts)

filter-not_among_self : (ss : List Signal) → filter (not_among ss) ss ≡ []
filter-not_among_self [] = refl
filter-not_among_self (s ∷ ss) =
    ground (arith, ==_refl s.id, filter-not_among_more s ss ss (filter-not_among_self ss))

abbrev pub of_type : SignalType → List Signal → List Signal
of_type t = filter (λ s. is_type t s.signal_type)

module _ (pd : String → Option ℤ) where
  pub prune_to-IsKeyed :
      (o : Option ℕ) (t : SignalType) (m : SignalMap) → IsKeyed m → IsKeyed (prune_to pd o t m)
  prune_to-IsKeyed none t m h = h
  prune_to-IsKeyed (some zero) t m h = h
  prune_to-IsKeyed (some (suc l)) t m h = delete_all-IsKeyed (surplus pd t (suc l) m) m h

  -- Deleting never adds to a type.
  prune_to_shrinks :
      (o : Option ℕ) (t u : SignalType) (m : SignalMap)
      → IsKeyed m
      → length (of_type u (values (prune_to pd o t m))) ≤ length (of_type u (values m))
  prune_to_shrinks none t u m h = omega arith
  prune_to_shrinks (some zero) t u m h = omega arith
  prune_to_shrinks (some (suc l)) t u m h =
      let s = surplus pd t (suc l) m in
      rw
        (
          values-delete_all s m h,
          filter_comm (λ x. is_type u x.signal_type) (not_among s) (values m),
        )
        (length-filter (not_among s) (of_type u (values m)))

  prune_to_bound :
      (t : SignalType) (l : ℕ) (m : SignalMap)
      → IsKeyed m
      → length (of_type t (values (prune_to pd (some (suc l)) t m))) ≤ suc l
  unfolding sort_signals_newest_first
  prune_to_bound t l m h =
      let sorted = sort_signals_newest_first pd (of_type t (values m)) in
      let old = drop (suc l) sorted in
      let q = not_among old in
      rw
        (
          values-delete_all old m h,
          filter_comm (λ x. is_type t x.signal_type) q (values m),
          ← length-filter-sort_by q (newer_first pd) (of_type t (values m)),
        )
        (omega (
          arith,
          ap (λ xs. length (filter q xs)) (take-append-drop (suc l) sorted),
          length-filter-append q (take (suc l) sorted) old,
          ap length (filter-not_among_self old),
          length-filter q (take (suc l) sorted),
          length-take (suc l) sorted,
        ))

  module _ (limits : SignalType → Option ℕ) where
    prune_types_shrinks :
        (ts : List SignalType) (u : SignalType) (m : SignalMap)
        → IsKeyed m
        → length (of_type u (values (prune_types pd limits ts m))) ≤ length (of_type u (values m))
    prune_types_shrinks [] u m h = omega arith
    prune_types_shrinks (t ∷ ts) u m h = omega (
      arith,
      prune_types_shrinks ts u (prune_to pd (limits t) t m) (prune_to-IsKeyed (limits t) t m h),
      prune_to_shrinks (limits t) t u m h,
    )

    prune_types_bound :
        (ts : List SignalType) (t : SignalType) (l : ℕ) (m : SignalMap)
        → Elem t ts
        → limits t ≡ some (suc l)
        → IsKeyed m
        → length (of_type t (values (prune_types pd limits ts m))) ≤ suc l
    prune_types_bound [] t l m i e h = elim i [ ]
    prune_types_bound (u ∷ ts) t l m (inr i) e h =
        prune_types_bound ts t l (prune_to pd (limits u) u m) i e
          (prune_to-IsKeyed (limits u) u m h)
    prune_types_bound (u ∷ ts) t l m (inl same) e h =
        rw (same, e)
          (omega (
            arith,
            prune_types_shrinks ts t (prune_to pd (some (suc l)) t m)
                (prune_to-IsKeyed (some (suc l)) t m h),
            prune_to_bound t l m h,
          ))

pub every_type : (t : SignalType) → Elem t live_signal_types
every_type t = ground arith

prune_types-IsKeyed :
    (pd : String → Option ℤ) (limits : SignalType → Option ℕ) (ts : List SignalType) (m : SignalMap)
    → IsKeyed m
    → IsKeyed (prune_types pd limits ts m)
prune_types-IsKeyed pd limits [] m h = h
prune_types-IsKeyed pd limits (t ∷ ts) m h =
    prune_types-IsKeyed pd limits ts (prune_to pd (limits t) t m)
      (prune_to-IsKeyed pd (limits t) t m h)

pub merge_signals-IsKeyed :
    (parse_date : String → Option ℤ) (limits : SignalType → Option ℕ) (previous : SignalMap)
    (incoming : List Signal)
    → IsKeyed previous
    → IsKeyed (merge_signals parse_date previous incoming limits)
unfolding merge_signals prune_signal_map_by_type
merge_signals-IsKeyed pd limits previous incoming h =
    prune_types-IsKeyed pd limits live_signal_types (set_all incoming previous)
      (set_all-IsKeyed incoming previous h)

-- However many signals come in, of each type whose limit is at least 1 no more than the limit are
-- kept, if every signal stood under its own id before.
pub merge_signals_bound :
    (parse_date : String → Option ℤ) (limits : SignalType → Option ℕ) (previous : SignalMap)
    (incoming : List Signal) (t : SignalType) (l : ℕ)
    → IsKeyed previous
    → limits t ≡ some (suc l)
    → length (of_type t (values (merge_signals parse_date previous incoming limits))) ≤ suc l
unfolding merge_signals prune_signal_map_by_type
merge_signals_bound pd limits previous incoming t l h e =
    prune_types_bound pd limits live_signal_types t l (set_all incoming previous) (every_type t) e
      (set_all-IsKeyed incoming previous h)
