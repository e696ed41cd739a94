-- ===== src/LiveSignals/Newest.antt =====
-- What merging drops is not newer than what it keeps.
use mathlib.Core.Path.{subst}
use react_ai_healthycare.Base.{
  Elem-filter, Elem-append, Elem-sort_by, sorted-append, ℕ, zero, suc, String, List, [], ◌∷◌,
  Option, none, some, true, false, ◌≡◌, ◌↔◌, ◌⊎◌, inl, inr, refl, sym, ap, ◌∙◌, arith,
  if◌then◌else◌, ◌or◌, Elem, take, take-append-drop, sort_by-IsSorted, Bool-cases, lookup, insert,
  erase, values, lookup-erase, string_eq, ◌==◌, ==_iff, ==_refl, HasDistinctKeys,
  insert-HasDistinctKeys,
}
use react_ai_healthycare.Base.Int.{ℤ}
use react_ai_healthycare.Api.Enums.{
  SignalType, aircraft_position, vessel_position, seismic_event, gps_jamming, wildfire, ais_gap,
  conflict_event, disaster_alert,
}
use react_ai_healthycare.Api.Records.{Signal}
use react_ai_healthycare.LiveSignals.{
  newer_first, surplus, prune_signal_map_by_type, live_signal_types, prune_types, prune_to,
  sort_signals_newest_first, merge_signals, is_type, delete_all, SignalMap, set_all,
}
use react_ai_healthycare.LiveSignals.Bounds.{
  IsKeyed, not_among, values-delete_all, of_type, prune_to-IsKeyed, set_all-IsKeyed,
}

erase-HasDistinctKeys :
    (k : String) (m : SignalMap) → HasDistinctKeys m → HasDistinctKeys (erase k m)
erase-HasDistinctKeys k [] h = tt
erase-HasDistinctKeys k ((j, w) ∷ m) (e, h) =
    ground (arith, lookup-erase k j m, erase-HasDistinctKeys k m h)

delete_all-HasDistinctKeys :
    (ss : List Signal) (m : SignalMap) → HasDistinctKeys m → HasDistinctKeys (delete_all ss m)
delete_all-HasDistinctKeys [] m h = h
delete_all-HasDistinctKeys (s ∷ ss) m h =
    delete_all-HasDistinctKeys ss (erase s.id m) (erase-HasDistinctKeys s.id m h)

set_all-HasDistinctKeys :
    (ss : List Signal) (m : SignalMap) → HasDistinctKeys m → HasDistinctKeys (set_all ss m)
set_all-HasDistinctKeys [] m h = h
set_all-HasDistinctKeys (s ∷ ss) m h =
    set_all-HasDistinctKeys ss (insert s.id s m) (insert-HasDistinctKeys s.id s m h)

lookup_value :
    (x : Signal) (m : SignalMap)
    → IsKeyed m
    → HasDistinctKeys m
    → Elem x (values m)
    → lookup x.id m ≡ some x
lookup_value x [] i h e = elim e [ ]
lookup_value x ((k, s) ∷ m) (q, i) (n, h) (inl same) =
    ap (λ b. if b then some s else lookup x.id m)
      ((==_iff k x.id).1 (q ∙ ap (λ (y : Signal). y.id) same))
    ∙ ap some same
lookup_value x ((k, s) ∷ m) (q, i) (n, h) (inr e) =
    ground (arith, lookup_value x m i h e, n, ==_iff k x.id)

-- Of two signals of a map with one id there is one.
one_signal :
    (x y : Signal) (m : SignalMap)
    → IsKeyed m
    → HasDistinctKeys m
    → Elem x (values m)
    → Elem y (values m)
    → x.id ≡ y.id
    → x ≡ y
one_signal x y m i h e f q =
    ap (λ o. o or x)
      (sym (lookup_value x m i h e) ∙ (ap (λ k. lookup k m) q ∙ lookup_value y m i h f))

among-Elem :
    (s : Signal) (xs : List Signal)
    → not_among xs s ≡ false
    → (x : Signal) × Elem x xs × (s.id ≡ x.id)
among-Elem s [] h = ground (arith, h)
among-Elem s (x ∷ xs) h = elim (Bool-cases (s.id == x.id)) [
  | inl q ↦ (x, inl refl, (==_iff s.id x.id).0 q)
  | inr q ↦ let (y, e, f) = among-Elem s xs (ground (arith, h, q)) in (y, inr e, f)
]

Elem-among : (s : Signal) (xs : List Signal) → Elem s xs → not_among xs s ≡ false
Elem-among s [] e = elim e [ ]
Elem-among s (x ∷ xs) (inl q) = rw q (ground (arith, ==_refl s.id))
Elem-among s (x ∷ xs) (inr e) = ground (arith, Elem-among s xs e)

module _ (parse_date : String → Option ℤ) where
  newer_first_total :
      (a b : Signal) → newer_first parse_date a b ≡ false → newer_first parse_date b a ≡ true
  newer_first_total a b h = ground (arith, h)

  newer_first_trans :
      (a b c : Signal)
      → newer_first parse_date a b ≡ true
      → newer_first parse_date b c ≡ true
      → newer_first parse_date a c ≡ true
  newer_first_trans a b c h k = ground (arith, h, k)

  -- `d` is kept from one map to the next, or no kept signal of its type is older.
  abbrev IsKeptOrOld : SignalMap → Signal → Type 0
  IsKeptOrOld m d =
      Elem d (values m)
      ⊎ ((k : Signal)
          → Elem k (values m)
          → is_type d.signal_type k.signal_type ≡ true
          → newer_first parse_date k d ≡ true)

  is_type_eq : (t u : SignalType) → is_type t u ≡ true → t ≡ u
  is_type_eq aircraft_position u h = ground (arith, h)
  is_type_eq vessel_position u h = ground (arith, h)
  is_type_eq seismic_event u h = ground (arith, h)
  is_type_eq gps_jamming u h = ground (arith, h)
  is_type_eq wildfire u h = ground (arith, h)
  is_type_eq ais_gap u h = ground (arith, h)
  is_type_eq SignalType.manual u h = ground (arith, h)
  is_type_eq conflict_event u h = ground (arith, h)
  is_type_eq disaster_alert u h = ground (arith, h)

  module _ (t : SignalType) (l : ℕ) (m : SignalMap) (i : IsKeyed m) (h : HasDistinctKeys m) where
    abbrev sorted : List Signal
    sorted = sort_signals_newest_first parse_date (of_type t (values m))

    abbrev old : List Signal
    old = surplus parse_date t (suc l) m

    sorted-Elem :
        (s : Signal) → Elem s sorted ↔ (Elem s (values m) × (is_type t s.signal_type ≡ true))
    unfolding sort_signals_newest_first
    sorted-Elem s = ground (
      arith,
      Elem-sort_by (newer_first parse_date) s (of_type t (values m)),
      Elem-filter (λ (x : Signal). is_type t x.signal_type) s (values m),
    )

    split-Elem : (s : Signal) → Elem s sorted ↔ (Elem s (take (suc l) sorted) ⊎ Elem s old)
    split-Elem s =
        subst (λ xs. Elem s xs ↔ (Elem s (take (suc l) sorted) ⊎ Elem s old))
          (take-append-drop (suc l) sorted) (Elem-append s (take (suc l) sorted) old)

    kept-Elem :
        (s : Signal)
        → Elem s (values (delete_all old m)) ↔ (Elem s (values m) × (not_among old s ≡ true))
    kept-Elem s = rw (values-delete_all old m i) (Elem-filter (not_among old) s (values m))

    old_first :
        (k d : Signal)
        → Elem k (take (suc l) sorted)
        → Elem d old
        → newer_first parse_date k d ≡ true
    unfolding sort_signals_newest_first
    old_first k d e f =
        sorted-append (newer_first parse_date) (take (suc l) sorted) old k d
          (rw (take-append-drop (suc l) sorted) (
            sort_by-IsSorted (newer_first parse_date) newer_first_total newer_first_trans
              (of_type t (values m))))
          e f

    -- One round of the loop.
    round_lem : (d : Signal) → Elem d (values m) → IsKeptOrOld (delete_all old m) d
    round_lem d e = elim (Bool-cases (not_among old d)) [
      | inl q ↦ inl ((kept-Elem d).1 (e, q))
      | inr q ↦ inr λ k f same.
          let (x, o, ids) = among-Elem d old q in
          let listed = (sorted-Elem x).0 ((split-Elem x).1 (inr o)) in
          let this : d ≡ x = one_signal d x m i h e listed.0 ids in
          let d_old : Elem d old = subst (λ y. Elem y old) (sym this) o in
          let typed : is_type t d.signal_type ≡ true =
            subst (λ (y : Signal). is_type t y.signal_type ≡ true) (sym this) listed.1 in
          let k_typed : is_type t k.signal_type ≡ true =
            subst (λ u. is_type u k.signal_type ≡ true) (sym (is_type_eq t d.signal_type typed))
              same in
          let kept = (kept-Elem k).0 f in
          elim ((split-Elem k).0 ((sorted-Elem k).1 (kept.0, k_typed))) [
            | inl front ↦ old_first k d front d_old
            | inr back ↦ absurd (ground (arith, Elem-among k old back, kept.1))
          ]
    ]

  module _ (o : Option ℕ) (t : SignalType) (m : SignalMap) where
    prune_to-HasDistinctKeys : HasDistinctKeys m → HasDistinctKeys (prune_to parse_date o t m)
    prune_to-HasDistinctKeys h = by_limit o
      where
        by_limit : (p : Option ℕ) → HasDistinctKeys (prune_to parse_date p t m)
        by_limit none = h
        by_limit (some zero) = h
        by_limit (some (suc l)) = delete_all-HasDistinctKeys (surplus parse_date t (suc l) m) m h

    prune_to_lem :
        (d : Signal)
        → IsKeyed m
        → HasDistinctKeys m
        → Elem d (values m)
        → IsKeptOrOld (prune_to parse_date o t m) d
    prune_to_lem d i h e = by_limit o
      where
        by_limit : (p : Option ℕ) → IsKeptOrOld (prune_to parse_date p t m) d
        by_limit none = inl e
        by_limit (some zero) = inl e
        by_limit (some (suc l)) = round_lem t l m i h d e

    prune_to_subset :
        (k : Signal) → IsKeyed m → Elem k (values (prune_to parse_date o t m)) → Elem k (values m)
    prune_to_subset k i = by_limit o
      where
        by_limit : (p : Option ℕ) → Elem k (values (prune_to parse_date p t m)) → Elem k (values m)
        by_limit none e = e
        by_limit (some zero) e = e
        by_limit (some (suc l)) e =
            ((Elem-filter (not_among (surplus parse_date t (suc l) m)) k (values m)).0
              (rw (← values-delete_all (surplus parse_date t (suc l) m) m i) e)).0

  module _ (limits : SignalType → Option ℕ) where
    prune_types_subset :
        (ts : List SignalType) (m : SignalMap) (k : Signal)
        → IsKeyed m
        → Elem k (values (prune_types parse_date limits ts m))
        → Elem k (values m)
    prune_types_subset [] m k i e = e
    prune_types_subset (t ∷ ts) m k i e = prune_to_subset (limits t) t m k i (
        prune_types_subset ts (prune_to parse_date (limits t) t m) k
          (prune_to-IsKeyed parse_date (limits t) t m i) e)

    prune_types_lem :
        (ts : List SignalType) (m : SignalMap) (d : Signal)
        → IsKeyed m
        → HasDistinctKeys m
        → Elem d (values m)
        → IsKeptOrOld (prune_types parse_date limits ts m) d
    prune_types_lem [] m d i h e = inl e
    prune_types_lem (t ∷ ts) m d i h e =
        let next = prune_to parse_date (limits t) t m in
        let keyed = prune_to-IsKeyed parse_date (limits t) t m i in
        elim (prune_to_lem (limits t) t m d i h e) [
          | inl kept ↦
              prune_types_lem ts next d keyed (prune_to-HasDistinctKeys (limits t) t m h) kept
          | inr dropped ↦ inr λ k f same. dropped k (prune_types_subset ts next k keyed f) same
        ]

    -- If each signal stood under its own id once before, then a signal of the merged map either is kept,
    -- or each signal of its type that is kept is at least as new.
    pub merge_signals_newest :
        (previous : SignalMap) (incoming : List Signal) (d : Signal)
        → IsKeyed previous
        → HasDistinctKeys previous
        → Elem d (values (set_all incoming previous))
        → Elem d (values (merge_signals parse_date previous incoming limits))
          ⊎ ((k : Signal)
              → Elem k (values (merge_signals parse_date previous incoming limits))
              → is_type d.signal_type k.signal_type ≡ true
              → newer_first parse_date k d ≡ true)
    unfolding merge_signals prune_signal_map_by_type
    merge_signals_newest previous incoming d i h e =
        prune_types_lem live_signal_types (set_all incoming previous) d
          (set_all-IsKeyed incoming previous i) (set_all-HasDistinctKeys incoming previous h) e
