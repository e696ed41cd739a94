-- ===== src/Snapshots/Empty.antt =====
-- When there is no difference.

use react_ai_healthycare.Base.{
  String, List, [], ◌∷◌, Option, none, some, Bool, true, false, Map, lookup, string_eq, ◌or◌, Elem,
  ◌≡◌, ◌↔◌, inl, inr, refl, arith, Bool-cases,
}
use react_ai_healthycare.Api.Json.{Json}
use react_ai_healthycare.Snapshots.{
  DiffAdded, DiffRemoved, DiffChanged, SnapshotDiff, is_equal, diff_snapshots, is_diff_empty,
  has_none,
}
use react_ai_healthycare.Snapshots.Laws.{Reports, diff_snapshots-Reports}

empty_lem : {A : Type 0} (x : A) (xs : List A) → has_none xs ≡ true → Elem x xs → ⊥
empty_lem x [] h e = e
empty_lem x (y ∷ xs) h e = ground (arith, h)

module _ (stringify : Json → String) where
  abbrev pub agree : Option Json → Option Json → Bool
  agree none none = true
  agree (some v) (some w) = is_equal stringify v w
  agree none (some w) = false
  agree (some v) none = false

  agree_all :
      (k : String) (o p : Option Json) (b a : Map String Json) (d : SnapshotDiff)
      → lookup k b ≡ o
      → lookup k a ≡ p
      → Reports stringify b a d
      → is_diff_empty d ≡ true
      → agree o p ≡ true
  unfolding is_diff_empty
  agree_all k none none b a d e f r h = refl
  agree_all k none (some w) b a d e f r h = absurd (
      empty_lem _ d.added (ground (arith, h))
        ((r.added_iff (record { key = k; after = w })).1 (e, f)))
  agree_all k (some v) none b a d e f r h = absurd (
      empty_lem _ d.removed (ground (arith, h))
        ((r.removed_iff (record { key = k; before = v })).1 (e, f)))
  agree_all k (some v) (some w) b a d e f r h = elim (Bool-cases (is_equal stringify v w)) [
    | inl q ↦ q
    | inr q ↦ absurd (
        empty_lem _ d.changed (ground (arith, h))
          ((r.changed_iff (record { key = k; before = v; after = w })).1 (e, f, q)))
  ]

  none_added :
      (b a : Map String Json) (xs : List DiffAdded)
      → ((x : DiffAdded) → Elem x xs → (lookup x.key b ≡ none) × (lookup x.key a ≡ some x.after))
      → ((k : String) → agree (lookup k b) (lookup k a) ≡ true)
      → has_none xs ≡ true
  none_added b a [] r h = refl
  none_added b a (x ∷ xs) r h =
      absurd (let (e, f) = r x (inl refl) in ground (arith, e, f, h x.key))

  none_removed :
      (b a : Map String Json) (xs : List DiffRemoved)
      → ((x : DiffRemoved) → Elem x xs → (lookup x.key b ≡ some x.before) × (lookup x.key a ≡ none))
      → ((k : String) → agree (lookup k b) (lookup k a) ≡ true)
      → has_none xs ≡ true
  none_removed b a [] r h = refl
  none_removed b a (x ∷ xs) r h =
      absurd (let (e, f) = r x (inl refl) in ground (arith, e, f, h x.key))

  none_changed :
      (b a : Map String Json) (xs : List DiffChanged)
      → ((x : DiffChanged)
          → Elem x xs
          → (lookup x.key b ≡ some x.before)
            × (lookup x.key a ≡ some x.after)
            × (is_equal stringify x.before x.after ≡ false))
      → ((k : String) → agree (lookup k b) (lookup k a) ≡ true)
      → has_none xs ≡ true
  none_changed b a [] r h = refl
  none_changed b a (x ∷ xs) r h =
      absurd (let (e, f, g) = r x (inl refl) in ground (arith, e, f, g, h x.key))

  -- The difference of two snapshots is empty exactly where each key either is in neither, or has equal
  -- values in both.
  pub is_diff_empty_iff :
      (is_before : String → String → Bool) (before after : Option (Map String Json))
      → (is_diff_empty (diff_snapshots stringify is_before before after) ≡ true)
        ↔ ((k : String) → agree (lookup k (before or [])) (lookup k (after or [])) ≡ true)
  unfolding is_diff_empty
  is_diff_empty_iff is_before before after =
      let b = before or [] in
      let a = after or [] in
      let d = diff_snapshots stringify is_before before after in
      let r = diff_snapshots-Reports stringify is_before before after in
      (
        λ h k. agree_all k (lookup k b) (lookup k a) b a d refl refl r h,
        λ h. ground (
          arith,
          none_added b a d.added (λ x. (r.added_iff x).0) h,
          none_removed b a d.removed (λ x. (r.removed_iff x).0) h,
          none_changed b a d.changed (λ x. (r.changed_iff x).0) h,
        ),
      )
