-- ===== src/Snapshots/Laws.antt =====
-- A key is reported where its values differ, and as they do.
use mathlib.Core.Path.{subst}
use react_ai_healthycare.Base.{
  Elem-append, Elem-sort_by, String, List, [], ◌∷◌, ◌++◌, Option, none, some, Bool, true, false,
  Map, lookup, keys, string_eq, ◌==◌, ==_iff, any, ◌or◌, Elem, ◌≡◌, ◌↔◌, ◌⊎◌, inl, inr, refl, sym,
  ap, ◌∙◌, arith, Bool-cases,
}
use react_ai_healthycare.Api.Json.{Json}
use react_ai_healthycare.Snapshots.{
  DiffAdded, DiffRemoved, DiffChanged, SnapshotDiff, add_key, set_of, is_equal, push_key, collect,
  nothing, diff_snapshots,
}

Elem-any : (k : String) (ks : List String) → (any (λ j. j == k) ks ≡ true) ↔ Elem k ks
Elem-any k [] = ground arith
Elem-any k (j ∷ ks) = ground (arith, ==_iff j k, Elem-any k ks)

Elem-add_key :
    (k j : String) (seen : List String) → Elem k (add_key seen j) ↔ (Elem k seen ⊎ (j ≡ k))
Elem-add_key k j seen = elim (Bool-cases (any (λ i. i == j) seen)) [
  | inl q ↦ rw q (
    λ e. inl e,
    λ e. elim e [ inl m ↦ m | inr h ↦ subst (λ i. Elem i seen) h ((Elem-any j seen).0 q) ],
  )
  | inr q ↦ rw q (ground (arith, Elem-append k seen (j ∷ [])))
]

Elem-set_of :
    (k : String) (seen ks : List String) → Elem k (set_of seen ks) ↔ (Elem k seen ⊎ Elem k ks)
Elem-set_of k seen [] = ground arith
Elem-set_of k seen (j ∷ ks) =
    ground (arith, Elem-add_key k j seen, Elem-set_of k (add_key seen j) ks)

lookup-Elem : (k : String) (v : Json) (m : Map String Json) → lookup k m ≡ some v → Elem k (keys m)
lookup-Elem k v [] h = ground (arith, h)
lookup-Elem k v ((j, w) ∷ m) h = ground (arith, h, ==_iff j k, lookup-Elem k v m)

some_cancel : (v w : Json) → some v ≡ some w → v ≡ w
some_cancel v w h = ap (λ o. o or v) h

Elem-snoc :
    {A : Type 0} (P : Type 0) (x y : A) (xs : List A)
    → (y ≡ x) ↔ P
    → Elem x (xs ++ y ∷ []) ↔ (Elem x xs ⊎ P)
Elem-snoc P x y xs h = ground (arith, h, Elem-append x xs (y ∷ []))

module _ (stringify : Json → String) where
  push-added :
      (x : DiffAdded) (key : String) (o p : Option Json) (d : SnapshotDiff)
      → Elem x (push_key stringify key o p d).added
        ↔ (Elem x d.added ⊎ ((key ≡ x.key) × (o ≡ none) × (p ≡ some x.after)))
  push-added x key none none d = ground arith
  push-added x key none (some after) d =
      Elem-snoc _ x (record { key = key; after = after }) d.added
        (
          λ e. (ap (λ (y : DiffAdded). y.key) e, refl, ap (λ (y : DiffAdded). some y.after) e),
          λ h i. record { key = h.0 i; after = some_cancel after x.after h.2 i },
        )
  push-added x key (some before) none d = ground arith
  push-added x key (some before) (some after) d = ground arith

  push-removed :
      (x : DiffRemoved) (key : String) (o p : Option Json) (d : SnapshotDiff)
      → Elem x (push_key stringify key o p d).removed
        ↔ (Elem x d.removed ⊎ ((key ≡ x.key) × (o ≡ some x.before) × (p ≡ none)))
  push-removed x key none none d = ground arith
  push-removed x key none (some after) d = ground arith
  push-removed x key (some before) none d =
      Elem-snoc _ x (record { key = key; before = before }) d.removed
        (
          λ e. (ap (λ (y : DiffRemoved). y.key) e, ap (λ (y : DiffRemoved). some y.before) e, refl),
          λ h i. record { key = h.0 i; before = some_cancel before x.before h.1 i },
        )
  push-removed x key (some before) (some after) d = ground arith

  push-changed :
      (x : DiffChanged) (key : String) (o p : Option Json) (d : SnapshotDiff)
      → Elem x (push_key stringify key o p d).changed ↔ (
          Elem x d.changed
          ⊎ ((key ≡ x.key)
              × (o ≡ some x.before)
              × (p ≡ some x.after)
              × (is_equal stringify x.before x.after ≡ false)))
  push-changed x key none none d = ground arith
  push-changed x key none (some after) d = ground arith
  push-changed x key (some before) none d = ground arith
  push-changed x key (some before) (some after) d =
      elim (Bool-cases (is_equal stringify before after)) [
        | inl q ↦ rw q (
          λ e. inl e,
          λ e. elim e [
            | inl m ↦ m
            | inr h ↦ absurd (
                same (
                  sym q
                  ∙ (ap (λ v. is_equal stringify v after) (some_cancel before x.before h.1)
                      ∙ (ap (is_equal stringify x.before) (some_cancel after x.after h.2) ∙ h.3))))
          ],
        )
        | inr q ↦ rw q (
            Elem-snoc _ x (record { key = key; before = before; after = after }) d.changed
              (
                λ e. (
                  ap (λ (y : DiffChanged). y.key) e,
                  ap (λ (y : DiffChanged). some y.before) e,
                  ap (λ (y : DiffChanged). some y.after) e,
                  ap (λ (y : DiffChanged). is_equal stringify y.before y.after) (sym e) ∙ q,
                ),
                λ h i. record {
                  key = h.0 i;
                  before = some_cancel before x.before h.1 i;
                  after = some_cancel after x.after h.2 i;
                },
              ))
      ]
    where
      same : true ≡ false → ⊥
      same h = ground (arith, h)

  module _ (before after : Map String Json) where
    abbrev collected : List String → SnapshotDiff → SnapshotDiff
    collected = collect stringify before after

    same_values :
        (j k : String)
        → j ≡ k
        → (lookup j before ≡ lookup k before) × (lookup j after ≡ lookup k after)
    same_values j k h = (ap (λ i. lookup i before) h, ap (λ i. lookup i after) h)

    abbrev push_at : String → SnapshotDiff → SnapshotDiff
    push_at key d = push_key stringify key (lookup key before) (lookup key after) d

    collect-added :
        (x : DiffAdded) (ks : List String) (d : SnapshotDiff)
        → Elem x (collected ks d).added ↔ (
            Elem x d.added
            ⊎ (Elem x.key ks × (lookup x.key before ≡ none) × (lookup x.key after ≡ some x.after)))
    collect-added x [] d = ground arith
    collect-added x (key ∷ ks) d = ground (
      arith,
      push-added x key (lookup key before) (lookup key after) d,
      collect-added x ks (push_at key d),
      same_values key x.key,
    )

    collect-removed :
        (x : DiffRemoved) (ks : List String) (d : SnapshotDiff)
        → Elem x (collected ks d).removed ↔ (
            Elem x d.removed
            ⊎ (Elem x.key ks × (lookup x.key before ≡ some x.before) × (lookup x.key after ≡ none)))
    collect-removed x [] d = ground arith
    collect-removed x (key ∷ ks) d = ground (
      arith,
      push-removed x key (lookup key before) (lookup key after) d,
      collect-removed x ks (push_at key d),
      same_values key x.key,
    )

    collect-changed :
        (x : DiffChanged) (ks : List String) (d : SnapshotDiff)
        → Elem x (collected ks d).changed ↔ (
            Elem x d.changed
            ⊎ (Elem x.key ks
                × (lookup x.key before ≡ some x.before)
                × (lookup x.key after ≡ some x.after)
                × (is_equal stringify x.before x.after ≡ false)))
    collect-changed x [] d = ground arith
    collect-changed x (key ∷ ks) d = ground (
      arith,
      push-changed x key (lookup key before) (lookup key after) d,
      collect-changed x ks (push_at key d),
      same_values key x.key,
    )

    abbrev all_keys : List String
    all_keys = set_of [] (keys before ++ keys after)

    in_before : (k : String) (v : Json) → lookup k before ≡ some v → Elem k all_keys
    in_before k v h =
        (Elem-set_of k [] (keys before ++ keys after)).1
          (inr ((Elem-append k (keys before) (keys after)).1 (inl (lookup-Elem k v before h))))

    in_after : (k : String) (v : Json) → lookup k after ≡ some v → Elem k all_keys
    in_after k v h =
        (Elem-set_of k [] (keys before ++ keys after)).1
          (inr ((Elem-append k (keys before) (keys after)).1 (inr (lookup-Elem k v after h))))

  -- What a difference reports of two objects.
  pub record Reports (before after : Map String Json) (d : SnapshotDiff) : Type 0 where
    pub added_iff :
        (x : DiffAdded)
        → Elem x d.added ↔ ((lookup x.key before ≡ none) × (lookup x.key after ≡ some x.after))
    pub removed_iff :
        (x : DiffRemoved)
        → Elem x d.removed ↔ ((lookup x.key before ≡ some x.before) × (lookup x.key after ≡ none))
    pub changed_iff :
        (x : DiffChanged)
        → Elem x d.changed ↔ (
            (lookup x.key before ≡ some x.before)
            × (lookup x.key after ≡ some x.after)
            × (is_equal stringify x.before x.after ≡ false))

  -- Of any two snapshots, where a missing one has no keys: a key and a value are reported as added
  -- exactly where the key is new and has that value, as removed exactly where it is gone and had it,
  -- and as changed from one value to another exactly where it had the one, has the other, and they are
  -- not equal.
  pub diff_snapshots-Reports :
      (is_before : String → String → Bool) (before after : Option (Map String Json))
      → Reports (before or []) (after or []) (diff_snapshots stringify is_before before after)
  unfolding diff_snapshots
  diff_snapshots-Reports is_before before after =
      let b = before or [] in
      let a = after or [] in
      let ks = all_keys b a in
      record {
        added_iff = λ x. ground (
          arith,
          Elem-sort_by (λ y z. is_before y.key z.key) x (collected b a ks nothing).added,
          collect-added b a x ks nothing,
          in_after b a x.key x.after,
        );
        removed_iff = λ x. ground (
          arith,
          Elem-sort_by (λ y z. is_before y.key z.key) x (collected b a ks nothing).removed,
          collect-removed b a x ks nothing,
          in_before b a x.key x.before,
        );
        changed_iff = λ x. ground (
          arith,
          Elem-sort_by (λ y z. is_before y.key z.key) x (collected b a ks nothing).changed,
          collect-changed b a x ks nothing,
          in_before b a x.key x.before,
        );
      }
