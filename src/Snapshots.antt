-- ===== src/Snapshots.antt =====
-- frontend/src/utils/diffSnapshots.ts: the differences between two snapshots, objects as maps with
-- their own keys. `JSON.stringify` and the order of `localeCompare` are parameters.
pub mod Laws
pub mod Empty
mod Tests
use react_ai_healthycare.Base.{
  String, List, [], ◌∷◌, ◌++◌, Option, none, some, Bool, true, false, not, ◌&&◌, if◌then◌else◌, Map,
  lookup, keys, string_eq, nat_eq, sort_by, ◌==◌, any, ◌or◌, is_some,
}
use react_ai_healthycare.Base.Int.{ℤ, pos, negsuc}
use react_ai_healthycare.Api.Json.{Json, null, bool, int, frac, str, arr, obj}

pub record DiffAdded : Type 0 where
  pub key : String
  pub after : Json

pub record DiffRemoved : Type 0 where
  pub key : String
  pub before : Json

pub record DiffChanged : Type 0 where
  pub key : String
  pub before : Json
  pub after : Json

pub record SnapshotDiff : Type 0 where
  pub added : List DiffAdded
  pub removed : List DiffRemoved
  pub changed : List DiffChanged

-- `new Set([...a, ...b])`
abbrev pub add_key : List String → String → List String
add_key seen key = if any (λ k. k == key) seen then seen else seen ++ key ∷ []

abbrev pub set_of : List String → List String → List String
set_of seen [] = seen
set_of seen (key ∷ ks) = set_of (add_key seen key) ks

abbrev pub same_int : ℤ → ℤ → Bool
same_int (pos m) (pos n) = m == n
same_int (negsuc m) (negsuc n) = m == n
same_int _ _ = false

abbrev pub same_bool : Bool → Bool → Bool
same_bool true b = b
same_bool false b = not b

abbrev pub nothing : SnapshotDiff
nothing = record { added = []; removed = []; changed = [] }

module _ (stringify : Json → String) where
  -- Two values that are no objects are the same as `Object.is` has it; two objects by their texts,
  -- which are the same where the objects are one.
  unfoldable pub is_equal : Json → Json → Bool
  is_equal null null = true
  is_equal (bool b) (bool c) = same_bool b c
  is_equal (int m) (int n) = same_int m n
  is_equal (frac s) (frac t) = s == t
  is_equal (str s) (str t) = s == t
  is_equal (arr a) (arr b) = stringify (arr a) == stringify (arr b)
  is_equal (arr a) (obj b) = stringify (arr a) == stringify (obj b)
  is_equal (obj a) (arr b) = stringify (obj a) == stringify (arr b)
  is_equal (obj a) (obj b) = stringify (obj a) == stringify (obj b)
  is_equal _ _ = false

  -- What the loop pushes for a key, by its values before and after.
  abbrev pub push_key : String → Option Json → Option Json → SnapshotDiff → SnapshotDiff
  push_key key none none d = d
  push_key key none (some after) d = record d {
    added = d.added ++ record { key = key; after = after } ∷ [];
  }
  push_key key (some before) none d = record d {
    removed = d.removed ++ record { key = key; before = before } ∷ [];
  }
  push_key key (some before) (some after) d = if is_equal before after then d else record d {
    changed = d.changed ++ record { key = key; before = before; after = after } ∷ [];
  }

  abbrev pub collect : Map String Json → Map String Json → List String → SnapshotDiff → SnapshotDiff
  collect before after [] d = d
  collect before after (key ∷ ks) d =
      collect before after ks (push_key key (lookup key before) (lookup key after) d)

  unfoldable pub diff_snapshots :
      (is_before : String → String → Bool)
      → Option (Map String Json)
      → Option (Map String Json)
      → SnapshotDiff
  unfolding is_equal
  diff_snapshots is_before before after =
      let before_obj = before or [] in
      let after_obj = after or [] in
      let d =
        collect before_obj after_obj (set_of [] (keys before_obj ++ keys after_obj)) nothing in
      record {
        added = sort_by (λ a b. is_before a.key b.key) d.added;
        removed = sort_by (λ a b. is_before a.key b.key) d.removed;
        changed = sort_by (λ a b. is_before a.key b.key) d.changed;
      }

abbrev pub has_none : {A : Type 0} → List A → Bool
has_none [] = true
has_none (x ∷ xs) = false

unfoldable pub is_diff_empty : SnapshotDiff → Bool
is_diff_empty d = has_none d.added && has_none d.removed && has_none d.changed
