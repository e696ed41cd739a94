-- ===== src/Base/Group.antt =====
-- The grouping loops: `const e = m.get(k) ?? make(k); …; m.set(k, e)` for each element with a key.
use Prim.Native.String.{String}
use mathlib.Core.Path.{◌≡◌, refl}
use mathlib.Core.List.{List, [], ◌∷◌}
use mathlib.Core.Option.{Option, none, some}
use native.Mathlib.Omega.{arith}
use react_ai_healthycare.Base.Tests.{if◌then◌else◌, ◌or◌}
use react_ai_healthycare.Base.Equality.{string_eq, ==_iff, is_value}
use react_ai_healthycare.Base.Lists.{filter}
use react_ai_healthycare.Base.Assoc.{Map, lookup, insert, lookup-insert}

-- Each key stands once.
abbrev pub HasDistinctKeys : {E : Type 0} → Map String E → Type 0
HasDistinctKeys [] = Unit
HasDistinctKeys ((k, v) ∷ m) = (lookup k m ≡ none) × HasDistinctKeys m

pub insert-HasDistinctKeys :
    {E : Type 0} (k : String) (v : E) (m : Map String E)
    → HasDistinctKeys m
    → HasDistinctKeys (insert k v m)
insert-HasDistinctKeys k v [] h = (refl, tt)
insert-HasDistinctKeys k v ((j, w) ∷ m) (e, h) =
    ground (arith, lookup-insert k j v m, ==_iff j k, ==_iff k j, insert-HasDistinctKeys k v m h)

module _ {A E : Type 0} (key : A → Option String) (make : String → E) (push : A → E → E) where
  abbrev add_to : Option String → A → Map String E → Map String E
  add_to none x m = m
  add_to (some k) x m = insert k (push x (lookup k m or make k)) m

  abbrev pub group_from : Map String E → List A → Map String E
  group_from m [] = m
  group_from m (x ∷ xs) = group_from (add_to (key x) x m) xs

  abbrev pub push_all : E → List A → E
  push_all e [] = e
  push_all e (x ∷ xs) = push_all (push x e) xs

  abbrev pub with_key : String → List A → List A
  with_key k xs = filter (λ x. is_value (key x) k) xs

  -- what a loop over `xs` adds to the entry of `k`
  abbrev pub extend : String → Option E → List A → Option E
  extend k o [] = o
  extend k o (x ∷ xs) = some (push_all (push x (o or make k)) xs)

  lookup-add_to :
      (o : Option String) (k : String) (x : A) (m : Map String E)
      → lookup k (add_to o x m)
        ≡ (if is_value o k then some (push x (lookup k m or make k)) else lookup k m)
  lookup-add_to none k x m = refl
  lookup-add_to (some j) k x m =
      ground (arith, lookup-insert j k (push x (lookup j m or make j)) m, ==_iff j k)

  extend_cons :
      (k : String) (o : Option E) (x : A) (xs : List A)
      → extend k (some (push x (o or make k))) xs ≡ extend k o (x ∷ xs)
  extend_cons k o x [] = refl
  extend_cons k o x (y ∷ xs) = refl

  lookup-group_from :
      (k : String) (m : Map String E) (xs : List A)
      → lookup k (group_from m xs) ≡ extend k (lookup k m) (with_key k xs)
  lookup-group_from k m [] = refl
  lookup-group_from k m (x ∷ xs) = ground (
    arith,
    lookup-group_from k (add_to (key x) x m) xs,
    lookup-add_to (key x) k x m,
    extend_cons k (lookup k m) x (with_key k xs),
  )

  -- The entry of a key is made of the elements with that key, in their order.
  pub lookup-group :
      (k : String) (xs : List A) → lookup k (group_from [] xs) ≡ extend k none (with_key k xs)
  lookup-group k xs = lookup-group_from k [] xs

  add_to-HasDistinctKeys :
      (o : Option String) (x : A) (m : Map String E)
      → HasDistinctKeys m
      → HasDistinctKeys (add_to o x m)
  add_to-HasDistinctKeys none x m h = h
  add_to-HasDistinctKeys (some k) x m h = insert-HasDistinctKeys k _ m h

  pub group_from-HasDistinctKeys :
      (m : Map String E) (xs : List A) → HasDistinctKeys m → HasDistinctKeys (group_from m xs)
  group_from-HasDistinctKeys m [] h = h
  group_from-HasDistinctKeys m (x ∷ xs) h =
      group_from-HasDistinctKeys (add_to (key x) x m) xs (add_to-HasDistinctKeys (key x) x m h)

-- `new Map(xs.map(x => [f(x), g(x)]))`
module _ {A E : Type 0} (f : A → String) (g : A → E) where
  abbrev map_from : Map String E → List A → Map String E
  map_from m [] = m
  map_from m (x ∷ xs) = map_from (insert (f x) (g x) m) xs

  abbrev pub map_by : List A → Map String E
  map_by xs = map_from [] xs
