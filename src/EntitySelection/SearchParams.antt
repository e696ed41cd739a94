-- ===== src/EntitySelection/SearchParams.antt =====
-- The browser's `URLSearchParams`: a list of pairs. Percent-coding is the browser's: `parse` and
-- `to_text` are parameters, with what the URL standard says of them as laws.
use Prim.Native.String
use react_ai_healthycare.Base.{
  String, List, [], ◌∷◌, Option, none, some, ◌≡◌, ◌↔◌, refl, if◌then◌else◌, ◌==◌, ==_iff, string_eq,
  truthy, arith, Bool-cases, inl, inr,
}

abbrev pub Params : Type 0
Params = List (String × String)

pub record SearchParams : Type 0 where
  pub parse : String → Params
  pub to_text : Params → String
  pub parse-nil : parse "" ≡ []
  pub to_text-nil_iff : (ps : Params) → (to_text ps ≡ "") ↔ (ps ≡ [])
  pub parse-to_text : (ps : Params) → parse (String.◌++◌ "?" (to_text ps)) ≡ ps

-- `get`: the first value
abbrev pub get : String → Params → Option String
get k [] = none
get k ((j, v) ∷ ps) = if j == k then some v else get k ps

-- `delete`: every pair with the key
abbrev pub delete : String → Params → Params
delete k [] = []
delete k ((j, v) ∷ ps) = if j == k then delete k ps else (j, v) ∷ delete k ps

-- `set`: the first pair with the key takes the value and the others go; with none, one is appended.
abbrev pub set : String → String → Params → Params
set k v [] = (k, v) ∷ []
set k v ((j, w) ∷ ps) = if j == k then (j, v) ∷ delete k ps else (j, w) ∷ set k v ps

pub get-delete :
    (k j : String) (ps : Params) → get j (delete k ps) ≡ (if k == j then none else get j ps)
get-delete k j [] = ground arith
get-delete k j ((i, w) ∷ ps) = ground (arith, ==_iff k j, ==_iff i k, ==_iff i j, get-delete k j ps)

pub get-set :
    (k j v : String) (ps : Params) → get j (set k v ps) ≡ (if k == j then some v else get j ps)
get-set k j v [] = refl
get-set k j v ((i, w) ∷ ps) =
    ground (arith, ==_iff k j, ==_iff i k, ==_iff i j, get-set k j v ps, get-delete k j ps)

-- `const next = params.toString(); return next ? `?${next}` : ''`
module _ (sp : SearchParams) where
  open sp use {parse, to_text, parse-nil, to_text-nil_iff, parse-to_text}

  unfoldable pub search_text : Params → String
  search_text ps = let next = to_text ps in if truthy next then String.◌++◌ "?" next else ""

  pub parse-search_text : (ps : Params) → parse (search_text ps) ≡ ps
  unfolding search_text
  parse-search_text ps = elim (Bool-cases (to_text ps == "")) [
    | inl e ↦ ground (arith, ==_iff (to_text ps) "", to_text-nil_iff ps, parse-nil)
    | inr e ↦ rw e (parse-to_text ps)
  ]
