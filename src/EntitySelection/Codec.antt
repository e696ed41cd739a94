-- ===== src/EntitySelection/Codec.antt =====
-- A coding of parameters that meets the laws of `SearchParams`: each character of a text is written
-- behind an "x", and each text ends in "e.".
use Prim.Native.Char.{Char, code}
use Prim.Native.String.{String}
use text.Mathlib.TextLemmas.{nil-append, cons-append}
use react_ai_healthycare.Base.{List, [], ◌∷◌, ◌≡◌, ◌↔◌, refl, ap, if◌then◌else◌, eqb}
use react_ai_healthycare.EntitySelection.SearchParams.{Params, SearchParams}
use Prim.Native.String

encode : String → String → String
encode String.[] rest = String.◌∷◌ "e" (String.◌∷◌ "." rest)
encode (String.◌∷◌ c s) rest = String.◌∷◌ "x" (String.◌∷◌ c (encode s rest))

push : Char → List String → List String
push c [] = []
push c (s ∷ texts) = String.◌∷◌ c s ∷ texts

texts : String → List String
texts String.[] = []
texts (String.◌∷◌ m String.[]) = []
texts (String.◌∷◌ m (String.◌∷◌ c s)) =
    let rest = texts s in if eqb (code m) b'x' then push c rest else "" ∷ rest

pairs : List String → Params
pairs [] = []
pairs (k ∷ []) = []
pairs (k ∷ v ∷ r) = (k, v) ∷ pairs r

pub write : Params → String
write [] = ""
write ((k, v) ∷ ps) = encode k (encode v (write ps))

pub read : String → Params
read String.[] = []
read (String.◌∷◌ q s) = pairs (texts s)

texts-encode : (s rest : String) → texts (encode s rest) ≡ s ∷ texts rest
unfolding texts encode push
texts-encode String.[] rest = refl
texts-encode (String.◌∷◌ c s) rest = rw (texts-encode s rest)

pairs-texts-write : (ps : Params) → pairs (texts (write ps)) ≡ ps
unfolding pairs write texts
pairs-texts-write [] = refl
pairs-texts-write ((k, v) ∷ ps) =
    rw (texts-encode k, texts-encode v) (ap (λ r. (k, v) ∷ r) (pairs-texts-write ps))

pub write-nil_iff : (ps : Params) → (write ps ≡ "") ↔ (ps ≡ [])
unfolding write encode
write-nil_iff [] = (λ e. refl, λ e. refl)
write-nil_iff ((String.[], v) ∷ ps) = (λ e. cc, λ e. cc)
write-nil_iff ((String.◌∷◌ c k, v) ∷ ps) = (λ e. cc, λ e. cc)

pub read-write : (ps : Params) → read (String.◌++◌ "?" (write ps)) ≡ ps
unfolding read
read-write ps = rw (cons-append, nil-append) (pairs-texts-write ps)

unfoldable pub plain_params : SearchParams
unfolding read write pairs texts encode push
plain_params = record {
  parse = read;
  to_text = write;
  parse-nil = refl;
  to_text-nil_iff = write-nil_iff;
  parse-to_text = read-write;
}
