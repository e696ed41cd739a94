-- ===== src/Base/Trim.antt =====
-- `String.prototype.trim` and `join`, and when a text has more than white space.

use Prim.Native.Char.{Char, code}
use Prim.Native.String.{String}
use mathlib.Core.Path.{◌≡◌, refl, ap, ◌∙◌}
use mathlib.Core.Bool.{Bool, true, false, not, ◌&&◌, ◌||◌}
use mathlib.Core.List.{List, [], ◌∷◌}
use native.Mathlib.Omega.{arith}
use text.Mathlib.TextLemmas.{nil-append, cons-append}
use react_ai_healthycare.Base.Tests.{leb, eqb, if◌then◌else◌}
use react_ai_healthycare.Base.Lists.{any}
use Prim.Native.String

-- the white space and line terminators of the language
unfoldable pub is_white : Char → Bool
is_white c =
    let n = code c in
    (leb 9 n && leb n 13)
    || any (eqb n) (32 ∷ 160 ∷ 5760 ∷ 8232 ∷ 8233 ∷ 8239 ∷ 8287 ∷ 12288 ∷ 65279 ∷ [])
    || (leb 8192 n && leb n 8202)

abbrev pub is_blank : String → Bool
is_blank String.[] = true
is_blank (String.◌∷◌ c s) = is_white c && is_blank s

abbrev trim_start : String → String
trim_start String.[] = ""
trim_start (String.◌∷◌ c s) = if is_white c then trim_start s else String.◌∷◌ c s

abbrev pub is_empty : String → Bool
is_empty String.[] = true
is_empty (String.◌∷◌ c s) = false

abbrev trim_end : String → String
trim_end String.[] = ""
trim_end (String.◌∷◌ c s) =
    let rest = trim_end s in if is_white c && is_empty rest then "" else String.◌∷◌ c rest

unfoldable pub trim : String → String
trim s = trim_end (trim_start s)

-- `s.trim().length > 0`
abbrev pub has_text : String → Bool
has_text s = not (is_empty (trim s))

-- `join(separator)`
abbrev pub join : String → List String → String
join separator [] = ""
join separator (s ∷ []) = s
join separator (s ∷ t ∷ ss) = String.◌++◌ s (String.◌++◌ separator (join separator (t ∷ ss)))

is_blank-trim_start : (s : String) → is_blank (trim_start s) ≡ is_blank s
is_blank-trim_start String.[] = refl
is_blank-trim_start (String.◌∷◌ c s) = ground (arith, is_blank-trim_start s)

is_empty-trim_end : (s : String) → is_empty (trim_end s) ≡ is_blank s
is_empty-trim_end String.[] = refl
is_empty-trim_end (String.◌∷◌ c s) = ground (arith, is_empty-trim_end s)

is_blank-trim_end : (s : String) → is_blank (trim_end s) ≡ is_blank s
is_blank-trim_end String.[] = refl
is_blank-trim_end (String.◌∷◌ c s) = ground (arith, is_blank-trim_end s, is_empty-trim_end s)

pub is_blank-trim : (s : String) → is_blank (trim s) ≡ is_blank s
unfolding trim
is_blank-trim s = is_blank-trim_end (trim_start s) ∙ is_blank-trim_start s

pub has_text_iff : (s : String) → has_text s ≡ not (is_blank s)
unfolding trim
has_text_iff s = ap not (is_empty-trim_end (trim_start s) ∙ is_blank-trim_start s)

pub is_blank-append : (s t : String) → is_blank (String.◌++◌ s t) ≡ (is_blank s && is_blank t)
is_blank-append String.[] t = rw (nil-append t) refl
is_blank-append (String.◌∷◌ c s) t = rw (cons-append c s t) (ground (arith, is_blank-append s t))

-- Texts that are not blank are not blank when joined.
pub join_has_text :
    (separator s : String) (ss : List String)
    → is_blank s ≡ false
    → is_blank (join separator (s ∷ ss)) ≡ false
join_has_text separator s [] h = h
join_has_text separator s (t ∷ ss) h =
    ground (arith, h, is_blank-append s (String.◌++◌ separator (join separator (t ∷ ss))))
