-- ===== src/Base/Decimal.antt =====
-- `String(n)` of a natural number, and texts with a fixed prefix.
use Prim.Native.Nat.{ℕ, zero, suc, ◌+◌, ◌-◌, ◌*◌, ◌/◌, ◌%◌, ◌<◌}
use Prim.Native.Char.{Char, code}
use Prim.Native.String.{String}
use mathlib.Core.Path.{◌≡◌, refl, sym, ap, ◌∙◌}
use mathlib.Core.Logic.{inl, inr}
use native.Mathlib.Omega.{arith}
use text.Mathlib.TextLemmas.{nil-append, cons-append}
use react_ai_healthycare.Base.Tests.{ltb, if◌then◌else◌, Bool-cases}
use Prim.Native.String

abbrev digit : ℕ → Char
digit zero = "0"
digit (suc zero) = "1"
digit (suc (suc zero)) = "2"
digit (suc (suc (suc zero))) = "3"
digit (suc (suc (suc (suc zero)))) = "4"
digit (suc (suc (suc (suc (suc zero))))) = "5"
digit (suc (suc (suc (suc (suc (suc zero)))))) = "6"
digit (suc (suc (suc (suc (suc (suc (suc zero))))))) = "7"
digit (suc (suc (suc (suc (suc (suc (suc (suc zero)))))))) = "8"
digit (suc (suc (suc (suc (suc (suc (suc (suc (suc n))))))))) = "9"

code-digit : (d : ℕ) → d < 10 → code (digit d) ≡ 48 + d
code-digit zero h = refl
code-digit (suc zero) h = refl
code-digit (suc (suc zero)) h = refl
code-digit (suc (suc (suc zero))) h = refl
code-digit (suc (suc (suc (suc zero)))) h = refl
code-digit (suc (suc (suc (suc (suc zero))))) h = refl
code-digit (suc (suc (suc (suc (suc (suc zero)))))) h = refl
code-digit (suc (suc (suc (suc (suc (suc (suc zero))))))) h = refl
code-digit (suc (suc (suc (suc (suc (suc (suc (suc zero)))))))) h = refl
code-digit (suc (suc (suc (suc (suc (suc (suc (suc (suc zero))))))))) h = refl
code-digit (suc (suc (suc (suc (suc (suc (suc (suc (suc (suc n)))))))))) h = absurd (omega arith)

-- The digits of `n` in front of `out`; the fuel is above `n`.
emit : ℕ → ℕ → String → String
emit zero n out = out
emit (suc f) n out =
    let longer = emit f (n / 10) (String.◌∷◌ (digit (n % 10)) out) in
    if ltb n 10 then String.◌∷◌ (digit n) out else longer

unfoldable pub decimal : ℕ → String
unfolding emit
decimal n = emit (suc n) n ""

-- The number that a text of digits gives, after the digits of `n`.
unfoldable pub value : String → ℕ → ℕ
value String.[] n = n
value (String.◌∷◌ c s) n = value s (n * 10 + (code c - 48))

value-cons_digit :
    (d n : ℕ) (s : String) → d < 10 → value (String.◌∷◌ (digit d) s) n ≡ value s (n * 10 + d)
unfolding value
value-cons_digit d n s h = ap (value s) (omega (arith, code-digit d h))

value-emit : (f n : ℕ) (s : String) → n < f → value (emit f n s) 0 ≡ value s n
unfolding emit
value-emit zero n s h = absurd (omega arith)
value-emit (suc f) n s h = elim (Bool-cases (ltb n 10)) [
  | inl small ↦ rw small (value-cons_digit n 0 s (ground arith) ∙ ap (value s) (omega arith))
  | inr big ↦ rw big (
      value-emit f (n / 10) _ (ground arith)
      ∙ value-cons_digit (n % 10) (n / 10) s (omega arith)
      ∙ ap (value s) (omega arith))
]

pub value-decimal : (n : ℕ) → value (decimal n) 0 ≡ n
unfolding decimal value
value-decimal n = value-emit (suc n) n "" (omega arith)

pub decimal-injective : (a b : ℕ) → decimal a ≡ decimal b → a ≡ b
decimal-injective a b h = sym (value-decimal a) ∙ ap (λ s. value s 0) h ∙ value-decimal b

∷_tail : {c d : Char} {s t : String} → String.◌∷◌ c s ≡ String.◌∷◌ d t → s ≡ t
∷_tail h = cc

-- `${p}${s}` determines `s`.
pub append_cancel : (p s t : String) → String.◌++◌ p s ≡ String.◌++◌ p t → s ≡ t
append_cancel String.[] s t h = cc (nil-append s, nil-append t)
append_cancel (String.◌∷◌ c p) s t h = append_cancel p s t (∷_tail (simp cons-append at h))

decimal_tests : decimal 1207 ≡ "1207"
unfolding decimal
decimal_tests = refl
