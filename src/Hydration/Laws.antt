-- ===== src/Hydration/Laws.antt =====
-- An asset is shown within a fixed distance of its site.
use native.Mathlib.Omega.{arith}
use react_ai_healthycare.Base.{ℕ, ◌+◌, ◌*◌, ◌%◌, ◌^◌, ◌<◌, String, ◌≡◌, string_eq}
use react_ai_healthycare.Base.Int.{pos, negsuc, ◌≤ℤ◌, ◌<ℤ◌, -ℤ_parts}
use react_ai_healthycare.Hydration.{hash_step, hash_fraction, offset}

-- On a residue, the shifts are a multiplication by 31.
hash_step_lem : (hash unit : ℕ) → hash < 2 ^ 32 → hash_step hash unit ≡ (hash * 31 + unit) % 2 ^ 32
unfolding hash_step
hash_step_lem hash unit h = omega arith

hash_fraction_bound : (seed : String) → hash_fraction seed < 10000
unfolding hash_fraction
hash_fraction_bound seed = omega arith

-- An asset stands within a fortieth of a degree of its site.
offset_bounds : (seed : String) → (negsuc 24999 ≤ℤ offset seed) × (offset seed <ℤ pos 25000)
unfolding offset
offset_bounds seed =
    omega (arith, hash_fraction_bound seed, -ℤ_parts (pos (hash_fraction seed * 5)) (pos 25000))
