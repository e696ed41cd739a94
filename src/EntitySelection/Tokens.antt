-- ===== src/EntitySelection/Tokens.antt =====
-- frontend/src/lib/entitySelectionRoute.ts: the tokens of the route writes that are under way. An ES
-- `Set` is the list of its values in the order of insertion.
use react_ai_healthycare.Base.{
  ℕ, ◌≤◌, ◌≡◌, refl, List, [], ◌∷◌, ◌++◌, Bool, true, not, if◌then◌else◌, ltb, eqb, length,
  length-append, any, filter, drop, arith,
}

abbrev pub max_pending : ℕ
max_pending = 20

abbrev pub has : ℕ → List ℕ → Bool
has t = any (λ u. eqb u t)

-- `add`
abbrev pub add : ℕ → List ℕ → List ℕ
add t ts = if has t ts then ts else ts ++ t ∷ []

-- `delete`, with whether the value was there
abbrev pub delete : ℕ → List ℕ → List ℕ × Bool
delete t ts = (filter (λ u. not (eqb u t)) ts, has t ts)

-- the loop of `trackEntitySelectionSyncToken`
unfoldable pub trim : List ℕ → List ℕ
trim [] = []
trim (t ∷ ts) = if ltb max_pending (length (t ∷ ts)) then trim ts else t ∷ ts

unfoldable pub track : List ℕ → ℕ → List ℕ
unfolding trim
track pending token = trim (add token pending)

trim_short : (ts : List ℕ) → length ts ≤ max_pending → trim ts ≡ ts
unfolding trim
trim_short [] h = refl
trim_short (t ∷ ts) h = ground arith

length-trim : (ts : List ℕ) → length (trim ts) ≤ max_pending
unfolding trim
length-trim [] = omega arith
length-trim (t ∷ ts) = ground (arith, length-trim ts)

trim_over : (ts : List ℕ) → length ts ≡ 21 → trim ts ≡ drop 1 ts
unfolding trim
trim_over [] h = refl
trim_over (t ∷ ts) h = ground (arith, trim_short ts)

-- Whatever was pending, at most 20 tokens are afterwards. Of a set of at most 20, a token that is
-- already there changes nothing, a new one is added as the last, and only where the set was full is
-- another dropped, the oldest.
pub track_lem :
    (ts : List ℕ) (t : ℕ)
    → (length (track ts t) ≤ max_pending)
      × (length ts ≤ max_pending
          → track ts t ≡ (
              if has t ts
              then ts
              else (if ltb (length ts) 20 then ts ++ t ∷ [] else drop 1 (ts ++ t ∷ []))))
unfolding track
track_lem ts t = (
  length-trim (add t ts),
  λ h. ground (arith, length-append ts (t ∷ []), trim_short (add t ts), trim_over (add t ts)),
)

has-append : (t : ℕ) (xs : List ℕ) → has t (xs ++ t ∷ []) ≡ true
has-append t [] = ground arith
has-append t (x ∷ xs) = ground (arith, has-append t xs)

-- The token just written is pending.
pub has-track : (ts : List ℕ) (t : ℕ) → length ts ≤ max_pending → has t (track ts t) ≡ true
has-track [] t h = ground (arith, (track_lem [] t).1 h)
has-track (u ∷ ts) t h =
    ground (arith, (track_lem (u ∷ ts) t).1 h, has-append t (u ∷ ts), has-append t ts)
