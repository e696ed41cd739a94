-- ===== src/Freshness/Laws.antt =====
-- What freshness.ts promises of its two derivations.
use react_ai_healthycare.Base.{
  ◌≤◌, ◌≡◌, refl, ◌≢◌, ◌↔◌, ◌⊎◌, inl, inr, List, [], ◌∷◌, arith, All, Elem,
}
use react_ai_healthycare.Base.Int.{ℤ, pos, ◌-ℤ◌, ◌≤ℤ◌, ◌<ℤ◌, -ℤ_parts}
use react_ai_healthycare.Freshness.{
  FreshnessState, fresh, aging, stale, unavailable, FreshnessThresholds, derive_freshness,
  freshness_rank, worse, reduce_worst, worst_freshness,
}

-- With thresholds in order, the state is unavailable exactly when no data has arrived, and otherwise
-- fresh, aging or stale exactly as the age is below the first threshold, below the second, or not.
pub derive_freshness_iff :
    (last now : ℤ) (t : FreshnessThresholds)
    → t.aging_ms ≤ t.stale_ms
    → ((derive_freshness last now t ≡ unavailable) ↔ (last ≤ℤ pos 0))
      × ((derive_freshness last now t ≡ fresh)
          ↔ ((pos 0 <ℤ last) × (now -ℤ last <ℤ pos t.aging_ms)))
      × ((derive_freshness last now t ≡ aging)
          ↔ ((pos 0 <ℤ last) × (pos t.aging_ms ≤ℤ now -ℤ last) × (now -ℤ last <ℤ pos t.stale_ms)))
      × ((derive_freshness last now t ≡ stale)
          ↔ ((pos 0 <ℤ last) × (pos t.stale_ms ≤ℤ now -ℤ last)))
unfolding derive_freshness
derive_freshness_iff last now t h = ground (arith, -ℤ_parts now last)

-- As the clock advances and no new data arrives, the state never gets healthier.
pub derive_freshness_mono :
    (last now later : ℤ) (t : FreshnessThresholds)
    → t.aging_ms ≤ t.stale_ms
    → now ≤ℤ later
    → freshness_rank (derive_freshness last now t) ≤ freshness_rank (derive_freshness last later t)
unfolding derive_freshness
derive_freshness_mono last now later t h k = ground (arith, -ℤ_parts now last, -ℤ_parts later last)

reduce_worst-rank :
    (w : FreshnessState) (ss : List FreshnessState)
    → (freshness_rank w ≤ freshness_rank (reduce_worst w ss))
      × All (λ s. freshness_rank s ≤ freshness_rank (reduce_worst w ss)) ss
reduce_worst-rank w [] = (omega arith, tt)
reduce_worst-rank w (s ∷ ss) =
    let (low, rest) = reduce_worst-rank (worse w s) ss in (ground arith, (ground arith, rest))

reduce_worst-Elem :
    (w : FreshnessState) (ss : List FreshnessState)
    → (reduce_worst w ss ≡ w) ⊎ Elem (reduce_worst w ss) ss
reduce_worst-Elem w [] = inl refl
reduce_worst-Elem w (s ∷ ss) = elim (reduce_worst-Elem (worse w s) ss) [
  | inl e ↦ ground arith
  | inr e ↦ inr (inr e)
]

-- Of a non-empty list the result is one of its states, and none of them is less healthy.
pub worst_freshness-IsWorst :
    (ss : List FreshnessState)
    → ss ≢ []
    → Elem (worst_freshness ss) ss
      × All (λ s. freshness_rank s ≤ freshness_rank (worst_freshness ss)) ss
unfolding worst_freshness
worst_freshness-IsWorst [] h = absurd (h refl)
worst_freshness-IsWorst (s ∷ ss) h =
    let (low, below) = reduce_worst-rank fresh (s ∷ ss) in
    (elim (reduce_worst-Elem fresh (s ∷ ss)) [ inl e ↦ ground arith | inr e ↦ e ], below)
