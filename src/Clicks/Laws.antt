-- ===== src/Clicks/Laws.antt =====
-- The first feature of the highest priority is taken.
use mathlib.Core.Path.{subst}
use react_ai_healthycare.Base.{
  List, [], ◌∷◌, ◌++◌, Option, none, some, All, ◌≡◌, refl, ap, ◌⊎◌, inl, inr, arith, Bool-cases,
  Option-cases,
}
use react_ai_healthycare.Base.Int.{ℤ, pos, negsuc, leb_ℤ, ◌≤ℤ◌, ◌<ℤ◌}
use react_ai_healthycare.Clicks.{
  MapFeature, Candidate, Best, kind_priority, candidate_of, consider, resolve_from, no_candidate,
  resolve_map_click_candidate,
}

-- the priority of what a feature gives, -1 for none
abbrev pub rank : Option Candidate → ℤ
rank none = negsuc 0
rank (some c) = pos (kind_priority c.kind)

abbrev pub rank_of : MapFeature → ℤ
rank_of f = rank (candidate_of f)

-- `c` is of a feature that ranks above those before it and no lower than those after it.
pub record IsFirstBest (c : Candidate) (features : List MapFeature) : Type 0 where
  pub before : List MapFeature
  pub feature : MapFeature
  pub after : List MapFeature
  pub split : features ≡ before ++ feature ∷ after
  pub given : candidate_of feature ≡ some c
  pub above : All (λ f. rank_of f <ℤ rank (some c)) before
  pub not_below : All (λ f. rank_of f ≤ℤ rank (some c)) after

record Outcome (b : Best) (fs : List MapFeature) (r : Best) : Type 0 where
  chosen : Candidate
  best : IsFirstBest chosen fs
  found : r.candidate ≡ some chosen
  higher : b.priority <ℤ rank (some chosen)

IsOutcome : Best → List MapFeature → Best → Type 0
IsOutcome b fs r = ((r ≡ b) × All (λ f. rank_of f ≤ℤ b.priority) fs) ⊎ Outcome b fs r

skip :
    (b : Best) (f : MapFeature) (fs : List MapFeature) (r : Best)
    → rank_of f ≤ℤ b.priority
    → IsOutcome b fs r
    → IsOutcome b (f ∷ fs) r
unfolding IsOutcome
skip b f fs r h (inl (e, a)) = inl (e, (h, a))
skip b f fs r h (inr o) = inr (record {
  chosen = o.chosen;
  best = record {
    before = f ∷ o.best.before;
    feature = o.best.feature;
    after = o.best.after;
    split = ap (λ gs. f ∷ gs) o.best.split;
    given = o.best.given;
    above = (omega (arith, h, o.higher), o.best.above);
    not_below = o.best.not_below;
  };
  found = o.found;
  higher = o.higher;
})

take_first :
    (b : Best) (f : MapFeature) (c : Candidate) (fs : List MapFeature) (r : Best)
    → candidate_of f ≡ some c
    → b.priority <ℤ rank (some c)
    → IsOutcome (record { candidate = some c; priority = rank (some c) }) fs r
    → IsOutcome b (f ∷ fs) r
unfolding IsOutcome
take_first b f c fs r g h (inl (e, a)) = inr (record {
  chosen = c;
  best = record {
    before = [];
    feature = f;
    after = fs;
    split = refl;
    given = g;
    above = tt;
    not_below = a;
  };
  found = ap (λ (q : Best). q.candidate) e;
  higher = h;
})
take_first b f c fs r g h (inr o) = inr (record {
  chosen = o.chosen;
  best = record {
    before = f ∷ o.best.before;
    feature = o.best.feature;
    after = o.best.after;
    split = ap (λ gs. f ∷ gs) o.best.split;
    given = o.best.given;
    above = (rw g o.higher, o.best.above);
    not_below = o.best.not_below;
  };
  found = o.found;
  higher = omega (arith, h, o.higher);
})

consider_lem :
    (b : Best) (f : MapFeature) (o : Option Candidate) (fs : List MapFeature)
    → ((q : Best) → negsuc 0 ≤ℤ q.priority → IsOutcome q fs (resolve_from q fs))
    → candidate_of f ≡ o
    → negsuc 0 ≤ℤ b.priority
    → IsOutcome b (f ∷ fs) (resolve_from (consider o b) fs)
consider_lem b f none fs rest g h = skip b f fs _ (rw g h) (rest b h)
consider_lem b f (some c) fs rest g h =
    elim (Bool-cases (leb_ℤ (pos (kind_priority c.kind)) b.priority)) [
      | inl q ↦ rw q (skip b f fs _ (rw g (ground arith)) (rest b h))
      | inr q ↦ rw q (take_first b f c fs _ g (ground arith) (rest _ (omega arith)))
    ]

resolve_from_lem :
    (b : Best) (fs : List MapFeature) → negsuc 0 ≤ℤ b.priority → IsOutcome b fs (resolve_from b fs)
unfolding IsOutcome
resolve_from_lem b [] h = inl (refl, tt)
resolve_from_lem b (f ∷ fs) h =
    consider_lem b f (candidate_of f) fs (λ q l. resolve_from_lem q fs l) refl h

no_rank :
    (fs : List MapFeature)
    → All (λ f. rank_of f ≤ℤ negsuc 0) fs
    → All (λ f. candidate_of f ≡ none) fs
no_rank [] h = tt
no_rank (f ∷ fs) h = (
  elim (Option-cases (candidate_of f)) [
    | inl e ↦ e
    | inr (c, e) ↦
        absurd (
          let low : rank (some c) ≤ℤ negsuc 0 = subst (λ o. rank o ≤ℤ negsuc 0) e h.0 in
          omega arith)
  ],
  no_rank fs h.1,
)

-- Either no feature is on an interactive layer and none is taken, or what is taken is of the first
-- feature of the highest priority, sites before assets before signals before clusters.
pub resolve_map_click_candidate_lem :
    (features : List MapFeature)
    → ((resolve_map_click_candidate features ≡ none) × All (λ f. candidate_of f ≡ none) features)
      ⊎ ((c : Candidate) × (resolve_map_click_candidate features ≡ some c) × IsFirstBest c features)
unfolding resolve_map_click_candidate IsOutcome
resolve_map_click_candidate_lem features =
    elim (resolve_from_lem no_candidate features (omega arith)) [
      | inl (e, a) ↦ inl (ap (λ (q : Best). q.candidate) e, no_rank features a)
      | inr o ↦ inr (o.chosen, o.found, o.best)
    ]
