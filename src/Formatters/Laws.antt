-- ===== src/Formatters/Laws.antt =====
-- Readiness lies between nothing and the whole.
use native.Mathlib.Omega.{arith}
use react_ai_healthycare.Base.{
  ◌≤◌, ◌<◌, List, [], ◌∷◌, Option, none, some, ◌≡◌, refl, length-filter, not,
}
use react_ai_healthycare.Api.Records.{Task}
use react_ai_healthycare.Formatters.{is_resolved, is_blocked, Readiness, compute_readiness}

-- A fraction of at most 1, with a denominator that is not 0.
IsFraction : Option Readiness → Type 0
IsFraction none = Unit
IsFraction (some r) = (r.numerator ≤ r.denominator) × (0 < r.denominator)

compute_readiness-IsFraction : (tasks : List Task) → IsFraction (compute_readiness tasks)
unfolding compute_readiness IsFraction
compute_readiness-IsFraction [] = tt
compute_readiness-IsFraction (task ∷ tasks) =
    let all = task ∷ tasks in
    ground (arith, length-filter is_resolved all, length-filter (λ t. not (is_blocked t)) all)

-- No task, no readiness.
compute_readiness-none : (tasks : List Task) → compute_readiness tasks ≡ none → tasks ≡ []
unfolding compute_readiness
compute_readiness-none [] e = refl
compute_readiness-none (task ∷ tasks) e = ground arith
