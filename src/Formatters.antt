-- ===== src/Formatters.antt =====
-- frontend/src/lib/formatters.ts: relative times and readiness. Instants are whole milliseconds, a
-- readiness is in tenths of the number of tasks.
pub mod Laws
use Prim.Native.String
use react_ai_healthycare.Base.{
  ℕ, zero, suc, ◌+◌, ◌*◌, ◌/◌, ◌%◌, String, List, [], ◌∷◌, Option, none, some, Bool, true, false,
  if◌then◌else◌, ltb, length, filter, decimal, not,
}
use react_ai_healthycare.Base.Int.{ℤ, pos, negsuc, ◌-ℤ◌}
use react_ai_healthycare.Api.Enums.{WorkflowStatus, resolved, blocked}
use react_ai_healthycare.Api.Records.{Task}

abbrev pub seconds_text : ℕ → String
seconds_text seconds =
    if ltb seconds 60
    then String.◌++◌ (decimal seconds) "s ago"
    else (if ltb (seconds / 60) 60
        then String.◌++◌ (decimal (seconds / 60)) "m ago"
        else (if ltb (seconds / 60 / 60) 24
            then String.◌++◌ (decimal (seconds / 60 / 60))
                (String.◌++◌ "h " (String.◌++◌ (decimal (seconds / 60 % 60)) "m ago"))
            else String.◌++◌ (decimal (seconds / 60 / 60 / 24)) "d ago"))

abbrev pub elapsed_text : ℤ → String
elapsed_text (negsuc n) = "just now"
elapsed_text (pos ms) = seconds_text (ms / 1000)

module _ (parse : String → ℤ) where
  unfoldable pub time_ago : String → ℤ → String
  time_ago iso now = elapsed_text (now -ℤ parse iso)

abbrev pub is_resolved : Task → Bool
is_resolved task = elim task.workflow_status [ resolved ↦ true | _ ↦ false ]

abbrev pub is_blocked : Task → Bool
is_blocked task = elim task.workflow_status [ blocked ↦ true | _ ↦ false ]

-- (6 * resolved + 4 * not blocked) / (10 * total), as numerator and denominator
pub record Readiness : Type 0 where
  pub numerator : ℕ
  pub denominator : ℕ

unfoldable pub compute_readiness : List Task → Option Readiness
compute_readiness [] = none
compute_readiness (task ∷ tasks) =
    let all = task ∷ tasks in
    some (record {
      numerator =
          length (filter is_resolved all) * 6 + length (filter (λ t. not (is_blocked t)) all) * 4;
      denominator = length all * 10;
    })
