-- ===== src/Api/Rules.antt =====
-- Correlation rules of frontend/src/api/types.ts. A wire field that may be missing or null is an
-- `Option`; `isCompoundRule` is the case distinction of `RuleConditions`.
use react_ai_healthycare.Base.{ℕ, String, Option, List, Bool, true, false}
use react_ai_healthycare.Api.Json.{Json}
use react_ai_healthycare.Api.Enums.{SignalType, TaskPriority}

pub record CorrelationConditions : Type 0 where
  pub signal_type : Option SignalType
  pub proximity_km : Option ℕ
  pub site_id : Option String
  pub magnitude_min : Option Json
  pub count_threshold : Option ℕ
  pub time_window_minutes : Option ℕ

pub data Operator : Type 0 where
  all_of any_of : Operator

pub record CompoundConditions : Type 0 where
  pub operator : Operator
  pub conditions : List CorrelationConditions

pub data RuleConditions : Type 0 where
  flat : CorrelationConditions → RuleConditions
  compound : CompoundConditions → RuleConditions

unfoldable pub is_compound_rule : RuleConditions → Bool
is_compound_rule (flat c) = false
is_compound_rule (compound c) = true

pub record CreateTaskAction : Type 0 where
  pub title : Option String
  pub description : Option String
  pub priority : Option TaskPriority

pub record EscalateTaskAction : Type 0 where
  pub title : Option String
  pub min_priority : Option TaskPriority

pub record FlagSiteAction : Type 0 where
  pub reason : Option String

pub record CorrelationActions : Type 0 where
  pub create_task : Option CreateTaskAction
  pub escalate_task : Option EscalateTaskAction
  pub flag_site : Option FlagSiteAction

pub record CorrelationRule : Type 0 where
  pub id : String
  pub name : String
  pub description : Option String
  pub is_active : Bool
  pub conditions : RuleConditions
  pub actions : CorrelationActions
  pub created_by_id : String
  pub area_of_operation_id : Option String
  pub cooldown_minutes : ℕ
  pub last_fired_at : Option String
  pub mitre_tags : Option (List String)
  pub created_at : String
  pub updated_at : String
