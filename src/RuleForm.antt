-- ===== src/RuleForm.antt =====
-- frontend/src/components/correlationRules/types.ts: the form in which a correlation rule is edited.
-- The form's empty signal type and empty magnitude are none. `crypto.randomUUID` is the parameter
-- `uuid`, the text its n-th call gives.
pub mod Laws
mod Tests
use react_ai_healthycare.Base.{
  ℕ, ◌+◌, suc, String, List, [], ◌∷◌, Option, none, some, Bool, true, false, non_empty, ◌or◌, map,
  length,
}
use react_ai_healthycare.Api.Json.{Json}
use react_ai_healthycare.Api.Enums.{SignalType, aircraft_position, TaskPriority, normal}
use react_ai_healthycare.Api.Rules.{
  CorrelationConditions, CompoundConditions, Operator, all_of, RuleConditions, flat, compound,
  CreateTaskAction, CorrelationActions, CorrelationRule,
}

-- `_key` is the field `key`.
pub record ConditionRow : Type 0 where
  pub key : String
  pub signal_type : Option SignalType
  pub proximity_km : ℕ
  pub magnitude_min : Option Json
  pub count_threshold : ℕ
  pub time_window_minutes : ℕ

pub data ConditionMode : Type 0 where
  simple_mode compound_mode : ConditionMode

pub record RuleFormState : Type 0 where
  pub name : String
  pub description : String
  pub is_active : Bool
  pub cooldown_minutes : ℕ
  pub task_title : String
  pub task_description : String
  pub task_priority : TaskPriority
  pub condition_mode : ConditionMode
  pub signal_type : Option SignalType
  pub proximity_km : ℕ
  pub magnitude_min : Option Json
  pub count_threshold : ℕ
  pub time_window_minutes : ℕ
  pub compound_operator : Operator
  pub compound_conditions : List ConditionRow
  pub area_of_operation_id : Option String
  pub mitre_tags : List String

-- what `buildRulePayload` returns
pub record RulePayload : Type 0 where
  pub name : String
  pub description : Option String
  pub is_active : Bool
  pub cooldown_minutes : ℕ
  pub area_of_operation_id : Option String
  pub mitre_tags : List String
  pub conditions : RuleConditions
  pub actions : CorrelationActions

abbrev pub no_create_task : CreateTaskAction
no_create_task = record { title = none; description = none; priority = none }

abbrev pub non_empty? : Option String → Option String
non_empty? none = none
non_empty? (some s) = non_empty s

-- `newCondition` without overrides
abbrev pub default_condition : String → ConditionRow
default_condition key = record {
  key = key;
  signal_type = none;
  proximity_km = 50;
  magnitude_min = none;
  count_threshold = 1;
  time_window_minutes = 60;
}

-- the row of a compound rule's condition
abbrev pub row_of : String → CorrelationConditions → ConditionRow
row_of key sub = record {
  key = key;
  signal_type = sub.signal_type;
  proximity_km = sub.proximity_km or 50;
  magnitude_min = sub.magnitude_min;
  count_threshold = sub.count_threshold or 1;
  time_window_minutes = sub.time_window_minutes or 60;
}

abbrev pub condition_of : ConditionRow → CorrelationConditions
condition_of c = record {
  signal_type = c.signal_type;
  proximity_km = some c.proximity_km;
  site_id = none;
  magnitude_min = c.magnitude_min;
  count_threshold = some c.count_threshold;
  time_window_minutes = some c.time_window_minutes;
}

module _ (uuid : ℕ → String) where
  -- `call` is the number of the next call of `crypto.randomUUID`.
  abbrev pub rows_of : ℕ → List CorrelationConditions → List ConditionRow
  rows_of call [] = []
  rows_of call (sub ∷ subs) = row_of (uuid call) sub ∷ rows_of (suc call) subs

  abbrev pub default_form : RuleFormState
  default_form = record {
    name = "";
    description = "";
    is_active = true;
    cooldown_minutes = 60;
    task_title = "";
    task_description = "";
    task_priority = normal;
    condition_mode = simple_mode;
    signal_type = some aircraft_position;
    proximity_km = 50;
    magnitude_min = none;
    count_threshold = 1;
    time_window_minutes = 10;
    compound_operator = all_of;
    compound_conditions = default_condition (uuid 0) ∷ default_condition (uuid 1) ∷ [];
    area_of_operation_id = none;
    mitre_tags = [];
  }

  -- `{ ...DEFAULT_FORM, ...base }`
  abbrev pub base_form : CorrelationRule → RuleFormState
  base_form rule =
      let a = rule.actions.create_task or no_create_task in
      record default_form {
        name = rule.name;
        description = rule.description or "";
        is_active = rule.is_active;
        cooldown_minutes = rule.cooldown_minutes;
        task_title = a.title or "";
        task_description = a.description or "";
        task_priority = a.priority or normal;
        area_of_operation_id = rule.area_of_operation_id;
        mitre_tags = rule.mitre_tags or [];
      }

  abbrev pub with_conditions : ℕ → RuleConditions → RuleFormState → RuleFormState
  with_conditions call (compound c) form = record form {
    condition_mode = compound_mode;
    compound_operator = c.operator;
    compound_conditions = rows_of call c.conditions;
  }
  with_conditions call (flat c) form = record form {
    condition_mode = simple_mode;
    signal_type = some (c.signal_type or aircraft_position);
    proximity_km = c.proximity_km or 50;
    magnitude_min = c.magnitude_min;
    count_threshold = c.count_threshold or 1;
    time_window_minutes = c.time_window_minutes or 10;
  }

  unfoldable pub rule_to_form : ℕ → CorrelationRule → RuleFormState
  rule_to_form call rule = with_conditions call rule.conditions (base_form rule)

abbrev pub payload_conditions : ConditionMode → RuleFormState → RuleConditions
payload_conditions compound_mode form = compound (record {
  operator = form.compound_operator;
  conditions = map condition_of form.compound_conditions;
})
payload_conditions simple_mode form = flat (record {
  signal_type = form.signal_type;
  proximity_km = some form.proximity_km;
  site_id = none;
  magnitude_min = form.magnitude_min;
  count_threshold = some form.count_threshold;
  time_window_minutes = some form.time_window_minutes;
})

unfoldable pub build_rule_payload : RuleFormState → RulePayload
build_rule_payload form = record {
  name = form.name;
  description = non_empty form.description;
  is_active = form.is_active;
  cooldown_minutes = form.cooldown_minutes;
  area_of_operation_id = non_empty? form.area_of_operation_id;
  mitre_tags = form.mitre_tags;
  conditions = payload_conditions form.condition_mode form;
  actions = record {
    create_task = some (record {
      title = some form.task_title;
      description = some form.task_description;
      priority = some form.task_priority;
    });
    escalate_task = none;
    flag_site = none;
  };
}
