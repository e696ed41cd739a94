-- ===== src/CacheEvents.antt =====
-- frontend/src/hooks/useSseEvents.ts: the queries that an event of the stream invalidates, in the
-- order of the calls, and the toast that it shows. Distances are texts; the rounded percentage of a
-- confidence is a parameter.
pub mod Laws
use Prim.Native.String
use Prim.Native.Char.{Char, code}
use react_ai_healthycare.Base.{
  ℕ, String, List, [], ◌∷◌, Option, none, some, Bool, true, false, if◌then◌else◌, ◌==◌, string_eq,
  truthy?, ◌or◌, Map, lookup, decimal, eqb,
}
use react_ai_healthycare.Api.Json.{Json}

-- `replaceAll('_', ' ')`
unfoldable pub humanize : String → String
humanize String.[] = ""
humanize (String.◌∷◌ c s) = String.◌∷◌ (if eqb (code c) 95 then " " else c) (humanize s)

abbrev pub posture_labels : Map String String
posture_labels =
    ("observe", "Observe") ∷ ("defensive", "Defensive") ∷ ("weapons_free", "Weapons Free") ∷ []

pub record Toast : Type 0 where
  pub message : String
  pub intent : String
  pub icon : String
  pub timeout : ℕ

pub record Response : Type 0 where
  pub invalidated : List (List String)
  pub toast : Option Toast

pub data ServerEvent : Type 0 where
  rule_fired : (rule_name site_name signal_type distance_km : String) → Option Json → ServerEvent
  alert_transitioned :
      (workflow_status : String) → (rule_name site_name notes : Option String) → ServerEvent
  task_created : (title priority : String) → (site_name : Option String) → ServerEvent
  task_updated site_risk_updated : ServerEvent
  task_transitioned : (title workflow_status : String) → (site_name : Option String) → ServerEvent
  geofence_breach : (site_name signal_type distance_km : String) → ServerEvent
  posture_changed : (name posture : String) → ServerEvent
  chokepoint_updated : (kind chokepoint_name area_of_operation_name : String) → ServerEvent
  planning_doctrine_updated : (kind : String) → ServerEvent
  prosecution_started prosecution_step_added : (incident_id : String) → ServerEvent
  unknown : ServerEvent

infixr 65 ◌then◌
abbrev pub ◌then◌ : String → String → String
s then t = String.◌++◌ s t

-- `x ? `${before}${x}${after}` : ''`
abbrev pub optional : (before after : String) → Option String → String
optional before after none = ""
optional before after (some x) = before then x then after

abbrev pub planning : List String
planning = "planning" ∷ []

abbrev pub tasks : List String
tasks = "tasks" ∷ []

abbrev pub readiness : List String
readiness = "readiness" ∷ []

abbrev pub risk_scores : List String
risk_scores = "risk_scores" ∷ []

abbrev pub swimlane : List String
swimlane = "analytics" ∷ "swimlane" ∷ []

-- `STATUS_ICON[status] ?? '•'`
abbrev pub alert_icons : Map String String
alert_icons =
    ("acknowledged", "👁") ∷ ("investigating", "🔍") ∷ ("closed", "✔") ∷ ("unacknowledged", "⚠") ∷ []

abbrev pub task_icons : Map String String
task_icons =
    ("resolved", "✔")
    ∷ ("blocked", "⛔")
    ∷ ("in_progress", "▶")
    ∷ ("triaged", "🔍")
    ∷ ("new", "•")
    ∷ []

abbrev pub chokepoint_labels : Map String String
chokepoint_labels = ("created", "created") ∷ ("updated", "updated") ∷ ("deleted", "deleted") ∷ []

abbrev pub doctrine_labels : Map String String
doctrine_labels =
    ("commander_intent", "Commander Intent")
    ∷ ("pace_plan", "PACE Plan")
    ∷ ("salute_report", "SALUTE Report")
    ∷ []

-- `status === one ? a : status === two ? b : c`
abbrev pub choose : (status one a two b c : String) → String
choose status one a two b c = if status == one then a else (if status == two then b else c)

module _ (percent : Json → String) where
  abbrev pub confidence_text : Option Json → String
  confidence_text none = ""
  confidence_text (some c) = " · " then percent c then "% conf"

  unfoldable pub on_event : ServerEvent → Response
  on_event (rule_fired rule_name site_name signal_type distance_km confidence) = record {
    invalidated =
        tasks
        ∷ ("signal_rule_matches" ∷ [])
        ∷ ("correlation_rules" ∷ [])
        ∷ ("sites" ∷ [])
        ∷ ("incidents" ∷ [])
        ∷ ("recommendations" ∷ [])
        ∷ risk_scores
        ∷ swimlane
        ∷ [];
    toast = some (record {
      message =
          "⚡ "
          then rule_name
          then " fired near "
          then site_name
          then " — "
          then signal_type
          then ", "
          then distance_km
          then " km"
          then confidence_text confidence;
      intent = "warning";
      icon = "lightning";
      timeout = 10000;
    });
  }
  on_event (alert_transitioned status rule_name site_name notes) = record {
    invalidated = ("signal_rule_matches" ∷ []) ∷ risk_scores ∷ swimlane ∷ [];
    toast = some (record {
      message =
          (lookup status alert_icons or "•")
          then " "
          then (rule_name or "alert")
          then optional " @ " "" (truthy? site_name)
          then " → "
          then humanize status
          then optional " — \"" "\"" (truthy? notes);
      intent = choose status "closed" "success" "investigating" "primary" "none";
      icon = choose status "closed" "tick" "investigating" "search" "eye-open";
      timeout = 6000;
    });
  }
  on_event (task_created title priority site_name) = record {
    invalidated = tasks ∷ readiness ∷ planning ∷ risk_scores ∷ swimlane ∷ [];
    toast = some (record {
      message =
          "✚ Task created: \""
          then title
          then "\""
          then optional " @ " "" (truthy? site_name)
          then " ["
          then priority
          then "]";
      intent = "success";
      icon = "tick-circle";
      timeout = 6000;
    });
  }
  on_event task_updated = record {
    invalidated = tasks ∷ readiness ∷ planning ∷ swimlane ∷ [];
    toast = none;
  }
  on_event (task_transitioned title status site_name) = record {
    invalidated = tasks ∷ readiness ∷ planning ∷ risk_scores ∷ swimlane ∷ [];
    toast = some (record {
      message =
          (lookup status task_icons or "•")
          then " \""
          then title
          then "\" → "
          then humanize status
          then optional " @ " "" (truthy? site_name);
      intent = choose status "resolved" "success" "blocked" "danger" "none";
      icon = choose status "resolved" "tick" "blocked" "ban-circle" "refresh";
      timeout = 6000;
    });
  }
  on_event (geofence_breach site_name signal_type distance_km) = record {
    invalidated = ("incidents" ∷ []) ∷ ("recommendations" ∷ []) ∷ [];
    toast = some (record {
      message =
          "⚠ Geofence breach at "
          then site_name
          then " — "
          then humanize signal_type
          then " ("
          then distance_km
          then " km)";
      intent = "warning";
      icon = "locate";
      timeout = 8000;
    });
  }
  on_event site_risk_updated = record {
    invalidated = ("sites" ∷ []) ∷ readiness ∷ swimlane ∷ [];
    toast = none;
  }
  on_event (posture_changed name posture) = record {
    invalidated = readiness ∷ ("areas_of_operation" ∷ []) ∷ ("incidents" ∷ []) ∷ planning ∷ [];
    toast = some (record {
      message =
          "🔰 " then name then ": ROE posture → " then (lookup posture posture_labels or posture);
      intent = choose posture "weapons_free" "danger" "defensive" "warning" "none";
      icon = "shield";
      timeout = 10000;
    });
  }
  on_event (chokepoint_updated kind name area) = record {
    invalidated = ("chokepoints" ∷ []) ∷ planning ∷ [];
    toast = some (record {
      message =
          "📍 Chokepoint "
          then (lookup kind chokepoint_labels or kind)
          then ": "
          then name
          then " ("
          then area
          then ")";
      intent = "primary";
      icon = "map-marker";
      timeout = 5000;
    });
  }
  on_event (planning_doctrine_updated kind) = record {
    invalidated = planning ∷ [];
    toast = some (record {
      message = "📋 " then (lookup kind doctrine_labels or kind) then " updated";
      intent = "primary";
      icon = "document";
      timeout = 5000;
    });
  }
  on_event (prosecution_started incident_id) = record {
    invalidated =
        ("incidents" ∷ incident_id ∷ [])
        ∷ ("incidents" ∷ [])
        ∷ ("prosecution-steps" ∷ incident_id ∷ [])
        ∷ [];
    toast = some (record {
      message = "⚖ Prosecution initiated";
      intent = "warning";
      icon = "shield";
      timeout = 6000;
    });
  }
  on_event (prosecution_step_added incident_id) = record {
    invalidated = ("prosecution-steps" ∷ incident_id ∷ []) ∷ ("incidents" ∷ incident_id ∷ []) ∷ [];
    toast = none;
  }
  on_event unknown = record { invalidated = []; toast = none }
