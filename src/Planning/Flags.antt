-- ===== src/Planning/Flags.antt =====
-- frontend/src/utils/planningFlags.ts: the three detectors.
use Prim.Native.String
use react_ai_healthycare.Base.{
  String, List, [], ◌∷◌, ◌++◌, map, Option, none, some, Bool, true, false, not, ◌&&◌, ◌||◌,
  if◌then◌else◌, ◌==◌, string_eq, truthy?, filter, any, length, ltb, decimal, Map, lookup, ◌or◌,
  is_some, group_from, map_by,
}
use react_ai_healthycare.Api.Enums.{
  WorkflowStatus, resolved, AssetStatus, available, assigned, Posture, weapons_free,
}
use react_ai_healthycare.Api.Records.{Task, Asset, PlanningIncidentStub, PlanningAoStub}

pub data FlagType : Type 0 where
  double_assigned weapons_free_no_assets critical_unassigned : FlagType

-- `type` is the field `kind`; an optional field is none where it is left out.
pub record OvercommitmentFlag : Type 0 where
  pub kind : FlagType
  pub label : String
  pub asset_id : Option String
  pub asset_name : Option String
  pub ao_id : Option String
  pub ao_name : Option String
  pub incident_id : Option String

abbrev pub is_resolved : WorkflowStatus → Bool
is_resolved resolved = true
is_resolved _ = false

abbrev pub is_weapons_free : Option Posture → Bool
is_weapons_free (some weapons_free) = true
is_weapons_free _ = false

-- texts joined by `sep`, each quoted
unfoldable pub quoted : List String → String
quoted [] = ""
quoted (t ∷ []) = String.◌++◌ "\"" (String.◌++◌ t "\"")
quoted (t ∷ u ∷ ts) = String.◌++◌ "\"" (String.◌++◌ t (String.◌++◌ "\", " (quoted (u ∷ ts))))

-- the key of a task in the first loop, none where the loop goes on
abbrev pub assignment_key : Task → Option String
assignment_key t = if is_resolved t.workflow_status then none else truthy? t.asset_id

abbrev pub double_flag : String → List Task → OvercommitmentFlag
double_flag asset_id tasks = record {
  kind = double_assigned;
  label = String.◌++◌ "Asset double-assigned: appears on " (
      String.◌++◌ (decimal (length tasks))
        (String.◌++◌ " open tasks (" (String.◌++◌ (quoted (map (λ t. t.title) tasks)) ")")));
  asset_id = some asset_id;
  asset_name = none;
  ao_id = none;
  ao_name = none;
  incident_id = none;
}

-- the second loop, over the entries of the map
unfoldable pub double_flags : Map String (List Task) → List OvercommitmentFlag
unfolding quoted
double_flags [] = []
double_flags ((asset_id, tasks) ∷ m) =
    if ltb 1 (length tasks) then double_flag asset_id tasks ∷ double_flags m else double_flags m

abbrev pub push_last : Task → List Task → List Task
push_last t ts = ts ++ t ∷ []

unfoldable pub detect_double_assignments : List Task → List OvercommitmentFlag
unfolding double_flags
detect_double_assignments tasks =
    double_flags (group_from assignment_key (λ k. []) push_last [] tasks)

pub record AoEntry : Type 0 where
  pub ao_name : String
  pub tasks : List Task

abbrev pub weapons_free_key : Task → Option String
weapons_free_key t =
    if is_resolved t.workflow_status || not (is_weapons_free t.ao_posture)
    then none
    else truthy? t.ao_id

abbrev pub push_task : Task → AoEntry → AoEntry
push_task t e = record e { tasks = e.tasks ++ t ∷ [] }

abbrev pub is_committed : AssetStatus → Bool
is_committed available = true
is_committed assigned = true
is_committed _ = false

-- the test of `aoTaskList.some`
abbrev pub is_covered : Map String Asset → Task → Bool
is_covered asset_by_id t = elim (truthy? t.asset_id) [
  | none ↦ false
  | some a ↦ elim (lookup a asset_by_id) [ none ↦ false | some asset ↦ is_committed asset.status ]
]

abbrev pub weapons_free_flag : String → String → OvercommitmentFlag
weapons_free_flag ao name = record {
  kind = weapons_free_no_assets;
  label =
      String.◌++◌ "Weapons Free AO \""
        (String.◌++◌ name "\" has no available asset assigned to any open task");
  asset_id = none;
  asset_name = none;
  ao_id = some ao;
  ao_name = some name;
  incident_id = none;
}

unfoldable pub weapons_free_flags : Map String Asset → Map String AoEntry → List OvercommitmentFlag
weapons_free_flags asset_by_id [] = []
weapons_free_flags asset_by_id ((ao, e) ∷ m) =
    if any (is_covered asset_by_id) e.tasks
    then weapons_free_flags asset_by_id m
    else weapons_free_flag ao e.ao_name ∷ weapons_free_flags asset_by_id m

abbrev pub new_entry : Map String String → String → AoEntry
new_entry ao_name_by_id ao = record { ao_name = lookup ao ao_name_by_id or ao; tasks = [] }

unfoldable pub detect_weapons_free_no_assets :
    List Task → List Asset → List PlanningAoStub → List OvercommitmentFlag
unfolding weapons_free_flags
detect_weapons_free_no_assets tasks assets areas =
    let asset_by_id = map_by (λ (a : Asset). a.id) (λ a. a) assets in
    let ao_name_by_id = map_by (λ (ao : PlanningAoStub). ao.id) (λ ao. ao.name) areas in
    weapons_free_flags asset_by_id
      (group_from weapons_free_key (new_entry ao_name_by_id) push_task [] tasks)

-- The severity with its first letter in upper case; the filter lets two severities through.
abbrev severity_word : String → String
severity_word severity = if severity == "critical" then "Critical" else "High"

abbrev pub is_unassigned_critical : PlanningIncidentStub → Bool
is_unassigned_critical i =
    (i.severity == "critical" || i.severity == "high")
    && not (is_some i.assigned_to)
    && not (i.status == "resolved")

abbrev pub critical_flag : PlanningIncidentStub → OvercommitmentFlag
critical_flag i = record {
  kind = critical_unassigned;
  label =
      String.◌++◌ (severity_word i.severity)
        (String.◌++◌ " incident \"" (String.◌++◌ i.title "\" has no assigned operator"));
  asset_id = none;
  asset_name = none;
  ao_id = none;
  ao_name = none;
  incident_id = some i.id;
}

unfoldable pub detect_critical_unassigned : List PlanningIncidentStub → List OvercommitmentFlag
detect_critical_unassigned incidents = map critical_flag (filter is_unassigned_critical incidents)

unfoldable pub compute_flags :
    List Task
    → List Asset
    → List PlanningIncidentStub
    → List PlanningAoStub
    → List OvercommitmentFlag
unfolding detect_double_assignments detect_weapons_free_no_assets detect_critical_unassigned
compute_flags tasks assets incidents areas =
    detect_double_assignments tasks
    ++ (detect_weapons_free_no_assets tasks assets areas ++ detect_critical_unassigned incidents)
