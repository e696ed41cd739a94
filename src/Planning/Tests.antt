-- ===== src/Planning/Tests.antt =====
-- The laws of the planning surface on one area with one open task.
use react_ai_healthycare.Base.{
  arith, ==_iff, string_eq, String, [], ◌∷◌, none, some, false, ◌≡◌, ◌&&◌, not, is_some, truthy,
}
use react_ai_healthycare.Api.Json.{Json, null}
use react_ai_healthycare.Api.Enums.{normal, new, weapons_free, strait, monitor}
use react_ai_healthycare.Api.Records.{Task, PlanningAoStub, Chokepoint}
use react_ai_healthycare.Planning.Flags.{
  detect_double_assignments, detect_weapons_free_no_assets, double_flag, weapons_free_flag,
}
use react_ai_healthycare.Planning.FlagLaws.{
  flags_of_asset, flags_of_ao, detect_double_assignments_lem, detect_weapons_free_no_assets_lem,
}
use react_ai_healthycare.Planning.DraftState.{
  Doctrine, DraftState, initial_drafts, intent_effect, pace_effect, salute_effect,
  chokepoint_effect, intent_draft_of, pace_draft_of, empty_salute, selected_chokepoint,
  selection_effect, chokepoint_draft_of,
}
use react_ai_healthycare.Planning.DraftLaws.{shows, draft_effects_lem, selected_chokepoint_lem}

abbrev task : String → Task
task id = record {
  id = id;
  site_id = "s1";
  asset_id = some "a1";
  title = id;
  description = none;
  priority = normal;
  workflow_status = new;
  blocked_reason = none;
  resolved_at = none;
  created_at = "";
  updated_at = "";
  site_name = none;
  ao_id = some "n";
  ao_posture = some weapons_free;
}

abbrev area : PlanningAoStub
area = record { id = "n"; name = "North"; posture = weapons_free }

detect_double_assignments_example :
    flags_of_asset "a1" (detect_double_assignments (task "t1" ∷ task "t2" ∷ []))
    ≡ double_flag "a1" (task "t1" ∷ task "t2" ∷ []) ∷ []
detect_double_assignments_example =
    detect_double_assignments_lem "a1" (task "t1" ∷ task "t2" ∷ [])
      (λ e. ground (arith, e, ==_iff {A = String} "a1" ""))

detect_weapons_free_no_assets_example :
    flags_of_ao "n" (detect_weapons_free_no_assets (task "t1" ∷ []) [] (area ∷ []))
    ≡ weapons_free_flag "n" "North" ∷ []
detect_weapons_free_no_assets_example =
    detect_weapons_free_no_assets_lem "n" (task "t1" ∷ []) [] (area ∷ [])
      (λ e. ground (arith, e, ==_iff {A = String} "n" ""))

abbrev doctrine : Doctrine
doctrine = record {
  areas_of_operation = area ∷ [];
  chokepoints = [];
  commander_intents = [];
  pace_plans = [];
  sites = [];
}

abbrev strait_point : Chokepoint
strait_point = record {
  id = "c1";
  area_of_operation_id = "n";
  area_of_operation_name = "North";
  name = "Strait";
  category = strait;
  status = monitor;
  latitude = null;
  longitude = null;
  watch_radius_km = null;
  notes = none;
  created_by_id = "";
  updated_by_id = "";
  created_at = "";
  updated_at = "";
}

abbrev selecting : DraftState
selecting = record initial_drafts {
  selected_ao_id = "n";
  selected_chokepoint_id = "c1";
  pending_chokepoint = some strait_point;
}

abbrev zero_text : Json → String
zero_text n = "0"

draft_effects_example :
    (intent_effect doctrine selecting
      ≡ record selecting { intent = shows (intent_draft_of none) selecting.intent })
    × (pace_effect doctrine selecting
        ≡ record selecting { pace = shows (pace_draft_of none) selecting.pace })
    × (salute_effect "now" doctrine selecting
        ≡ record selecting { salute = shows (empty_salute "" "now") selecting.salute })
    × (chokepoint_effect zero_text zero_text doctrine selecting ≡ record selecting {
      chokepoint =
          shows
            (chokepoint_draft_of zero_text zero_text (selected_chokepoint doctrine selecting) none)
            selecting.chokepoint;
    })
draft_effects_example = draft_effects_lem zero_text zero_text "now" doctrine selecting

selected_chokepoint_example :
    ((p : Chokepoint)
      → selected_chokepoint doctrine selecting ≡ some p
      → (p.id ≡ "c1") × (p.area_of_operation_id ≡ "n"))
    × ((truthy (selection_effect doctrine selecting).selected_chokepoint_id
          && not (is_some (selected_chokepoint doctrine (selection_effect doctrine selecting))))
        ≡ false)
selected_chokepoint_example = selected_chokepoint_lem doctrine selecting
