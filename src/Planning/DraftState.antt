-- ===== src/Planning/DraftState.antt =====
-- frontend/src/hooks/usePlanningDrafts.ts: the state of the doctrine forms, one function per effect and
-- handler. The inputs of the hook are the record `Doctrine`. Parameters: `number_text` is `String` on
-- a number, `site_text` is `String(Number(…))`, `observed_at` what `makeDefaultObservedAt` gives.
use react_ai_healthycare.Base.{
  String, List, [], ◌∷◌, Option, none, some, Bool, ◌&&◌, ◌||◌, not, if◌then◌else◌, ◌==◌, string_eq,
  is_value, is_some, filter, any, find?, head?, lookup, map_by, ◌or◌, ◌or_else◌, truthy,
}
use react_ai_healthycare.Api.Json.{Json}
use react_ai_healthycare.Api.Enums.{strait, monitor}
use react_ai_healthycare.Api.Records.{Site, PlanningAoStub, Chokepoint, CommanderIntent, PacePlan}
use react_ai_healthycare.Planning.Drafts.{
  IntentDraft, PaceDraft, SaluteDraft, ChokepointDraft, same_intent_draft, same_pace_draft,
  same_salute_draft, same_chokepoint_draft,
}

-- `UsePlanningDraftsInput`
pub record Doctrine : Type 0 where
  pub areas_of_operation : List PlanningAoStub
  pub chokepoints : List Chokepoint
  pub commander_intents : List CommanderIntent
  pub pace_plans : List PacePlan
  pub sites : List Site

-- A form: its draft, its error and its notice.
pub record Form (D : Type 0) : Type 0 where
  pub draft : D
  pub error : Option String
  pub notice : Option String

pub record DraftState : Type 0 where
  pub selected_ao_id : String
  pub intent : Form IntentDraft
  pub pace : Form PaceDraft
  pub salute : Form SaluteDraft
  pub selected_chokepoint_id : String
  pub pending_chokepoint : Option Chokepoint
  pub chokepoint : Form ChokepointDraft

abbrev pub new_form : {D : Type 0} → D → Form D
new_form d = record { draft = d; error = none; notice = none }

abbrev pub empty_salute : String → String → SaluteDraft
empty_salute site_id observed_at = record {
  site_id = site_id;
  size = "";
  activity = "";
  location = "";
  unit = "";
  observed_at = observed_at;
  equipment = "";
  remarks = "";
}

-- the initial values of the `useState` calls
abbrev pub initial_drafts : DraftState
initial_drafts = record {
  selected_ao_id = "";
  intent = new_form (record { title = ""; objective = ""; end_state = ""; constraints = "" });
  pace = new_form (record {
    primary_plan = "";
    alternate_plan = "";
    contingency_plan = "";
    emergency_plan = "";
    notes = "";
  });
  salute = new_form (empty_salute "" "");
  selected_chokepoint_id = "";
  pending_chokepoint = none;
  chokepoint = new_form (record {
    name = "";
    category = strait;
    status = monitor;
    latitude = "";
    longitude = "";
    watch_radius_km = "25";
    notes = "";
  });
}

abbrev pub has_area : String → List PlanningAoStub → Bool
has_area a = any (λ ao. ao.id == a)

-- the update of `selectedDoctrineAoId`
abbrev pub choose_ao : List PlanningAoStub → String → String
choose_ao [] current = ""
choose_ao (ao ∷ aos) current =
    if not (truthy ao.id)
    then ""
    else if truthy current && has_area current (ao ∷ aos)
    then current
    else ao.id

unfoldable pub ao_effect : Doctrine → DraftState → DraftState
ao_effect d s = record s { selected_ao_id = choose_ao d.areas_of_operation s.selected_ao_id }

abbrev pub selected_commander_intent : Doctrine → String → Option CommanderIntent
selected_commander_intent d ao =
    if truthy ao
    then lookup ao (map_by (λ i. i.area_of_operation_id) (λ i. i) d.commander_intents)
    else none

abbrev pub selected_pace_plan : Doctrine → String → Option PacePlan
selected_pace_plan d ao =
    if truthy ao
    then lookup ao (map_by (λ p. p.area_of_operation_id) (λ p. p) d.pace_plans)
    else none

abbrev pub doctrine_sites : Doctrine → String → List Site
doctrine_sites d ao = filter (λ site. is_value site.area_of_operation_id ao) d.sites

abbrev pub doctrine_chokepoints : Doctrine → String → List Chokepoint
doctrine_chokepoints d ao = filter (λ point. point.area_of_operation_id == ao) d.chokepoints

abbrev pub first_site_id : Option Site → String
first_site_id none = ""
first_site_id (some site) = site.id

abbrev pub intent_draft_of : Option CommanderIntent → IntentDraft
intent_draft_of none = record { title = ""; objective = ""; end_state = ""; constraints = "" }
intent_draft_of (some i) = record {
  title = i.title;
  objective = i.objective;
  end_state = i.end_state;
  constraints = i.constraints or "";
}

abbrev pub pace_draft_of : Option PacePlan → PaceDraft
pace_draft_of none = record {
  primary_plan = "";
  alternate_plan = "";
  contingency_plan = "";
  emergency_plan = "";
  notes = "";
}
pace_draft_of (some p) = record {
  primary_plan = p.primary_plan;
  alternate_plan = p.alternate_plan;
  contingency_plan = p.contingency_plan;
  emergency_plan = p.emergency_plan;
  notes = p.notes or "";
}

-- `setDraft(current => (same(current, next) ? current : next)); setError(null)`
abbrev pub sync_form : {D : Type 0} → (D → D → Bool) → D → Form D → Form D
sync_form same next f = record f {
  draft = if same f.draft next then f.draft else next;
  error = none;
}

unfoldable pub intent_effect : Doctrine → DraftState → DraftState
unfolding same_intent_draft
intent_effect d s =
    let next = intent_draft_of (selected_commander_intent d s.selected_ao_id) in
    record s { intent = sync_form same_intent_draft next s.intent }

unfoldable pub pace_effect : Doctrine → DraftState → DraftState
unfolding same_pace_draft
pace_effect d s =
    let next = pace_draft_of (selected_pace_plan d s.selected_ao_id) in
    record s { pace = sync_form same_pace_draft next s.pace }

unfoldable pub salute_effect : String → Doctrine → DraftState → DraftState
unfolding same_salute_draft
salute_effect observed_at d s =
    let next =
      empty_salute (first_site_id (head? (doctrine_sites d s.selected_ao_id))) observed_at in
    record s { salute = sync_form same_salute_draft next s.salute }

-- `resetSaluteDraft`
unfoldable pub reset_salute_draft : String → Doctrine → DraftState → DraftState
reset_salute_draft observed_at d s =
    let next =
      empty_salute (first_site_id (head? (doctrine_sites d s.selected_ao_id))) observed_at in
    record s { salute = record s.salute { draft = next } }

-- the pending chokepoint, if it is the selected one and of the selected area
abbrev pub pending_match : String → DraftState → Option Chokepoint
pending_match id s = elim s.pending_chokepoint [
  | none ↦ none
  | some p ↦ if p.id == id && p.area_of_operation_id == s.selected_ao_id then some p else none
]

-- `selectedChokepoint`
unfoldable pub selected_chokepoint : Doctrine → DraftState → Option Chokepoint
selected_chokepoint d s =
    find? (λ point. point.id == s.selected_chokepoint_id) (doctrine_chokepoints d s.selected_ao_id)
    or_else pending_match s.selected_chokepoint_id s

abbrev pub is_listed : String → Doctrine → DraftState → Bool
is_listed id d s = any (λ point. point.id == id) (doctrine_chokepoints d s.selected_ao_id)

-- the effect that keeps the selection, or clears it
unfoldable pub selection_effect : Doctrine → DraftState → DraftState
selection_effect d s =
    let current = s.selected_chokepoint_id in
    record s {
      selected_chokepoint_id =
          if truthy current && (is_listed current d s || is_some (pending_match current s))
          then current
          else "";
    }

-- the effect that drops the pending chokepoint
unfoldable pub pending_effect : Doctrine → DraftState → DraftState
pending_effect d s = elim s.pending_chokepoint [
  | none ↦ s
  | some p ↦
      if not (p.area_of_operation_id == s.selected_ao_id) || is_listed p.id d s
      then record s { pending_chokepoint = none }
      else s
]

module _ (number_text site_text : Json → String) where
  abbrev pub chokepoint_draft_of : Option Chokepoint → Option Site → ChokepointDraft
  chokepoint_draft_of (some p) site = record {
    name = p.name;
    category = p.category;
    status = p.status;
    latitude = number_text p.latitude;
    longitude = number_text p.longitude;
    watch_radius_km = number_text p.watch_radius_km;
    notes = p.notes or "";
  }
  chokepoint_draft_of none none = initial_drafts.chokepoint.draft
  chokepoint_draft_of none (some site) = record initial_drafts.chokepoint.draft {
    latitude = site_text site.latitude;
    longitude = site_text site.longitude;
  }

  unfoldable pub chokepoint_effect : Doctrine → DraftState → DraftState
  unfolding same_chokepoint_draft selected_chokepoint
  chokepoint_effect d s =
      let next =
        chokepoint_draft_of (selected_chokepoint d s) (head? (doctrine_sites d s.selected_ao_id)) in
      record s { chokepoint = sync_form same_chokepoint_draft next s.chokepoint }

-- `handleDoctrineAoChange`
unfoldable pub handle_doctrine_ao_change : String → DraftState → DraftState
handle_doctrine_ao_change ao s = record s {
  selected_ao_id = ao;
  pending_chokepoint = none;
  intent = record s.intent { notice = none };
  pace = record s.pace { notice = none };
  salute = record s.salute { notice = none };
  chokepoint = record s.chokepoint { notice = none };
}
