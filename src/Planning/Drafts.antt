-- ===== src/Planning/Drafts.antt =====
-- frontend/src/lib/planningPageUtils.ts: the drafts of the doctrine forms and their comparison.
use react_ai_healthycare.Base.{String, Bool, true, false, ◌&&◌, ◌==◌, string_eq}
use react_ai_healthycare.Api.Enums.{
  ChokepointCategory, strait, canal, harbor_approach, lane_constriction, anchorage,
  ChokepointStatus, monitor, constrained, contested, closed,
}

pub record IntentDraft : Type 0 where
  pub title : String
  pub objective : String
  pub end_state : String
  pub constraints : String

pub record PaceDraft : Type 0 where
  pub primary_plan : String
  pub alternate_plan : String
  pub contingency_plan : String
  pub emergency_plan : String
  pub notes : String

pub record SaluteDraft : Type 0 where
  pub site_id : String
  pub size : String
  pub activity : String
  pub location : String
  pub unit : String
  pub observed_at : String
  pub equipment : String
  pub remarks : String

pub record ChokepointDraft : Type 0 where
  pub name : String
  pub category : ChokepointCategory
  pub status : ChokepointStatus
  pub latitude : String
  pub longitude : String
  pub watch_radius_km : String
  pub notes : String

-- `===` on the words of the two enumerations
unfoldable pub same_category : ChokepointCategory → ChokepointCategory → Bool
same_category strait strait = true
same_category canal canal = true
same_category harbor_approach harbor_approach = true
same_category lane_constriction lane_constriction = true
same_category anchorage anchorage = true
same_category _ _ = false

unfoldable pub same_status : ChokepointStatus → ChokepointStatus → Bool
same_status monitor monitor = true
same_status constrained constrained = true
same_status contested contested = true
same_status closed closed = true
same_status _ _ = false

unfoldable pub same_intent_draft : IntentDraft → IntentDraft → Bool
same_intent_draft left right =
    left.title == right.title
    && left.objective == right.objective
    && left.end_state == right.end_state
    && left.constraints == right.constraints

unfoldable pub same_pace_draft : PaceDraft → PaceDraft → Bool
same_pace_draft left right =
    left.primary_plan == right.primary_plan
    && left.alternate_plan == right.alternate_plan
    && left.contingency_plan == right.contingency_plan
    && left.emergency_plan == right.emergency_plan
    && left.notes == right.notes

unfoldable pub same_salute_draft : SaluteDraft → SaluteDraft → Bool
same_salute_draft left right =
    left.site_id == right.site_id
    && left.size == right.size
    && left.activity == right.activity
    && left.location == right.location
    && left.unit == right.unit
    && left.observed_at == right.observed_at
    && left.equipment == right.equipment
    && left.remarks == right.remarks

unfoldable pub same_chokepoint_draft : ChokepointDraft → ChokepointDraft → Bool
unfolding same_category same_status
same_chokepoint_draft left right =
    left.name == right.name
    && same_category left.category right.category
    && same_status left.status right.status
    && left.latitude == right.latitude
    && left.longitude == right.longitude
    && left.watch_radius_km == right.watch_radius_km
    && left.notes == right.notes
