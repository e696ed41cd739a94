-- ===== src/Api/Records.antt =====
-- The interfaces of frontend/src/api/types.ts; a nullable field is an `Option`, a number that is only
-- passed on is a `Json`.
use react_ai_healthycare.Base.{ℕ, String, Option, List}
use react_ai_healthycare.Api.Json.{Json, Fields}
use react_ai_healthycare.Api.Enums.{
  SiteStatus, Posture, ChokepointCategory, ChokepointStatus, AssetStatus, TaskPriority,
  WorkflowStatus, SignalSource, SignalType,
}

pub record Site : Type 0 where
  pub id : String
  pub name : String
  pub latitude : Json
  pub longitude : Json
  pub status : SiteStatus
  pub area_of_operation_id : Option String
  pub flagged_at : Option String
  pub flag_reason : Option String
  pub geofence_radius_km : Json
  pub created_at : String
  pub updated_at : String

pub record Asset : Type 0 where
  pub id : String
  pub name : String
  pub asset_type : String
  pub status : AssetStatus
  pub home_site_id : Option String
  pub last_reported_at : Option String
  pub created_at : String
  pub updated_at : String

pub record Task : Type 0 where
  pub id : String
  pub site_id : String
  pub asset_id : Option String
  pub title : String
  pub description : Option String
  pub priority : TaskPriority
  pub workflow_status : WorkflowStatus
  pub blocked_reason : Option String
  pub resolved_at : Option String
  pub created_at : String
  pub updated_at : String
  pub site_name : Option String
  pub ao_id : Option String
  pub ao_posture : Option Posture

pub record Assignee : Type 0 where
  pub id : String
  pub email : String
  pub role : String

pub record PlanningIncidentStub : Type 0 where
  pub id : String
  pub title : String
  pub severity : String
  pub status : String
  pub site_id : Option String
  pub ao_id : Option String
  pub assigned_to : Option Assignee

pub record PlanningAoStub : Type 0 where
  pub id : String
  pub name : String
  pub posture : Posture

pub record Chokepoint : Type 0 where
  pub id : String
  pub area_of_operation_id : String
  pub area_of_operation_name : String
  pub name : String
  pub category : ChokepointCategory
  pub status : ChokepointStatus
  pub latitude : Json
  pub longitude : Json
  pub watch_radius_km : Json
  pub notes : Option String
  pub created_by_id : String
  pub updated_by_id : String
  pub created_at : String
  pub updated_at : String

pub record CommanderIntent : Type 0 where
  pub id : String
  pub area_of_operation_id : String
  pub title : String
  pub objective : String
  pub end_state : String
  pub constraints : Option String
  pub created_by_id : String
  pub updated_by_id : String
  pub created_at : String
  pub updated_at : String

pub record PacePlan : Type 0 where
  pub id : String
  pub area_of_operation_id : String
  pub primary_plan : String
  pub alternate_plan : String
  pub contingency_plan : String
  pub emergency_plan : String
  pub notes : Option String
  pub created_by_id : String
  pub updated_by_id : String
  pub created_at : String
  pub updated_at : String

pub record AuditEvent : Type 0 where
  pub id : String
  pub schema_version : ℕ
  pub actor : String
  pub entity_type : String
  pub entity_id : String
  pub event_type : String
  pub action : Option String
  pub before_snapshot : Option Fields
  pub after_snapshot : Fields
  pub metadata : Option Fields
  pub correlation_id : String
  pub occurred_at : String

pub record PaginationMeta : Type 0 where
  pub total : ℕ
  pub page : ℕ
  pub per_page : ℕ
  pub total_pages : ℕ

pub record PaginatedResponse (T : Type 0) : Type 0 where
  pub items : List T
  pub meta : PaginationMeta

-- The numeric fields of a signal are passed on as they are, text or number.
pub record Signal : Type 0 where
  pub id : String
  pub source : SignalSource
  pub signal_type : SignalType
  pub external_id : String
  pub lat : Json
  pub lng : Json
  pub altitude : Json
  pub speed : Json
  pub heading : Json
  pub magnitude : Json
  pub raw_payload : Fields
  pub occurred_at : String
  pub ingested_at : String
