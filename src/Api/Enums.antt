-- ===== src/Api/Enums.antt =====
-- The closed sets of words of frontend/src/api/types.ts.
pub data SiteStatus : Type 0 where
  active inactive : SiteStatus

pub data Posture : Type 0 where
  observe defensive weapons_free : Posture

pub data ChokepointCategory : Type 0 where
  strait canal harbor_approach lane_constriction anchorage : ChokepointCategory

pub data ChokepointStatus : Type 0 where
  monitor constrained contested closed : ChokepointStatus

pub data AssetStatus : Type 0 where
  available assigned degraded offline : AssetStatus

pub data TaskPriority : Type 0 where
  low normal high critical : TaskPriority

pub data WorkflowStatus : Type 0 where
  new triaged in_progress blocked resolved : WorkflowStatus

pub data SignalSource : Type 0 where
  opensky ais usgs_seismic gpsjam firms_wildfire manual derived acled gdacs : SignalSource

pub data SignalType : Type 0 where
  aircraft_position vessel_position seismic_event gps_jamming wildfire : SignalType
  ais_gap manual conflict_event disaster_alert : SignalType
