-- ===== src/MapTools/State.antt =====
-- The state of useMapToolState.ts, with the points and annotations of mapPoint.ts, mapAnnotations.ts.
use react_ai_healthycare.Base.{ℕ, String, List, [], ◌∷◌, Option, none, Bool, false}
use react_ai_healthycare.Base.Int.{ℤ}

pub record MapPoint : Type 0 where
  pub lat : ℤ
  pub lng : ℤ

pub record MapAnnotation : Type 0 where
  pub id : String
  pub label : String
  pub lat : ℤ
  pub lng : ℤ

pub data RangeRingUnit : Type 0 where
  km nm : RangeRingUnit

pub record ToolState : Type 0 where
  pub annotation_mode : Bool
  pub annotations : List MapAnnotation
  pub range_ring_mode : Bool
  pub range_ring_anchor : Option MapPoint
  pub range_ring_inputs : List String
  pub range_ring_unit : RangeRingUnit
  pub sector_mode : Bool
  pub sector_anchor : Option MapPoint
  pub sector_degrees_input : String
  pub sector_arc_input : String
  pub sector_distance_input : String
  pub sector_unit : RangeRingUnit
  pub bearing_line_mode : Bool
  pub bearing_line_anchor : Option MapPoint
  pub bearing_line_degrees_input : String
  pub bearing_line_distance_input : String
  pub bearing_line_unit : RangeRingUnit
  pub measurement_mode : Bool
  pub measurement_points : List MapPoint
  pub next_annotation_id : ℕ

-- The texts that the sector and bearing-line inputs start with.
pub record Defaults : Type 0 where
  pub sector_degrees : String
  pub sector_arc : String
  pub sector_distance : String
  pub bearing_line_degrees : String
  pub bearing_line_distance : String

abbrev pub initial : Defaults → ToolState
initial d = record {
  annotation_mode = false;
  annotations = [];
  range_ring_mode = false;
  range_ring_anchor = none;
  range_ring_inputs = "5" ∷ "10" ∷ "20" ∷ [];
  range_ring_unit = nm;
  sector_mode = false;
  sector_anchor = none;
  sector_degrees_input = d.sector_degrees;
  sector_arc_input = d.sector_arc;
  sector_distance_input = d.sector_distance;
  sector_unit = nm;
  bearing_line_mode = false;
  bearing_line_anchor = none;
  bearing_line_degrees_input = d.bearing_line_degrees;
  bearing_line_distance_input = d.bearing_line_distance;
  bearing_line_unit = nm;
  measurement_mode = false;
  measurement_points = [];
  next_annotation_id = 1;
}
