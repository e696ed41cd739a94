-- ===== src/MapTools/Tests.antt =====
-- The laws of the drawing tools on short sessions.
use react_ai_healthycare.Base.{String, List, [], ◌∷◌, ◌≤◌, length}
use react_ai_healthycare.Base.Int.{pos}
use react_ai_healthycare.MapTools.State.{MapPoint, RangeRingUnit, Defaults, initial}
use react_ai_healthycare.MapTools.Actions.{Action, annotation, measurement, toggle, place, run}
use react_ai_healthycare.MapTools.Modes.{IsExclusive, run-initial-IsExclusive}
use react_ai_healthycare.MapTools.Annotations.{HasDistinctIds, run-initial-distinct}

abbrev defaults : Defaults
defaults = record {
  sector_degrees = "45";
  sector_arc = "60";
  sector_distance = "20";
  bearing_line_degrees = "45";
  bearing_line_distance = "20";
}

-- A conversion that leaves each text as it is.
abbrev kept : String → RangeRingUnit → RangeRingUnit → String
kept text old new = text

abbrev point : MapPoint
point = record { lat = pos 51; lng = pos 0 }

abbrev session : List Action
session =
    toggle annotation
    ∷ place annotation point
    ∷ place annotation point
    ∷ toggle measurement
    ∷ place measurement point
    ∷ []

run-initial-IsExclusive_example : IsExclusive (run kept (initial defaults) session)
run-initial-IsExclusive_example = run-initial-IsExclusive kept defaults session

run-initial-distinct_example :
    HasDistinctIds (run kept (initial defaults) session).annotations
    × (length (run kept (initial defaults) session).measurement_points ≤ 2)
run-initial-distinct_example = run-initial-distinct kept defaults session
