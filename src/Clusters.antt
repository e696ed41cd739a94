-- ===== src/Clusters.antt =====
-- frontend/src/lib/mapSignalClustering.ts: the expansion of a cluster that is clicked. What the map
-- and the source of the cluster report is an event. `Number` and the zooms that are near are
-- parameters.
pub mod Laws
mod Tests
use react_ai_healthycare.Base.{
  ℕ, List, [], ◌∷◌, Option, none, some, Bool, true, false, not, if◌then◌else◌,
}
use react_ai_healthycare.Api.Json.{Json, Items, nil, cons, arr, Fields, get_field}

-- `coordinates` is none where there is no geometry, or it has none.
pub record ClusterFeature : Type 0 where
  pub properties : Fields
  pub coordinates : Option Json

-- `number` is none where `Number` gives no finite number.
module _ {N : Type 0} (number : Option Json → Option N) where
  unfoldable pub parse_cluster_id : ClusterFeature → Option N
  parse_cluster_id feature = number (get_field "cluster_id" feature.properties)

  abbrev pub pair_of : Option N → Option N → Option (N × N)
  pair_of (some lng) (some lat) = some (lng, lat)
  pair_of (some lng) none = none
  pair_of none lat = none

  abbrev pub center_in : Option Json → Option (N × N)
  center_in (some (arr (cons lng (cons lat rest)))) =
      pair_of (number (some lng)) (number (some lat))
  center_in _ = none

  unfoldable pub parse_cluster_center : ClusterFeature → Option (N × N)
  parse_cluster_center feature = center_in feature.coordinates

-- The promise waits for the zoom, then for the end of the movement, and then has its result.
pub data Phase : Type 0 where
  asking waiting : Phase
  resolved : Bool → Phase

-- `settled`, `timer` and `listening` are of the inner promise.
pub record Expansion : Type 0 where
  pub phase : Phase
  pub settled : Bool
  pub timer : Bool
  pub listening : Bool

abbrev pub begin : {N M : Type 0} → Option N → Option M → Phase
begin (some id) (some center) = asking
begin (some id) none = resolved false
begin none center = resolved false

-- To the first `await`.
unfoldable pub expand_map_signal_cluster :
    {N : Type 0} → (Option Json → Option N) → ClusterFeature → Expansion
unfolding parse_cluster_id parse_cluster_center
expand_map_signal_cluster number feature = record {
  phase = begin (parse_cluster_id number feature) (parse_cluster_center number feature);
  settled = false;
  timer = false;
  listening = false;
}

-- Resolving a promise that has its result does nothing.
abbrev pub resolve : Bool → Phase → Phase
resolve result (resolved r) = resolved r
resolve result asking = resolved result
resolve result waiting = resolved result

unfoldable pub finish : Bool → Expansion → Expansion
finish result s =
    if s.settled
    then s
    else record { phase = resolve result s.phase; settled = true; timer = false; listening = false }

-- The zoom is near, or the map is told to move, which may throw: then the promise is rejected, and
-- the timeout and the listener stay.
pub data Zoomed : Type 0 where
  near moving throwing : Zoomed

abbrev pub on_zoom : Zoomed → Phase → Expansion → Expansion
on_zoom near asking s = record s { phase = resolved true }
on_zoom moving asking s = record s { phase = waiting; timer = true; listening = true }
on_zoom throwing asking s = record s { phase = resolved false; timer = true; listening = true }
on_zoom z waiting s = s
on_zoom z (resolved r) s = s

abbrev pub on_rejected : Phase → Expansion → Expansion
on_rejected asking s = record s { phase = resolved false }
on_rejected waiting s = s
on_rejected (resolved r) s = s

pub data Event : Type 0 where
  zoom_comes : Zoomed → Event
  zoom_fails move_ends times_out : Event

unfoldable pub step : Event → Expansion → Expansion
unfolding finish
step (zoom_comes z) s = on_zoom z s.phase s
step zoom_fails s = on_rejected s.phase s
step move_ends s = if s.listening then finish true s else s
step times_out s = if s.timer then finish false (record s { timer = false }) else s

abbrev pub run : List Event → Expansion → Expansion
run [] s = s
run (e ∷ es) s = run es (step e s)
