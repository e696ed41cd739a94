-- ===== src/Clusters/Tests.antt =====
-- A cluster whose movement ends in time, and whose timeout fires late.
use react_ai_healthycare.Base.{[], ◌∷◌, Option, none, some, Bool, true, ◌≡◌, refl}
use react_ai_healthycare.Base.Int.{ℤ, pos}
use react_ai_healthycare.Clusters.{
  step, ClusterFeature, resolved, moving, zoom_comes, move_ends, times_out,
  expand_map_signal_cluster, run,
}
use react_ai_healthycare.Api.Json.{Json, int, arr, cons, nil, field, end}
use react_ai_healthycare.Clusters.Laws.{IsOver, expansion_ends}

abbrev number : Option Json → Option ℤ
number (some (int n)) = some n
number _ = none

abbrev cluster : ClusterFeature
cluster = record {
  properties = field "cluster_id" (int (pos 7)) end;
  coordinates = some (arr (cons (int (pos 1)) (cons (int (pos 2)) nil)));
}

reached :
    (run
      (zoom_comes moving ∷ move_ends ∷ times_out ∷ [])
      (expand_map_signal_cluster number cluster)).phase
    ≡ resolved true
unfolding expand_map_signal_cluster step
reached = refl

expansion_ends_example :
    let s =
      run
        (zoom_comes moving ∷ move_ends ∷ zoom_comes moving ∷ times_out ∷ [])
        (expand_map_signal_cluster number cluster) in
    IsOver s × ((r : Bool) → s.phase ≡ resolved r → (run (times_out ∷ []) s).phase ≡ resolved r)
expansion_ends_example =
    expansion_ends number cluster moving (zoom_comes moving ∷ move_ends ∷ []) (times_out ∷ [])
