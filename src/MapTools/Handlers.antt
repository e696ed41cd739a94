-- ===== src/MapTools/Handlers.antt =====
-- The callbacks of useMapToolState.ts, one function each.
use Prim.Native.String
use react_ai_healthycare.Base.{
  ℕ, suc, zero, ◌+◌, String, List, [], ◌∷◌, ◌++◌, none, some, true, false, not, map, if◌then◌else◌,
  ◌==◌, string_eq, filter, length, leb, decimal,
}
use react_ai_healthycare.MapTools.State.{MapPoint, MapAnnotation, RangeRingUnit, ToolState}

abbrev pub annotation_id : ℕ → String
annotation_id n = String.◌++◌ "annotation-" (decimal n)

unfoldable pub clear_measurement : ToolState → ToolState
clear_measurement s = record s { measurement_points = [] }

unfoldable pub clear_annotations : ToolState → ToolState
clear_annotations s = record s { next_annotation_id = 1; annotations = [] }

abbrev pub relabel : String → String → List MapAnnotation → List MapAnnotation
relabel i l = map (λ a. if a.id == i then record a { label = l } else a)

unfoldable pub update_annotation_label : String → String → ToolState → ToolState
update_annotation_label i l s = record s { annotations = relabel i l s.annotations }

abbrev pub without : String → List MapAnnotation → List MapAnnotation
without i = filter (λ a. not (a.id == i))

unfoldable pub remove_annotation : String → ToolState → ToolState
remove_annotation i s = record s { annotations = without i s.annotations }

unfoldable pub disable_annotations : ToolState → ToolState
disable_annotations s = record s { annotation_mode = false }

unfoldable pub clear_range_rings : ToolState → ToolState
clear_range_rings s = record s { range_ring_anchor = none }

-- `previous.map((input, i) => i === index ? value : input)`
unfoldable pub replace_at : ℕ → String → List String → List String
replace_at i v [] = []
replace_at zero v (x ∷ xs) = v ∷ xs
replace_at (suc i) v (x ∷ xs) = x ∷ replace_at i v xs

unfoldable pub update_range_ring_input : ℕ → String → ToolState → ToolState
unfolding replace_at
update_range_ring_input i v s = record s { range_ring_inputs = replace_at i v s.range_ring_inputs }

unfoldable pub disable_range_rings : ToolState → ToolState
disable_range_rings s = record s { range_ring_mode = false }

unfoldable pub clear_sector : ToolState → ToolState
clear_sector s = record s { sector_anchor = none }

unfoldable pub update_sector_degrees_input : String → ToolState → ToolState
update_sector_degrees_input v s = record s { sector_degrees_input = v }

unfoldable pub update_sector_arc_input : String → ToolState → ToolState
update_sector_arc_input v s = record s { sector_arc_input = v }

unfoldable pub update_sector_distance_input : String → ToolState → ToolState
update_sector_distance_input v s = record s { sector_distance_input = v }

unfoldable pub disable_sector : ToolState → ToolState
disable_sector s = record s { sector_mode = false }

unfoldable pub clear_bearing_line : ToolState → ToolState
clear_bearing_line s = record s { bearing_line_anchor = none }

unfoldable pub update_bearing_line_degrees_input : String → ToolState → ToolState
update_bearing_line_degrees_input v s = record s { bearing_line_degrees_input = v }

unfoldable pub update_bearing_line_distance_input : String → ToolState → ToolState
update_bearing_line_distance_input v s = record s { bearing_line_distance_input = v }

unfoldable pub disable_bearing_line : ToolState → ToolState
disable_bearing_line s = record s { bearing_line_mode = false }

unfoldable pub disable_measurement : ToolState → ToolState
disable_measurement s = record s { measurement_mode = false; measurement_points = [] }

unfoldable pub toggle_measurement : ToolState → ToolState
unfolding disable_measurement disable_range_rings disable_annotations disable_sector
    disable_bearing_line
toggle_measurement s =
    if s.measurement_mode
    then disable_measurement s
    else disable_bearing_line (
        disable_sector (
          disable_annotations
            (disable_range_rings (record s { measurement_mode = true; measurement_points = [] }))))

unfoldable pub toggle_annotations : ToolState → ToolState
unfolding disable_measurement disable_range_rings disable_annotations disable_sector
    disable_bearing_line
toggle_annotations s =
    if s.annotation_mode
    then disable_annotations s
    else (let t =
          disable_bearing_line (disable_sector (disable_range_rings (disable_measurement s))) in
        record t { annotation_mode = true })

unfoldable pub toggle_range_rings : ToolState → ToolState
unfolding disable_measurement disable_range_rings disable_annotations disable_sector
    disable_bearing_line
toggle_range_rings s =
    if s.range_ring_mode
    then disable_range_rings s
    else (let t =
          disable_bearing_line (disable_sector (disable_annotations (disable_measurement s))) in
        record t { range_ring_mode = true })

unfoldable pub toggle_sector : ToolState → ToolState
unfolding disable_measurement disable_range_rings disable_annotations disable_sector
    disable_bearing_line
toggle_sector s =
    if s.sector_mode
    then disable_sector s
    else (let t =
          disable_bearing_line
            (disable_range_rings (disable_annotations (disable_measurement s))) in
        record t { sector_mode = true })

unfoldable pub toggle_bearing_line : ToolState → ToolState
unfolding disable_measurement disable_range_rings disable_annotations disable_sector
    disable_bearing_line
toggle_bearing_line s =
    if s.bearing_line_mode
    then disable_bearing_line s
    else (let t =
          disable_sector (disable_range_rings (disable_annotations (disable_measurement s))) in
        record t { bearing_line_mode = true })

unfoldable pub handle_map_annotation_click : MapPoint → ToolState → ToolState
handle_map_annotation_click p s =
    let next_id = s.next_annotation_id in
    record s {
      next_annotation_id = next_id + 1;
      annotations =
          s.annotations
          ++ record {
            id = annotation_id next_id;
            label = String.◌++◌ "Mark " (decimal next_id);
            lat = p.lat;
            lng = p.lng;
          }
            ∷ [];
    }

unfoldable pub handle_map_range_ring_anchor_click : MapPoint → ToolState → ToolState
handle_map_range_ring_anchor_click p s = record s { range_ring_anchor = some p }

unfoldable pub handle_map_sector_anchor_click : MapPoint → ToolState → ToolState
handle_map_sector_anchor_click p s = record s { sector_anchor = some p }

unfoldable pub handle_map_bearing_line_anchor_click : MapPoint → ToolState → ToolState
handle_map_bearing_line_anchor_click p s = record s { bearing_line_anchor = some p }

unfoldable pub handle_map_coordinate_click : MapPoint → ToolState → ToolState
handle_map_coordinate_click p s = record s {
  measurement_points =
      if leb 2 (length s.measurement_points) then p ∷ [] else s.measurement_points ++ p ∷ [];
}

-- `setRangeRingDisplayUnit` and its two siblings rewrite an input by `convertRangeRingInputValue` of
-- mapRangeRings.ts, which computes and prints floating-point numbers: a parameter here.
module _ (convert : String → RangeRingUnit → RangeRingUnit → String) where
  unfoldable pub set_range_ring_display_unit : RangeRingUnit → ToolState → ToolState
  set_range_ring_display_unit u s = record s {
    range_ring_inputs = map (λ v. convert v s.range_ring_unit u) s.range_ring_inputs;
    range_ring_unit = u;
  }

  unfoldable pub set_sector_display_unit : RangeRingUnit → ToolState → ToolState
  set_sector_display_unit u s = record s {
    sector_distance_input = convert s.sector_distance_input s.sector_unit u;
    sector_unit = u;
  }

  unfoldable pub set_bearing_line_display_unit : RangeRingUnit → ToolState → ToolState
  set_bearing_line_display_unit u s = record s {
    bearing_line_distance_input = convert s.bearing_line_distance_input s.bearing_line_unit u;
    bearing_line_unit = u;
  }
