-- ===== src/MapTools/Actions.antt =====
-- A session with the tools: the callbacks that the hook returns, as the user's actions.
use react_ai_healthycare.Base.{ℕ, String, List, [], ◌∷◌}
use react_ai_healthycare.MapTools.State.{MapPoint, RangeRingUnit, ToolState}
use react_ai_healthycare.MapTools.Handlers.{
  clear_measurement, clear_annotations, update_annotation_label, remove_annotation,
  disable_annotations, clear_range_rings, update_range_ring_input, disable_range_rings,
  clear_sector, update_sector_degrees_input, update_sector_arc_input, update_sector_distance_input,
  disable_sector, clear_bearing_line, update_bearing_line_degrees_input,
  update_bearing_line_distance_input, disable_bearing_line, disable_measurement, toggle_measurement,
  toggle_annotations, toggle_range_rings, toggle_sector, toggle_bearing_line,
  handle_map_annotation_click, handle_map_range_ring_anchor_click, handle_map_sector_anchor_click,
  handle_map_bearing_line_anchor_click, handle_map_coordinate_click, set_range_ring_display_unit,
  set_sector_display_unit, set_bearing_line_display_unit,
}

pub data Tool : Type 0 where
  annotation range_ring sector bearing_line measurement : Tool

-- `place` is a click on the map while the tool is the one that takes it.
pub data Action : Type 0 where
  clear disable toggle : Tool → Action
  place : Tool → MapPoint → Action
  label : String → String → Action
  remove : String → Action
  ring_input : ℕ → String → Action
  sector_degrees sector_arc sector_distance bearing_degrees bearing_distance : String → Action
  ring_unit sector_unit bearing_unit : RangeRingUnit → Action

module _ (convert : String → RangeRingUnit → RangeRingUnit → String) where
  unfoldable pub act : ToolState → Action → ToolState
  unfolding clear_measurement clear_annotations update_annotation_label remove_annotation
      disable_annotations clear_range_rings update_range_ring_input disable_range_rings clear_sector
      update_sector_degrees_input update_sector_arc_input update_sector_distance_input
      disable_sector clear_bearing_line update_bearing_line_degrees_input
      update_bearing_line_distance_input disable_bearing_line disable_measurement toggle_measurement
      toggle_annotations toggle_range_rings toggle_sector toggle_bearing_line
      handle_map_annotation_click handle_map_range_ring_anchor_click handle_map_sector_anchor_click
      handle_map_bearing_line_anchor_click handle_map_coordinate_click set_range_ring_display_unit
      set_sector_display_unit set_bearing_line_display_unit
  act s (clear annotation) = clear_annotations s
  act s (clear range_ring) = clear_range_rings s
  act s (clear sector) = clear_sector s
  act s (clear bearing_line) = clear_bearing_line s
  act s (clear measurement) = clear_measurement s
  act s (disable annotation) = disable_annotations s
  act s (disable range_ring) = disable_range_rings s
  act s (disable sector) = disable_sector s
  act s (disable bearing_line) = disable_bearing_line s
  act s (disable measurement) = disable_measurement s
  act s (toggle annotation) = toggle_annotations s
  act s (toggle range_ring) = toggle_range_rings s
  act s (toggle sector) = toggle_sector s
  act s (toggle bearing_line) = toggle_bearing_line s
  act s (toggle measurement) = toggle_measurement s
  act s (place annotation p) = handle_map_annotation_click p s
  act s (place range_ring p) = handle_map_range_ring_anchor_click p s
  act s (place sector p) = handle_map_sector_anchor_click p s
  act s (place bearing_line p) = handle_map_bearing_line_anchor_click p s
  act s (place measurement p) = handle_map_coordinate_click p s
  act s (label i l) = update_annotation_label i l s
  act s (remove i) = remove_annotation i s
  act s (ring_input i v) = update_range_ring_input i v s
  act s (sector_degrees v) = update_sector_degrees_input v s
  act s (sector_arc v) = update_sector_arc_input v s
  act s (sector_distance v) = update_sector_distance_input v s
  act s (bearing_degrees v) = update_bearing_line_degrees_input v s
  act s (bearing_distance v) = update_bearing_line_distance_input v s
  act s (ring_unit u) = set_range_ring_display_unit convert u s
  act s (sector_unit u) = set_sector_display_unit convert u s
  act s (bearing_unit u) = set_bearing_line_display_unit convert u s

  unfoldable pub run : ToolState → List Action → ToolState
  run s [] = s
  run s (a ∷ actions) = run (act s a) actions
