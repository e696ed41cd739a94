-- ===== src/MapTools/Modes.antt =====
-- The five tools exclude one another.
use react_ai_healthycare.Base.{
  ℕ, ◌+◌, ◌≤◌, ◌≡◌, String, List, [], ◌∷◌, Bool, true, false, not, arith,
}
use react_ai_healthycare.MapTools.State.{RangeRingUnit, ToolState, Defaults, initial}
use react_ai_healthycare.MapTools.Actions.{
  Tool, annotation, range_ring, sector, bearing_line, measurement, Action, clear, disable, toggle,
  place, act, run,
}

abbrev pub mode_of : Tool → ToolState → Bool
mode_of annotation s = s.annotation_mode
mode_of range_ring s = s.range_ring_mode
mode_of sector s = s.sector_mode
mode_of bearing_line s = s.bearing_line_mode
mode_of measurement s = s.measurement_mode

abbrev one_if : Bool → ℕ
one_if true = 1
one_if false = 0

abbrev pub active_modes : ToolState → ℕ
active_modes s =
    one_if s.annotation_mode
    + one_if s.range_ring_mode
    + one_if s.sector_mode
    + one_if s.bearing_line_mode
    + one_if s.measurement_mode

abbrev pub IsExclusive : ToolState → Type 0
IsExclusive s = active_modes s ≤ 1

module _ (convert : String → RangeRingUnit → RangeRingUnit → String) where
  act-IsExclusive : (s : ToolState) (a : Action) → IsExclusive s → IsExclusive (act convert s a)
  unfolding act
  act-IsExclusive s (clear t) h = ground arith
  act-IsExclusive s (disable t) h = ground arith
  act-IsExclusive s (toggle t) h = ground arith
  act-IsExclusive s (place t p) h = ground arith
  act-IsExclusive s a h = ground arith

  run-IsExclusive :
      (s : ToolState) (actions : List Action) → IsExclusive s → IsExclusive (run convert s actions)
  unfolding run
  run-IsExclusive s [] h = h
  run-IsExclusive s (a ∷ actions) h =
      run-IsExclusive (act convert s a) actions (act-IsExclusive s a h)

  -- After any session at most one of the five tools is on.
  pub run-initial-IsExclusive :
      (d : Defaults) (actions : List Action) → IsExclusive (run convert (initial d) actions)
  run-initial-IsExclusive d actions = run-IsExclusive (initial d) actions (omega arith)

  -- A toggle turns its own tool over; one that turns its tool on leaves no other on, and in a state
  -- where at most one tool was on, one that turns it off leaves none on.
  pub toggle_lem :
      (s : ToolState) (t : Tool)
      → IsExclusive s
      → (mode_of t (act convert s (toggle t)) ≡ not (mode_of t s))
        × (active_modes (act convert s (toggle t)) ≡ one_if (not (mode_of t s)))
  unfolding act
  toggle_lem s annotation h = ground arith
  toggle_lem s range_ring h = ground arith
  toggle_lem s sector h = ground arith
  toggle_lem s bearing_line h = ground arith
  toggle_lem s measurement h = ground arith
