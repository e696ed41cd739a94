-- ===== src/MapTools.antt =====
-- frontend/src/hooks/useMapToolState.ts: the drawing tools of the map. A `useState` or `useRef` is a
-- field, and a callback is a function on the record, run on the state of the latest render. The
-- numbers that are parsed from the inputs for display are left out.
pub mod State
pub mod Handlers
pub mod Actions
pub mod Modes
pub mod Annotations
mod Tests
