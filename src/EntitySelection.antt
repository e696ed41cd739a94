-- ===== src/EntitySelection.antt =====
-- The selected site, asset or signal of the map and the globe: its place in the URL and in the
-- history state (frontend/src/lib/entitySelectionRoute.ts), and the hook that keeps the selection,
-- the URL and the pending route writes together (frontend/src/hooks/useEntitySelectionSync.ts).
pub mod SearchParams
pub mod Route
pub mod Missing
pub mod LocationState
pub mod Tokens
pub mod Codec
pub mod Sync
mod Tests
