-- ===== src/Planning.antt =====
-- The planning surface: overcommitment flags (frontend/src/utils/planningFlags.ts), the drafts of the
-- doctrine forms (frontend/src/lib/planningPageUtils.ts) and the hook that keeps them
-- (frontend/src/hooks/usePlanningDrafts.ts).
pub mod Flags
pub mod FlagLaws
pub mod Drafts
pub mod DraftState
pub mod DraftLaws
mod Tests
