-- ===== src/Api.antt =====
-- The wire types of frontend/src/api/types.ts, as far as the modelled code reads them.
-- A coordinate is a whole number of millionths of a degree, the columns being numeric(9,6).
pub mod Json
pub mod Enums
pub mod Records
pub mod Rules
