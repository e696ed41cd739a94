-- ===== src/Sse/Telemetry.antt =====
-- frontend/src/lib/telemetry.ts: a telemetry reading and its age. Instants are whole milliseconds
-- (the source counts seconds, with fractions), positions whole millionths.
use react_ai_healthycare.Base.{ℕ, String, Option, none, some, Bool, false, Map}
use react_ai_healthycare.Base.Int.{ℤ, pos, ◌-ℤ◌, leb_ℤ}

pub record TelemetryReading : Type 0 where
  pub asset_id : String
  pub name : String
  pub lat : ℤ
  pub lng : ℤ
  pub heading : ℤ
  pub speed : ℤ
  pub battery : ℤ
  pub ts : ℤ

abbrev pub TelemetryMap : Type 0
TelemetryMap = Map String TelemetryReading

abbrev pub stale_after_ms : ℕ
stale_after_ms = 90000

unfoldable pub is_telemetry_fresh : Option TelemetryReading → ℤ → Bool
is_telemetry_fresh none now = false
is_telemetry_fresh (some reading) now = leb_ℤ (now -ℤ reading.ts) (pos stale_after_ms)
