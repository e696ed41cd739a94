-- ===== src/Freshness/Tests.antt =====
-- The laws of freshness at concrete instants.
use react_ai_healthycare.Base.{◌≡◌, ◌↔◌, ◌⊎◌}
use react_ai_healthycare.Base.Int.{pos, ◌-ℤ◌, ◌≤ℤ◌, ◌<ℤ◌}
use react_ai_healthycare.Freshness.{connected, disconnected, fresh, stale, unavailable}
use react_ai_healthycare.Freshness.Health.{use_source_health, use_source_health_iff}

use_source_health_example :
    let h = use_source_health (pos 41000) connected (pos 12000) in
    ((h.aggregate ≡ fresh)
      ↔ ((connected ≡ connected) × (pos 0 <ℤ pos 12000) × (pos 41000 -ℤ pos 12000 <ℤ pos 30000)))
    × ((h.aggregate ≡ unavailable) ↔ (pos 12000 ≤ℤ pos 0))
    × ((h.aggregate ≡ stale) ↔ (
        (pos 0 <ℤ pos 12000)
        × ((connected ≡ disconnected) ⊎ (pos 120000 ≤ℤ pos 41000 -ℤ pos 12000))))
use_source_health_example = use_source_health_iff (pos 41000) (pos 12000) connected
