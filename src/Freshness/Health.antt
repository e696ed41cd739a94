-- ===== src/Freshness/Health.antt =====
-- frontend/src/hooks/useSourceHealth.ts: the freshness of the stream and of the data together. The
-- clock is a state that is set every ten seconds.
use react_ai_healthycare.Base.{◌⊎◌, [], ◌∷◌, ◌≡◌, ◌↔◌, arith}
use react_ai_healthycare.Base.Int.{◌≤ℤ◌, ℤ, pos, ◌-ℤ◌, ◌<ℤ◌, -ℤ_parts}
use react_ai_healthycare.Freshness.{
  FreshnessState, fresh, stale, unavailable, ConnectionStatus, connected, connecting, disconnected,
  connection_to_freshness, default_thresholds, derive_freshness, worst_freshness,
}

pub record SourceHealthState : Type 0 where
  pub sse : FreshnessState
  pub data_freshness : FreshnessState
  pub aggregate : FreshnessState

unfoldable pub use_source_health :
    (now_ms : ℤ) → ConnectionStatus → (data_updated_at : ℤ) → SourceHealthState
use_source_health now_ms sse_status data_updated_at =
    let sse = connection_to_freshness sse_status in
    let data_freshness = derive_freshness data_updated_at now_ms default_thresholds in
    record {
      sse = sse;
      data_freshness = data_freshness;
      aggregate = worst_freshness (sse ∷ data_freshness ∷ []);
    }

-- The system is shown as fresh exactly where the stream is connected, data has arrived, and less than
-- 30 seconds before the clock; as unavailable exactly where no data has arrived, connected or not; and
-- as stale exactly where data has arrived and the stream is disconnected or the data two minutes old.
pub use_source_health_iff :
    (now_ms data_updated_at : ℤ) (status : ConnectionStatus)
    → let h = use_source_health now_ms status data_updated_at in
      ((h.aggregate ≡ fresh) ↔ (
        (status ≡ connected)
        × (pos 0 <ℤ data_updated_at)
        × (now_ms -ℤ data_updated_at <ℤ pos 30000)))
      × ((h.aggregate ≡ unavailable) ↔ (data_updated_at ≤ℤ pos 0))
      × ((h.aggregate ≡ stale) ↔ (
          (pos 0 <ℤ data_updated_at)
          × ((status ≡ disconnected) ⊎ (pos 120000 ≤ℤ now_ms -ℤ data_updated_at))))
unfolding use_source_health worst_freshness connection_to_freshness derive_freshness
use_source_health_iff now_ms data_updated_at connected =
    ground (arith, -ℤ_parts now_ms data_updated_at)
use_source_health_iff now_ms data_updated_at connecting =
    ground (arith, -ℤ_parts now_ms data_updated_at)
use_source_health_iff now_ms data_updated_at disconnected =
    ground (arith, -ℤ_parts now_ms data_updated_at)
