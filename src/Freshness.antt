-- ===== src/Freshness.antt =====
-- frontend/src/lib/freshness.ts: how old a data source is. Instants and ages are whole milliseconds.
pub mod Laws
pub mod Health
mod Tests
use react_ai_healthycare.Base.{ℕ, ◌*◌, List, [], ◌∷◌, if◌then◌else◌, ltb}
use react_ai_healthycare.Base.Int.{ℤ, pos, ◌-ℤ◌, leb_ℤ, ltb_ℤ}

pub data FreshnessState : Type 0 where
  fresh aging stale unavailable : FreshnessState

pub data ConnectionStatus : Type 0 where
  connecting connected disconnected : ConnectionStatus

pub record FreshnessThresholds : Type 0 where
  pub aging_ms : ℕ
  pub stale_ms : ℕ

abbrev pub asset_freshness_thresholds : FreshnessThresholds
asset_freshness_thresholds = record { aging_ms = 6 * 3600000; stale_ms = 24 * 3600000 }

abbrev pub default_thresholds : FreshnessThresholds
default_thresholds = record { aging_ms = 30000; stale_ms = 120000 }

-- hundredths
abbrev pub asset_freshness_fill_alpha : FreshnessState → ℕ
asset_freshness_fill_alpha fresh = 94
asset_freshness_fill_alpha aging = 72
asset_freshness_fill_alpha stale = 46
asset_freshness_fill_alpha unavailable = 32

unfoldable pub derive_freshness : ℤ → ℤ → FreshnessThresholds → FreshnessState
derive_freshness last_updated_ms now_ms thresholds =
    if leb_ℤ last_updated_ms (pos 0)
    then unavailable
    else (let age_ms = now_ms -ℤ last_updated_ms in
        if ltb_ℤ age_ms (pos 0)
        then fresh
        else (if ltb_ℤ age_ms (pos thresholds.aging_ms)
            then fresh
            else (if ltb_ℤ age_ms (pos thresholds.stale_ms) then aging else stale)))

unfoldable pub connection_to_freshness : ConnectionStatus → FreshnessState
connection_to_freshness connected = fresh
connection_to_freshness connecting = aging
connection_to_freshness disconnected = stale

-- lower is healthier
abbrev pub freshness_rank : FreshnessState → ℕ
freshness_rank fresh = 0
freshness_rank aging = 1
freshness_rank stale = 2
freshness_rank unavailable = 3

abbrev pub worse : FreshnessState → FreshnessState → FreshnessState
worse worst s = if ltb (freshness_rank worst) (freshness_rank s) then s else worst

-- `states.reduce(…, worst)`
abbrev pub reduce_worst : FreshnessState → List FreshnessState → FreshnessState
reduce_worst worst [] = worst
reduce_worst worst (s ∷ ss) = reduce_worst (worse worst s) ss

unfoldable pub worst_freshness : List FreshnessState → FreshnessState
worst_freshness [] = unavailable
worst_freshness (s ∷ ss) = reduce_worst fresh (s ∷ ss)
