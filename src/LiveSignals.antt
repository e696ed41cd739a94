-- ===== src/LiveSignals.antt =====
-- frontend/src/lib/liveSignals.ts: the signals on the map, by id, at most so many of each type.
-- `Date.parse` is the parameter `parse_date`, none for NaN.
pub mod Bounds
pub mod Newest
mod Tests
use react_ai_healthycare.Base.{
  ℕ, zero, suc, ◌*◌, String, List, [], ◌∷◌, Option, none, some, Bool, true, false, ◌or◌, Map,
  lookup, insert, erase, values, filter, drop, sort_by, string_eq, if◌then◌else◌,
}
use react_ai_healthycare.Base.Int.{ℤ, pos, leb_ℤ}
use react_ai_healthycare.Api.Enums.{
  SignalType, aircraft_position, vessel_position, seismic_event, gps_jamming, wildfire, ais_gap,
  manual, conflict_event, disaster_alert,
}
use react_ai_healthycare.Api.Records.{Signal}

abbrev pub SignalMap : Type 0
SignalMap = Map String Signal

abbrev pub live_signal_types : List SignalType
live_signal_types =
    aircraft_position ∷ vessel_position ∷ seismic_event ∷ gps_jamming ∷ wildfire ∷ conflict_event
    ∷ disaster_alert ∷ SignalType.manual ∷ ais_gap ∷ []

abbrev pub live_signal_limits : SignalType → Option ℕ
live_signal_limits aircraft_position = some 150
live_signal_limits SignalType.manual = some 20
live_signal_limits ais_gap = some 20
live_signal_limits _ = some 50

-- `signal.signal_type === t`
abbrev pub is_type : SignalType → SignalType → Bool
is_type aircraft_position aircraft_position = true
is_type vessel_position vessel_position = true
is_type seismic_event seismic_event = true
is_type gps_jamming gps_jamming = true
is_type wildfire wildfire = true
is_type conflict_event conflict_event = true
is_type disaster_alert disaster_alert = true
is_type SignalType.manual SignalType.manual = true
is_type ais_gap ais_gap = true
is_type _ _ = false

abbrev pub delete_all : List Signal → SignalMap → SignalMap
delete_all [] m = m
delete_all (s ∷ ss) m = delete_all ss (erase s.id m)

abbrev pub set_all : List Signal → SignalMap → SignalMap
set_all [] m = m
set_all (s ∷ ss) m = set_all ss (insert s.id s m)

module _ (parse_date : String → Option ℤ) where
  abbrev pub occurred_at_ms : Signal → ℤ
  occurred_at_ms s = parse_date s.occurred_at or pos 0

  -- `occurredAtMs(b) - occurredAtMs(a)` is not positive
  abbrev pub newer_first : Signal → Signal → Bool
  newer_first a b = leb_ℤ (occurred_at_ms b) (occurred_at_ms a)

  unfoldable pub sort_signals_newest_first : List Signal → List Signal
  sort_signals_newest_first = sort_by newer_first

  -- the signals of type `t` past the newest `limit`
  abbrev pub surplus : SignalType → ℕ → SignalMap → List Signal
  surplus t limit m =
      drop limit (sort_signals_newest_first (filter (λ s. is_type t s.signal_type) (values m)))

  -- `if (!limit || limit < 1) continue`, and otherwise one round of the loop
  abbrev pub prune_to : Option ℕ → SignalType → SignalMap → SignalMap
  prune_to none t m = m
  prune_to (some zero) t m = m
  prune_to (some (suc l)) t m = delete_all (surplus t (suc l) m) m

  abbrev pub prune_types : (SignalType → Option ℕ) → List SignalType → SignalMap → SignalMap
  prune_types limits [] m = m
  prune_types limits (t ∷ ts) m = prune_types limits ts (prune_to (limits t) t m)

  unfoldable pub prune_signal_map_by_type : SignalMap → (SignalType → Option ℕ) → SignalMap
  prune_signal_map_by_type m limits = prune_types limits live_signal_types m

  unfoldable pub merge_signals : SignalMap → List Signal → (SignalType → Option ℕ) → SignalMap
  merge_signals previous incoming limits =
      prune_signal_map_by_type (set_all incoming previous) limits
