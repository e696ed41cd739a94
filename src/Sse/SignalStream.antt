-- ===== src/Sse/SignalStream.antt =====
-- frontend/src/hooks/useSignalStream.ts: the stream of signals. `Date.parse` is the parameter
-- `parse_date`, none for NaN; the limits are the defaults with the options' over them.
use react_ai_healthycare.Base.{
  ℕ, ◌+◌, String, List, [], ◌∷◌, Option, none, some, Bool, true, false, if◌then◌else◌, ◌or_else◌,
  truthy?, values,
}
use react_ai_healthycare.Base.Int.{ℤ, leb_ℤ}
use react_ai_healthycare.Api.Enums.{SignalType}
use react_ai_healthycare.Api.Records.{Signal}
use react_ai_healthycare.LiveSignals.{
  SignalMap, live_signal_limits, merge_signals, sort_signals_newest_first,
}
use react_ai_healthycare.Sse.Link.{Link, start}
use react_ai_healthycare.Sse.Link

pub record SignalStreamState : Type 0 where
  pub link : Link
  pub signals_by_id : SignalMap
  pub connected : Bool
  pub connection_id : ℕ
  pub latest_seen : Option String

module _ (parse_date : String → Option ℤ) where
  -- `Date.parse(left) >= Date.parse(right)`, false where one is NaN
  abbrev pub not_before : Option ℤ → Option ℤ → Bool
  not_before (some l) (some r) = leb_ℤ r l
  not_before none r = false
  not_before (some l) none = false

  unfoldable pub max_iso_timestamp : Option String → Option String → Option String
  max_iso_timestamp left right = elim (truthy? left) [
    | none ↦ right
    | some l ↦ elim (truthy? right) [
      | none ↦ left
      | some r ↦ if not_before (parse_date l) (parse_date r) then left else right
    ]
  ]

  abbrev pub all_limits : (SignalType → Option ℕ) → SignalType → Option ℕ
  all_limits limits t = limits t or_else live_signal_limits t

  -- the effects on a new seed cursor, and on a hook that is not enabled
  unfoldable pub on_seed_cursor : Option String → SignalStreamState → SignalStreamState
  unfolding max_iso_timestamp
  on_seed_cursor seed s = record s { latest_seen = max_iso_timestamp s.latest_seen seed }

  unfoldable pub reset : Option String → SignalStreamState → SignalStreamState
  reset seed s = record s {
    signals_by_id = [];
    connected = false;
    connection_id = 0;
    latest_seen = seed;
  }

  unfoldable pub mount : SignalStreamState → SignalStreamState
  mount s = record s { link = start s.link.delay }

  unfoldable pub on_timer : SignalStreamState → SignalStreamState
  unfolding Link.on_timer
  on_timer s = record s { link = Link.on_timer s.link }

  unfoldable pub on_token : SignalStreamState → SignalStreamState
  unfolding Link.on_token
  on_token s = record s { link = Link.on_token s.link }

  unfoldable pub on_token_failed : SignalStreamState → SignalStreamState
  unfolding Link.on_token_failed
  on_token_failed s = record s {
    link = Link.on_token_failed s.link;
    connected = if s.link.ended then s.connected else false;
  }

  unfoldable pub on_connected : SignalStreamState → SignalStreamState
  unfolding Link.on_connected
  on_connected s = record s {
    link = Link.on_connected s.link;
    connected = true;
    connection_id = s.connection_id + 1;
  }

  -- a `signal` event; none if the payload does not parse
  unfoldable pub on_signal :
      (SignalType → Option ℕ) → Option Signal → SignalStreamState → SignalStreamState
  unfolding max_iso_timestamp
  on_signal limits none s = s
  on_signal limits (some signal) s = record s {
    latest_seen = max_iso_timestamp s.latest_seen (some signal.ingested_at);
    signals_by_id = merge_signals parse_date s.signals_by_id (signal ∷ []) (all_limits limits);
  }

  unfoldable pub on_error : SignalStreamState → SignalStreamState
  unfolding Link.on_error
  on_error s = record s { link = Link.on_error s.link; connected = false }

  unfoldable pub cleanup : SignalStreamState → SignalStreamState
  unfolding Link.cleanup
  cleanup s = record s { link = Link.cleanup s.link; connected = false }

  -- `signals`, what the hook returns
  unfoldable pub signals : SignalStreamState → List Signal
  signals s = sort_signals_newest_first parse_date (values s.signals_by_id)
