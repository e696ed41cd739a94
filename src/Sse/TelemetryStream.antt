-- ===== src/Sse/TelemetryStream.antt =====
-- frontend/src/hooks/useTelemetryStream.ts: the latest reading of each asset.
use react_ai_healthycare.Base.{
  length-filter, ◌≡◌, refl, List, [], ◌∷◌, Option, none, some, Bool, true, false, if◌then◌else◌,
  insert, filter, length, eqb, string_eq, arith,
}
use react_ai_healthycare.Base.Int.{ℤ}
use react_ai_healthycare.Sse.Link.{Link, start}
use react_ai_healthycare.Sse.Telemetry.{TelemetryReading, TelemetryMap, is_telemetry_fresh}
use react_ai_healthycare.Sse.Link

pub record TelemetryStreamState : Type 0 where
  pub link : Link
  pub readings : TelemetryMap
  pub connected : Bool

-- the effect on a hook that is not enabled
unfoldable pub reset : TelemetryStreamState → TelemetryStreamState
reset s = record s { readings = []; connected = false }

unfoldable pub mount : TelemetryStreamState → TelemetryStreamState
mount s = record s { link = start s.link.delay }

unfoldable pub on_timer : TelemetryStreamState → TelemetryStreamState
unfolding Link.on_timer
on_timer s = record s { link = Link.on_timer s.link }

unfoldable pub on_token : TelemetryStreamState → TelemetryStreamState
unfolding Link.on_token
on_token s = record s { link = Link.on_token s.link }

unfoldable pub on_token_failed : TelemetryStreamState → TelemetryStreamState
unfolding Link.on_token_failed
on_token_failed s = record s {
  link = Link.on_token_failed s.link;
  connected = if s.link.ended then s.connected else false;
}

unfoldable pub on_connected : TelemetryStreamState → TelemetryStreamState
unfolding Link.on_connected
on_connected s = record s { link = Link.on_connected s.link; connected = true }

-- a `telemetry` event; none if the payload does not parse
unfoldable pub on_telemetry : Option TelemetryReading → TelemetryStreamState → TelemetryStreamState
on_telemetry none s = s
on_telemetry (some reading) s = record s { readings = insert reading.asset_id reading s.readings }

unfoldable pub on_error : TelemetryStreamState → TelemetryStreamState
unfolding Link.on_error
on_error s = record s { link = Link.on_error s.link; connected = false }

unfoldable pub cleanup : TelemetryStreamState → TelemetryStreamState
unfolding Link.cleanup
cleanup s = record s { link = Link.cleanup s.link; connected = false }

abbrev pub fresh_only : ℤ → TelemetryMap → TelemetryMap
fresh_only now m = filter (λ e. is_telemetry_fresh (some e.1) now) m

-- the interval of 15 s: the map is replaced only where a reading has gone
unfoldable pub on_interval : ℤ → TelemetryStreamState → TelemetryStreamState
on_interval now s =
    let next = fresh_only now s.readings in
    record s { readings = if eqb (length next) (length s.readings) then s.readings else next }

filter-eq_of_length {ℓ} :
    {A : Type ℓ} (p : A → Bool) (xs : List A) → length (filter p xs) ≡ length xs → filter p xs ≡ xs
filter-eq_of_length p [] h = refl
filter-eq_of_length p (x ∷ xs) h = ground (arith, filter-eq_of_length p xs, length-filter p xs)

-- The comparison of sizes is no more than a saving: after a tick the readings are exactly those that
-- are fresh, in their order.
pub on_interval_lem :
    (now : ℤ) (s : TelemetryStreamState) → (on_interval now s).readings ≡ fresh_only now s.readings
unfolding on_interval
on_interval_lem now s =
    ground (arith, filter-eq_of_length (λ e. is_telemetry_fresh (some e.1) now) s.readings)
