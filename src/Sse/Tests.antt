-- ===== src/Sse/Tests.antt =====
-- The laws of the streams on short runs.
use react_ai_healthycare.Base.{
  ℕ, String, Option, ◌≤◌, refl, [], ◌∷◌, none, some, true, false, arith, string_eq,
}
use react_ai_healthycare.Base.Int.{ℤ, pos}
use react_ai_healthycare.Api.Json.{null, end}
use react_ai_healthycare.Api.Enums.{SignalType, wildfire, manual}
use react_ai_healthycare.Api.Records.{Signal}
use react_ai_healthycare.Sse.SignalStream.{SignalStreamState}
use react_ai_healthycare.Sse.Token.{
  TokenCache, fetch, settled, settles, empty_cache, run-requests_le, run-shares,
}
use react_ai_healthycare.Sse.Link.{start}
use react_ai_healthycare.Sse.LinkLaws.{
  token_comes, token_fails, connected, error, timer_fires, unmount, Inv, run-start-Inv,
}
use react_ai_healthycare.Sse.EventSource.{mount, initial}
use react_ai_healthycare.Sse.EventSourceLaws.{ShowsLink, run-mount-ShowsLink}
use react_ai_healthycare.Sse.Telemetry.{TelemetryReading}
use react_ai_healthycare.Sse.TelemetryStream.{TelemetryStreamState}
use react_ai_healthycare.Sse.SignalStreamLaws
use react_ai_healthycare.Sse.Token
use react_ai_healthycare.Sse.LinkLaws
use react_ai_healthycare.Sse.EventSourceLaws

run-requests_le_example :
    (Token.run empty_cache (fetch ∷ fetch ∷ settled 0 ∷ fetch ∷ [])).0.requests ≤ 2
run-requests_le_example = run-requests_le (fetch ∷ fetch ∷ settled 0 ∷ fetch ∷ [])

abbrev asked : TokenCache
asked = record { in_flight = some 0; requests = 1 }

run-start-Inv_example :
    Inv (LinkLaws.run (start 1000) (token_fails ∷ timer_fires ∷ token_comes ∷ error ∷ []))
run-start-Inv_example =
    run-start-Inv 1000 (token_fails ∷ timer_fires ∷ token_comes ∷ error ∷ []) (omega arith)

run-mount-ShowsLink_example : ShowsLink (
    EventSourceLaws.run
      (mount initial)
      (EventSourceLaws.token_comes ∷ EventSourceLaws.opened ∷ EventSourceLaws.error ∷ []))
run-mount-ShowsLink_example =
    run-mount-ShowsLink
      (EventSourceLaws.token_comes ∷ EventSourceLaws.opened ∷ EventSourceLaws.error ∷ [])

abbrev reading : TelemetryReading
reading = record {
  asset_id = "a1";
  name = "Drone";
  lat = pos 0;
  lng = pos 0;
  heading = pos 0;
  speed = pos 0;
  battery = pos 90;
  ts = pos 1000;
}

abbrev streaming : TelemetryStreamState
streaming = record { link = start 1000; readings = ("a1", reading) ∷ []; connected = true }

abbrev at_zero : String → Option ℤ
at_zero text = some (pos 0)

abbrev no_limits : SignalType → Option ℕ
no_limits t = none

abbrev quiet : SignalStreamState
quiet = record {
  link = start 1000;
  signals_by_id = [];
  connected = false;
  connection_id = 0;
  latest_seen = none;
}

abbrev fire : Signal
fire = record {
  id = "a";
  source = manual;
  signal_type = wildfire;
  external_id = "a";
  lat = null;
  lng = null;
  altitude = null;
  speed = null;
  heading = null;
  magnitude = null;
  raw_payload = end;
  occurred_at = "";
  ingested_at = "";
}

run-IsWithin_example :
    SignalStreamLaws.IsWithin at_zero no_limits
      (SignalStreamLaws.run at_zero no_limits quiet
        (SignalStreamLaws.token_comes ∷ SignalStreamLaws.message (some fire) ∷ [])).signals_by_id
run-IsWithin_example =
    SignalStreamLaws.run-IsWithin at_zero no_limits quiet
      (SignalStreamLaws.token_comes ∷ SignalStreamLaws.message (some fire) ∷ []) refl

abbrev seen : SignalStreamState
seen = record quiet { latest_seen = some "2026" }
