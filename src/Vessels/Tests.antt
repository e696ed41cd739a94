-- ===== src/Vessels/Tests.antt =====
-- A vessel last seen 20 minutes and a millisecond before the replay time.
use react_ai_healthycare.Base.{
  is_white, trim, String, Option, none, some, true, ◌≡◌, refl, if◌then◌else◌, ◌==◌, string_eq,
}
use react_ai_healthycare.Base.Int.{◌-ℤ◌, ℤ, pos}
use react_ai_healthycare.Api.Json.{str, null, field, end}
use react_ai_healthycare.Api.Enums.{vessel_position, ais}
use react_ai_healthycare.Api.Records.{Signal}
use react_ai_healthycare.Vessels.{vessel_at}

abbrev seen : Signal
seen = record {
  id = "s1";
  source = ais;
  signal_type = vessel_position;
  external_id = "244";
  lat = null;
  lng = null;
  altitude = null;
  speed = null;
  heading = null;
  magnitude = null;
  raw_payload = field "callsign" (str "PA") (field "name" (str " ") end);
  occurred_at = "then";
  ingested_at = "then";
}

abbrev parse_date : String → Option ℤ
parse_date text = some (if text == "then" then pos 1 else pos 1200002)

goes_dark : (vessel_at parse_date seen none none (some "now")).dark ≡ true
unfolding vessel_at ◌-ℤ◌
goes_dark = refl

named : (vessel_at parse_date seen none none (some "now")).name ≡ some "PA"
unfolding vessel_at trim is_white
named = refl
