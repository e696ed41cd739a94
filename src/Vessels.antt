-- ===== src/Vessels.antt =====
-- frontend/src/lib/replayVessel.ts: the vessel shown at the replay time. `Date.parse` is a parameter,
-- none for NaN.
pub mod Laws
mod Tests
use Prim.Native.String
use react_ai_healthycare.Base.{
  ℕ, ◌*◌, String, List, [], ◌∷◌, Option, none, some, Bool, true, false, ◌or◌, ◌or_else◌, get_last?,
  truthy?, has_text, if◌then◌else◌,
}
use react_ai_healthycare.Base.Int.{ℤ, pos, ◌-ℤ◌, ltb_ℤ}
use react_ai_healthycare.Api.Json.{Json, str, Fields, get_field}
use react_ai_healthycare.Api.Enums.{SignalType, vessel_position}
use react_ai_healthycare.Api.Records.{Signal}

abbrev pub dark_threshold_ms : ℕ
dark_threshold_ms = 20 * 60 * 1000

pub record VesselTrack : Type 0 where
  pub id : String
  pub lat : Json
  pub lng : Json
  pub speed : Json
  pub heading : Json
  pub occurred_at : String

pub record Vessel : Type 0 where
  pub id : String
  pub mmsi : String
  pub name : Option String
  pub vessel_type : Option String
  pub flag : Option String
  pub destination : Option String
  pub lat : Json
  pub lng : Json
  pub speed : Json
  pub heading : Json
  pub first_seen_at : String
  pub last_seen_at : String
  pub loitering_since : Option String
  pub dark : Bool
  pub loitering : Bool
  pub last_signal_id : Option String

abbrev pub string_or_null : Option Json → Option String
string_or_null (some (str s)) = if has_text s then some s else none
string_or_null _ = none

-- `signal.signal_type !== 'vessel_position'`
abbrev pub is_vessel : SignalType → Bool
is_vessel vessel_position = true
is_vessel _ = false

-- The fields of the latest track, or else those of the signal; `??` goes on to the signal where the
-- track's value is null.
abbrev pub coalesce : Json → Json → Json
coalesce Json.null y = y
coalesce x y = x

abbrev pub field_of : (VesselTrack → Json) → Option VesselTrack → Json → Json
field_of f none y = y
field_of f (some track) y = coalesce (f track) y

abbrev pub last_seen : Option VesselTrack → Signal → String
last_seen none signal = signal.occurred_at
last_seen (some track) signal = track.occurred_at

module _ (parse_date : String → Option ℤ) where
  abbrev pub is_dark : Option ℤ → Option ℤ → Bool
  is_dark (some cutoff_ms) (some last_seen_ms) =
      ltb_ℤ last_seen_ms (cutoff_ms -ℤ pos dark_threshold_ms)
  is_dark none last_seen_ms = false
  is_dark (some cutoff_ms) none = false

  abbrev pub cutoff : Option String → Option ℤ
  cutoff none = none
  cutoff (some as_of) = parse_date as_of

  unfoldable pub vessel_at : Signal → Option String → Option VesselTrack → Option String → Vessel
  vessel_at signal vessel_id latest_track as_of =
      let payload = signal.raw_payload in
      let text : String → Option String = λ key. string_or_null (get_field key payload) in
      record {
        id = vessel_id or String.◌++◌ "replay-" signal.external_id;
        mmsi = text "mmsi" or signal.external_id;
        name = text "name" or_else (text "vessel_name" or_else text "callsign");
        vessel_type = text "vessel_type";
        flag = text "flag";
        destination = text "dest" or_else text "destination";
        lat = field_of (λ t. t.lat) latest_track signal.lat;
        lng = field_of (λ t. t.lng) latest_track signal.lng;
        speed = field_of (λ t. t.speed) latest_track signal.speed;
        heading = field_of (λ t. t.heading) latest_track signal.heading;
        first_seen_at = signal.occurred_at;
        last_seen_at = last_seen latest_track signal;
        loitering_since = none;
        dark = is_dark (cutoff (truthy? as_of)) (parse_date (last_seen latest_track signal));
        loitering = false;
        last_signal_id = some signal.id;
      }

  unfoldable pub build_replay_vessel :
      Option Signal → Option String → List VesselTrack → Option String → Option Vessel
  unfolding vessel_at
  build_replay_vessel none vessel_id tracks as_of = none
  build_replay_vessel (some signal) vessel_id tracks as_of =
      if is_vessel signal.signal_type
      then some (vessel_at signal vessel_id (get_last? tracks) as_of)
      else none
