-- ===== src/Pulses.antt =====
-- frontend/src/lib/replayEventPulses.ts: the audit events near the replay cursor, as pulses on the map.
-- `Date.parse` is the parameter `parse_date`, none for NaN, in milliseconds; `Number` on a text is
-- `to_number`, none where it is not finite. A pulse holds its distance d to the cursor; its intensity
-- is 1 - d / 300000, so that intensities fall as distances grow.
pub mod Laws
mod Tests
use react_ai_healthycare.Base.{
  ℕ, String, List, [], ◌∷◌, Option, none, some, Bool, true, false, not, ◌||◌, if◌then◌else◌, ◌==◌,
  string_eq, any, insert, lookup, Map, sort_by, take, ◌or_else◌, truthy?,
}
use react_ai_healthycare.Base.Int.{ℤ, pos, ◌-ℤ◌, leb_ℤ, ltb_ℤ}
use react_ai_healthycare.Api.Json.{Json, int, frac, str, Fields, get_field}
use react_ai_healthycare.Api.Records.{AuditEvent, Site}

abbrev pub high_signal_pulse_event_types : List String
high_signal_pulse_event_types =
    "site_flagged" ∷ "incident.opened" ∷ "incident_transitioned" ∷ "task.transitioned"
    ∷ "prosecution_started" ∷ []

abbrev pub pulse_window_ms : ℕ
pulse_window_ms = 300000

abbrev pub max_pulses : ℕ
max_pulses = 50

pub record SiteCoord : Type 0 where
  pub lat : Json
  pub lng : Json

pub record Pulse : Type 0 where
  pub id : String
  pub lat : Json
  pub lng : Json
  pub event_type : String
  pub occurred_at : String
  pub distance_ms : ℤ

unfoldable pub is_pulse_event_type : String → Bool
is_pulse_event_type value = any (λ t. t == value) high_signal_pulse_event_types

-- `typeof o.site_id === 'string' ? o.site_id : null`
abbrev pub site_id_in : Fields → Option String
site_id_in o = elim (get_field "site_id" o) [ none ↦ none | some (str s) ↦ some s | some v ↦ none ]

abbrev pub site_id_before : Option Fields → Option String
site_id_before none = none
site_id_before (some o) = site_id_in o

unfoldable pub resolve_pulse_location : AuditEvent → Map String SiteCoord → Option SiteCoord
resolve_pulse_location event sites_by_id =
    let site_id =
      if event.entity_type == "Site"
      then some event.entity_id
      else site_id_in event.after_snapshot or_else site_id_before event.before_snapshot in
    elim (truthy? site_id) [ none ↦ none | some id ↦ lookup id sites_by_id ]

module _ (to_number : String → Option Json) where
  unfoldable pub coerce_float : Json → Option Json
  coerce_float (int n) = some (int n)
  coerce_float (frac t) = some (frac t)
  coerce_float (str t) = to_number t
  coerce_float v = none

  abbrev pub add_site :
      Option Json → Option Json → String → Map String SiteCoord → Map String SiteCoord
  add_site (some lat) (some lng) id m = insert id (record { lat = lat; lng = lng }) m
  add_site none lng id m = m
  add_site (some lat) none id m = m

  abbrev pub sites_from : Map String SiteCoord → List Site → Map String SiteCoord
  sites_from m [] = m
  sites_from m (site ∷ sites) =
      sites_from (add_site (coerce_float site.latitude) (coerce_float site.longitude) site.id m)
        sites

  unfoldable pub build_sites_by_id : List Site → Map String SiteCoord
  unfolding coerce_float
  build_sites_by_id sites = sites_from [] sites

-- `b.intensity - a.intensity` is not positive
abbrev pub nearer : Pulse → Pulse → Bool
nearer a b = leb_ℤ a.distance_ms b.distance_ms

module _ (parse_date : String → Option ℤ) (sites_by_id : Map String SiteCoord) (as_of_ms : ℤ) where
  abbrev pub pulse_at : AuditEvent → SiteCoord → ℤ → Option Pulse
  pulse_at event location occurred_ms =
      if ltb_ℤ as_of_ms occurred_ms
      then none
      else (let distance_ms = as_of_ms -ℤ occurred_ms in
          if ltb_ℤ (pos pulse_window_ms) distance_ms
          then none
          else some (record {
            id = event.id;
            lat = location.lat;
            lng = location.lng;
            event_type = event.event_type;
            occurred_at = event.occurred_at;
            distance_ms = distance_ms;
          }))

  -- one round of the loop: the candidate of an event, none where the loop goes on
  unfoldable pub candidate : AuditEvent → Option Pulse
  unfolding is_pulse_event_type resolve_pulse_location
  candidate event =
      if not (is_pulse_event_type event.event_type)
      then none
      else elim (resolve_pulse_location event sites_by_id) [
        | none ↦ none
        | some location ↦ elim (parse_date event.occurred_at) [
          | none ↦ none
          | some occurred_ms ↦ pulse_at event location occurred_ms
        ]
      ]

  abbrev pub add_candidate : Option Pulse → List Pulse → List Pulse
  add_candidate none ps = ps
  add_candidate (some p) ps = p ∷ ps

  abbrev pub candidates : List AuditEvent → List Pulse
  candidates [] = []
  candidates (event ∷ events) = add_candidate (candidate event) (candidates events)

  unfoldable pub build_pulses : List AuditEvent → List Pulse
  build_pulses events = take max_pulses (sort_by nearer (candidates events))
