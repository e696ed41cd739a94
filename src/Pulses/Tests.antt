-- ===== src/Pulses/Tests.antt =====
-- The laws of the pulses on one event, ten seconds before the cursor.
use mathlib.Core.List.{Perm}
use react_ai_healthycare.Base.{
  refl, String, List, [], ◌∷◌, ◌++◌, Option, none, some, true, ◌≡◌, ◌≤◌, length, All, IsSorted, Map,
}
use react_ai_healthycare.Base.Int.{ℤ, pos, ◌-ℤ◌}
use react_ai_healthycare.Pulses.{
  resolve_pulse_location, is_pulse_event_type, candidate, SiteCoord, Pulse, nearer, candidates,
  build_pulses,
}
use react_ai_healthycare.Api.Json.{null, end}
use react_ai_healthycare.Api.Records.{AuditEvent}
use react_ai_healthycare.Pulses.Laws.{IsPast, build_pulses_lem}

abbrev flagged : AuditEvent
flagged = record {
  id = "e1";
  schema_version = 1;
  actor = "u1";
  entity_type = "Site";
  entity_id = "s1";
  event_type = "site_flagged";
  action = none;
  before_snapshot = none;
  after_snapshot = end;
  metadata = none;
  correlation_id = "";
  occurred_at = "";
}

abbrev at_zero : String → Option ℤ
at_zero text = some (pos 0)

abbrev one_site : Map String SiteCoord
one_site = ("s1", record { lat = null; lng = null }) ∷ []

build_pulses_example :
    let kept = build_pulses at_zero one_site (pos 10000) (flagged ∷ []) in
    let all_of = candidates at_zero one_site (pos 10000) (flagged ∷ []) in
    (length kept ≤ 50)
    × All IsPast kept
    × IsSorted nearer kept
    × ((left_out : List Pulse) × Perm (kept ++ left_out) all_of
        × All (λ p. All (λ q. nearer p q ≡ true) left_out) kept)
build_pulses_example = build_pulses_lem at_zero one_site (pos 10000) (flagged ∷ [])

one_pulse : length (build_pulses at_zero one_site (pos 10000) (flagged ∷ [])) ≡ 1
unfolding build_pulses candidate is_pulse_event_type resolve_pulse_location ◌-ℤ◌
one_pulse = refl
