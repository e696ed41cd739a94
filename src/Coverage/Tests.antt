-- ===== src/Coverage/Tests.antt =====
-- A vehicle with a reading over one site, and its task at another.
use react_ai_healthycare.Base.Int.{◌-ℤ◌, ℤ, pos, leb_ℤ}
use react_ai_healthycare.Base.{
  ℕ, String, List, [], ◌∷◌, none, some, Bool, false, ◌≡◌, refl, Map, lookup, string_eq, filter,
  HasDistinctKeys, values,
}
use react_ai_healthycare.Api.Json.{Json, int}
use react_ai_healthycare.Api.Enums.{active, available, normal, new}
use react_ai_healthycare.Api.Records.{Site, Asset, Task}
use react_ai_healthycare.Coverage.{
  Position, CoverageCircle, telemetry, task_site, build_coverage_circles, coverage_by_site, covers,
  asset_coverage_radius,
}
use react_ai_healthycare.Coverage.Laws.{best_of, coverage_by_site_lem}

abbrev to_number : Json → ℤ
to_number (int n) = n
to_number _ = pos 0

abbrev site_at : String → ℤ → Site
site_at id lat = record {
  id = id;
  name = id;
  latitude = int lat;
  longitude = int (pos 0);
  status = active;
  area_of_operation_id = none;
  flagged_at = none;
  flag_reason = none;
  geofence_radius_km = int (pos 1);
  created_at = "";
  updated_at = "";
}

abbrev truck : Asset
truck = record {
  id = "a1";
  name = "Truck";
  asset_type = "vehicle";
  status = available;
  home_site_id = some "s1";
  last_reported_at = none;
  created_at = "";
  updated_at = "";
}

abbrev delivery : Task
delivery = record {
  id = "t1";
  site_id = "s2";
  asset_id = some "a1";
  title = "Delivery";
  description = none;
  priority = normal;
  workflow_status = new;
  blocked_reason = none;
  resolved_at = none;
  created_at = "";
  updated_at = "";
  site_name = none;
  ao_id = none;
  ao_posture = none;
}

abbrev sites : List Site
sites = site_at "s1" (pos 1) ∷ site_at "s2" (pos 2) ∷ []

abbrev readings : ℤ → Map String (Position ℤ)
readings ts = ("a1", record { lat = pos 1; lng = pos 0; ts = ts }) ∷ []

-- The reading counts for 90 seconds; past that the site of the task does.
abbrev circles : ℤ → List (CoverageCircle ℤ)
circles now =
    build_coverage_circles to_number (truck ∷ []) (delivery ∷ []) sites (readings (pos 1000)) false
      now

abbrev circle_of : String → ℤ → CoverageCircle ℤ
circle_of key lat = record {
  asset_id = "a1";
  asset_name = "Truck";
  asset_type = "vehicle";
  status = available;
  anchor_key = key;
  anchor_lat = lat;
  anchor_lng = pos 0;
  anchor_source = telemetry;
  anchor_label = "Truck";
  radius = 350;
}

around_reading : circles (pos 91000) ≡ circle_of "telemetry" (pos 1) ∷ []
unfolding build_coverage_circles asset_coverage_radius ◌-ℤ◌
around_reading = refl

around_task :
    circles (pos 91001)
    ≡ record (circle_of "task-site-s2" (pos 2)) { anchor_source = task_site; anchor_label = "s2" }
      ∷ []
unfolding build_coverage_circles asset_coverage_radius ◌-ℤ◌
around_task = refl

abbrev is_within : (lat lng anchor_lat anchor_lng : ℤ) → (radius : ℕ) → Bool
is_within lat lng anchor_lat anchor_lng radius = leb_ℤ lat anchor_lat

coverage_by_site_example :
    (u : Map String (CoverageCircle ℤ)) × (lookup "s1"
        (coverage_by_site to_number is_within sites (circles (pos 91000)))
      ≡ some (values u))
    × HasDistinctKeys u
    × ((k : String)
        → lookup k u
          ≡ best_of to_number k
              (filter (covers to_number is_within (site_at "s1" (pos 1))) (circles (pos 91000))))
coverage_by_site_example =
    coverage_by_site_lem to_number is_within (site_at "s1" (pos 1)) (circles (pos 91000)) []
      (site_at "s2" (pos 2) ∷ []) (refl, tt)
