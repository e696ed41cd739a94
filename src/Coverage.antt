-- ===== src/Coverage.antt =====
-- frontend/src/lib/coverage.ts: the circles that assets cover, and the sites in them. Coordinates are
-- of a type that is a parameter, with `toNumber`; the distance test is a parameter too. Radii are in
-- tenths of a kilometre, instants in milliseconds.
pub mod Laws
pub mod Circles
mod Tests
use Prim.Native.String
use react_ai_healthycare.Base.{
  ℕ, zero, suc, ◌+◌, ◌*◌, ◌/◌, String, List, [], ◌∷◌, ◌++◌, Option, none, some, Bool, true, false,
  not, ◌||◌, ◌&&◌, if◌then◌else◌, ◌==◌, string_eq, truthy, truthy?, is_some, ◌or◌, filter, map, Map,
  lookup, insert, values, group_from, map_by, leb,
}
use react_ai_healthycare.Base.Int.{ℤ, pos, ◌-ℤ◌, leb_ℤ}
use react_ai_healthycare.Api.Json.{Json}
use react_ai_healthycare.Api.Enums.{
  AssetStatus, available, assigned, degraded, offline, WorkflowStatus, resolved,
}
use react_ai_healthycare.Api.Records.{Site, Asset, Task}
use react_ai_healthycare.Sse.Telemetry.{stale_after_ms}

pub record Position (N : Type 0) : Type 0 where
  pub lat : N
  pub lng : N
  pub ts : ℤ

pub data AnchorSource : Type 0 where
  telemetry task_site home_site : AnchorSource

pub record CoverageCircle (N : Type 0) : Type 0 where
  pub asset_id : String
  pub asset_name : String
  pub asset_type : String
  pub status : AssetStatus
  pub anchor_key : String
  pub anchor_lat : N
  pub anchor_lng : N
  pub anchor_source : AnchorSource
  pub anchor_label : String
  pub radius : ℕ

-- kilometres
abbrev pub base_radius_by_asset_type : Map String ℕ
base_radius_by_asset_type = ("vehicle", 35) ∷ ("equipment", 120) ∷ ("personnel", 12) ∷ []

-- hundredths
abbrev pub status_radius_multiplier : AssetStatus → ℕ
status_radius_multiplier available = 100
status_radius_multiplier assigned = 100
status_radius_multiplier degraded = 55
status_radius_multiplier offline = 0

-- `toFixed(1)`: the products with 0.55 that end in 5 hundredths are rounded up.
unfoldable pub asset_coverage_radius : Asset → ℕ
asset_coverage_radius asset =
    let base = lookup asset.asset_type base_radius_by_asset_type or 25 in
    (base * status_radius_multiplier asset.status + 5) / 10

abbrev pub is_open : WorkflowStatus → Bool
is_open resolved = false
is_open _ = true

pub record Anchor (N : Type 0) : Type 0 where
  pub key : String
  pub lat : N
  pub lng : N
  pub label : String

module _ {N : Type 0} (to_number : Json → N) where
  abbrev pub anchor_at : Task → Site → Anchor N
  anchor_at task site = record {
    key = String.◌++◌ "task-site-" task.site_id;
    lat = to_number site.latitude;
    lng = to_number site.longitude;
    label = task.site_name or site.name;
  }

  abbrev pub add_anchor : Task → Option Site → Map String (Anchor N) → Map String (Anchor N)
  add_anchor task none m = m
  add_anchor task (some site) m = insert task.site_id (anchor_at task site) m

  abbrev pub anchors_from :
      Map String Site → List Task → Map String (Anchor N) → Map String (Anchor N)
  anchors_from sites_by_id [] m = m
  anchors_from sites_by_id (task ∷ tasks) m =
      anchors_from sites_by_id tasks (add_anchor task (lookup task.site_id sites_by_id) m)

  unfoldable pub task_anchors : List Task → Map String Site → List (Anchor N)
  task_anchors tasks sites_by_id =
      let open_tasks = filter (λ (t : Task). is_open t.workflow_status && truthy t.site_id) tasks in
      values (anchors_from sites_by_id open_tasks [])

  abbrev pub circle_at : Asset → ℕ → AnchorSource → Anchor N → CoverageCircle N
  circle_at asset radius source anchor = record {
    asset_id = asset.id;
    asset_name = asset.name;
    asset_type = asset.asset_type;
    status = asset.status;
    anchor_key = anchor.key;
    anchor_lat = anchor.lat;
    anchor_lng = anchor.lng;
    anchor_source = source;
    anchor_label = anchor.label;
    radius = radius;
  }

  abbrev pub reading_anchor : Asset → Position N → Anchor N
  reading_anchor asset reading = record {
    key = "telemetry";
    lat = reading.lat;
    lng = reading.lng;
    label = asset.name;
  }

  abbrev pub home_anchor : Site → Anchor N
  home_anchor site = record {
    key = String.◌++◌ "home-site-" site.id;
    lat = to_number site.latitude;
    lng = to_number site.longitude;
    label = site.name;
  }

  abbrev pub home_circles : Asset → ℕ → Option Site → List (CoverageCircle N)
  home_circles asset radius none = []
  home_circles asset radius (some site) = circle_at asset radius home_site (home_anchor site) ∷ []

  abbrev pub find_home : Option String → Map String Site → Option Site
  find_home none sites_by_id = none
  find_home (some id) sites_by_id = lookup id sites_by_id

  abbrev pub site_circles : Asset → ℕ → List (Anchor N) → Option Site → List (CoverageCircle N)
  site_circles asset radius [] home = home_circles asset radius home
  site_circles asset radius (anchor ∷ anchors) home =
      map (λ a. circle_at asset radius task_site a) (anchor ∷ anchors)

  abbrev pub fresh_reading : Bool → ℤ → Option (Position N) → Option (Position N)
  fresh_reading allow_historical now none = none
  fresh_reading allow_historical now (some reading) =
      if allow_historical || leb_ℤ (now -ℤ reading.ts) (pos stale_after_ms)
      then some reading
      else none

  abbrev pub anchored :
      Asset → ℕ → Option (Position N) → List (Anchor N) → Option Site → List (CoverageCircle N)
  anchored asset radius (some reading) anchors home =
      circle_at asset radius telemetry (reading_anchor asset reading) ∷ []
  anchored asset radius none anchors home = site_circles asset radius anchors home

  unfoldable pub tasks_by_asset_id : List Task → Map String (List Task)
  tasks_by_asset_id tasks =
      group_from (λ t. truthy? t.asset_id) (λ k. []) (λ t existing. existing ++ t ∷ []) [] tasks

  -- the callback of `flatMap`
  unfoldable pub asset_circles :
      Map String (Position N)
      → (allow_historical : Bool) → (now : ℤ) → Map String (List Task)
      → Map String Site
      → Asset
      → List (CoverageCircle N)
  asset_circles readings allow_historical now tasks_of sites_by_id asset =
      if leb (asset_coverage_radius asset) 0
      then []
      else anchored asset (asset_coverage_radius asset)
          (fresh_reading allow_historical now (lookup asset.id readings))
          (task_anchors (lookup asset.id tasks_of or []) sites_by_id)
          (find_home (truthy? asset.home_site_id) sites_by_id)

  abbrev pub flat_map : {A B : Type 0} → (A → List B) → List A → List B
  flat_map f [] = []
  flat_map f (x ∷ xs) = f x ++ flat_map f xs

  unfoldable pub build_coverage_circles :
      List Asset
      → List Task
      → List Site
      → Map String (Position N)
      → (allow_historical : Bool) → (now : ℤ) → List (CoverageCircle N)
  unfolding asset_circles tasks_by_asset_id task_anchors
  build_coverage_circles assets tasks sites readings allow_historical now =
      flat_map
        (asset_circles readings allow_historical now (tasks_by_asset_id tasks)
          (map_by (λ (s : Site). s.id) (λ s. s) sites))
        assets

  abbrev pub is_telemetry : AnchorSource → Bool
  is_telemetry telemetry = true
  is_telemetry task_site = false
  is_telemetry home_site = false

  -- `!existing || circle.anchorSource === 'telemetry'`
  abbrev pub add_circle :
      CoverageCircle N → Map String (CoverageCircle N) → Map String (CoverageCircle N)
  add_circle circle m =
      if not (is_some (lookup circle.asset_id m)) || is_telemetry circle.anchor_source
      then insert circle.asset_id circle m
      else m

  abbrev pub unique_from :
      Map String (CoverageCircle N) → List (CoverageCircle N) → Map String (CoverageCircle N)
  unique_from m [] = m
  unique_from m (circle ∷ circles) = unique_from (add_circle circle m) circles

  -- `haversineKm(…) <= circle.radiusKm`
  module _ (is_within : (lat lng anchor_lat anchor_lng : N) → (radius : ℕ) → Bool) where
    abbrev pub covers : Site → CoverageCircle N → Bool
    covers site circle =
        is_within (to_number site.latitude) (to_number site.longitude) circle.anchor_lat
          circle.anchor_lng circle.radius

    abbrev pub covered_from :
        List (CoverageCircle N)
        → Map String (List (CoverageCircle N))
        → List Site
        → Map String (List (CoverageCircle N))
    covered_from circles covered [] = covered
    covered_from circles covered (site ∷ sites) =
        covered_from circles
          (insert site.id (values (unique_from [] (filter (covers site) circles))) covered) sites

    unfoldable pub coverage_by_site :
        List Site → List (CoverageCircle N) → Map String (List (CoverageCircle N))
    coverage_by_site sites circles = covered_from circles [] sites
