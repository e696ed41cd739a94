-- ===== src/Hydration.antt =====
-- frontend/src/lib/assetPresentation.ts: where an asset is shown. frontend/src/hooks/
-- useMapUrlSelectionHydration.ts: the selection of a link is applied to the map, once. Positions are
-- whole millionths of a degree, and the characters of an id are of one code unit each.
pub mod Laws
pub mod Landing
mod Tests
use Prim.Native.String
use Prim.Native.Char.{code}
use react_ai_healthycare.Base.{
  ℕ, ◌+◌, ◌-◌, ◌*◌, ◌%◌, ◌^◌, String, List, [], ◌∷◌, ◌++◌, Option, none, some, Bool, true, false,
  not, ◌||◌, if◌then◌else◌, ◌==◌, string_eq, truthy?, is_some, find?, lookup,
}
use react_ai_healthycare.Base.Int.{ℤ, pos, negsuc, ◌+ℤ◌, ◌-ℤ◌}
use react_ai_healthycare.Api.Json.{Json}
use react_ai_healthycare.Api.Records.{Site, Asset, Signal}
use react_ai_healthycare.EntitySelection.SearchParams.{SearchParams}
use react_ai_healthycare.EntitySelection.Route.{
  EntitySelection, selection, no_selection, has_any, parse_entity_selection_route,
}
use react_ai_healthycare.Sse.Telemetry.{TelemetryReading, TelemetryMap, is_telemetry_fresh}

pub record AssetPosition : Type 0 where
  pub lat : ℤ
  pub lng : ℤ

-- `((hash << 5) - hash) + code`, then `| 0`, on the residue of `hash`
unfoldable pub hash_step : ℕ → ℕ → ℕ
hash_step hash unit = (hash * 32 % 2 ^ 32 + (2 ^ 32 - hash) + unit) % 2 ^ 32

unfoldable pub hash_from : ℕ → String → ℕ
hash_from hash String.[] = hash
hash_from hash (String.◌∷◌ c s) = hash_from (hash_step hash (code c)) s

-- in ten thousandths
unfoldable pub hash_fraction : String → ℕ
hash_fraction seed = hash_from 0 seed % 10000

unfoldable pub get_live_telemetry_reading :
    Option String → TelemetryMap → (allow_historical : Bool) → (now : ℤ) → Option TelemetryReading
get_live_telemetry_reading asset_id readings allow_historical now = elim (truthy? asset_id) [
  | none ↦ none
  | some id ↦ elim (lookup id readings) [
    | none ↦ none
    | some reading ↦
        if allow_historical || is_telemetry_fresh (some reading) now then some reading else none
  ]
]

-- `(hashFraction(seed) - 0.5) * 0.05`
unfoldable pub offset : String → ℤ
offset seed = pos (hash_fraction seed * 5) -ℤ pos 25000

abbrev pub same_id : Option String → Site → Bool
same_id none site = false
same_id (some id) site = site.id == id

module _ (to_number : Json → ℤ) where
  unfoldable pub asset_seed_position : String → Option Site → AssetPosition → AssetPosition
  asset_seed_position asset_id none fallback = fallback
  asset_seed_position asset_id (some home) fallback = record {
    lat = to_number home.latitude +ℤ offset (String.◌++◌ asset_id "-lat");
    lng = to_number home.longitude +ℤ offset (String.◌++◌ asset_id "-lng");
  }

  unfoldable pub asset_display_position :
      Asset → List Site → TelemetryMap → AssetPosition → Bool → ℤ → AssetPosition
  asset_display_position asset sites readings fallback allow_historical now =
      elim (get_live_telemetry_reading (some asset.id) readings allow_historical now) [
        | some reading ↦ record { lat = reading.lat; lng = reading.lng }
        | none ↦ asset_seed_position asset.id (find? (same_id asset.home_site_id) sites) fallback
      ]

pub record Render : Type 0 where
  pub map_loaded : Bool
  pub search : String
  pub sites : List Site
  pub assets : List Asset
  pub signals : List Signal
  pub readings : TelemetryMap
  pub is_replaying : Bool
  pub now : ℤ

pub record Move : Type 0 where
  pub center : AssetPosition
  pub zoom : ℕ

-- The latch, the selection of the map and the calls of `flyTo`.
pub record Hydration : Type 0 where
  pub applied : Bool
  pub selected : EntitySelection
  pub moves : List Move

abbrev pub default_position : AssetPosition
default_position = record { lat = pos 37774900; lng = negsuc 122419399 }

-- The setters, `flyTo` and the latch.
abbrev pub select_at : EntitySelection → AssetPosition → ℕ → Hydration → Hydration
select_at sel center zoom h = record {
  applied = true;
  selected = sel;
  moves = h.moves ++ (record { center = center; zoom = zoom } ∷ []);
}

module _ (sp : SearchParams) (to_number : Json → ℤ) where
  abbrev pub to_site : Option Site → Hydration → Hydration
  to_site none h = h
  to_site (some site) h =
      select_at (selection (some site.id) none none)
        (record { lat = to_number site.latitude; lng = to_number site.longitude }) 6 h

  abbrev pub to_asset : Render → Option Asset → Hydration → Hydration
  to_asset r none h = h
  to_asset r (some asset) h =
      select_at (selection none (some asset.id) none)
        (asset_display_position to_number asset r.sites r.readings default_position r.is_replaying
          r.now)
        7 h

  abbrev pub to_signal : Option Signal → Hydration → Hydration
  to_signal none h = h
  to_signal (some signal) h =
      select_at (selection none none (some signal.id))
        (record { lat = to_number signal.lat; lng = to_number signal.lng }) 7 h

  -- The branches, in the order of the code: a site, an asset, a signal.
  abbrev pub to_id : Render → (site asset signal : Option String) → Hydration → Hydration
  to_id r (some id) asset signal h = to_site (find? (λ s. s.id == id) r.sites) h
  to_id r none (some id) signal h = to_asset r (find? (λ a. a.id == id) r.assets) h
  to_id r none none (some id) h = to_signal (find? (λ s. s.id == id) r.signals) h
  to_id r none none none h = h

  abbrev pub apply_route : Render → EntitySelection → Hydration → Hydration
  apply_route r route h =
      if not (has_any route)
      then record { applied = true; selected = no_selection; moves = h.moves }
      else to_id r (truthy? route.site_id) (truthy? route.asset_id) (truthy? route.signal_id) h

  unfoldable pub hydrate : Render → Hydration → Hydration
  hydrate r h =
      if not r.map_loaded || h.applied
      then h
      else apply_route r (parse_entity_selection_route sp r.search) h

  unfoldable pub run : List Render → Hydration → Hydration
  run [] h = h
  run (r ∷ rs) h = run rs (hydrate r h)
