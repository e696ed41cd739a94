-- ===== src/Coverage/Circles.antt =====
-- The circles that are built: of which assets, and around what.
use react_ai_healthycare.Base.{
  ◌≢◌, ℕ, ◌≤◌, ◌+◌, ◌*◌, ◌/◌, String, List, [], ◌∷◌, Option, none, some, Bool, false, map, ◌≡◌,
  refl, Map, lookup, ◌or◌, leb, arith, All, All-append, Elem, inl, inr, Bool-cases, map_by,
  string_eq,
}
use react_ai_healthycare.Base.Int.{ℤ}
use react_ai_healthycare.Api.Json.{Json}
use react_ai_healthycare.Api.Enums.{AssetStatus, offline, available, assigned, degraded}
use react_ai_healthycare.Api.Records.{Site, Asset, Task}
use react_ai_healthycare.Coverage.{
  Position, CoverageCircle, Anchor, telemetry, task_site, home_site, AnchorSource,
  asset_coverage_radius, circle_at, asset_circles, anchored, flat_map, build_coverage_circles,
  tasks_by_asset_id, status_radius_multiplier, base_radius_by_asset_type,
}

module _ {N : Type 0} (to_number : Json → N) where
  -- The circle has the asset's identity and radius.
  pub record IsOf (asset : Asset) (c : CoverageCircle N) : Type 0 where
    pub same_id : c.asset_id ≡ asset.id
    pub same_radius : c.radius ≡ asset_coverage_radius asset
    pub positive : 1 ≤ c.radius
    pub on_duty : asset.status ≢ offline

  -- The circle is of one of the assets.
  abbrev pub IsOfOne : List Asset → CoverageCircle N → Type 0
  IsOfOne assets c = (a : Asset) × Elem a assets × IsOf a c

  offline_lem :
      (base : ℕ) (status : AssetStatus)
      → status ≡ offline
      → (base * status_radius_multiplier status + 5) / 10 ≡ 0
  offline_lem base offline e = omega arith
  offline_lem base available e = absurd (ground (arith, e))
  offline_lem base assigned e = absurd (ground (arith, e))
  offline_lem base degraded e = absurd (ground (arith, e))

  radius_offline : (asset : Asset) → asset.status ≡ offline → asset_coverage_radius asset ≡ 0
  unfolding asset_coverage_radius
  radius_offline asset e =
      offline_lem (lookup asset.asset_type base_radius_by_asset_type or 25) asset.status e

  circle_at-IsOf :
      (asset : Asset) (source : AnchorSource) (anchor : Anchor N)
      → leb (asset_coverage_radius asset) 0 ≡ false
      → IsOf asset (circle_at to_number asset (asset_coverage_radius asset) source anchor)
  circle_at-IsOf asset source anchor h = record {
    same_id = refl;
    same_radius = refl;
    positive = ground arith;
    on_duty = λ e. ground (arith, radius_offline asset e);
  }

  circles-IsOf :
      (asset : Asset) (source : AnchorSource) (anchors : List (Anchor N))
      → leb (asset_coverage_radius asset) 0 ≡ false
      → All
          (IsOf asset)
          (map (λ a. circle_at to_number asset (asset_coverage_radius asset) source a) anchors)
  circles-IsOf asset source [] h = tt
  circles-IsOf asset source (a ∷ anchors) h =
      (circle_at-IsOf asset source a h, circles-IsOf asset source anchors h)

  anchored-IsOf :
      (asset : Asset) (reading : Option (Position N)) (anchors : List (Anchor N))
      (home : Option Site)
      → leb (asset_coverage_radius asset) 0 ≡ false
      → All
          (IsOf asset)
          (anchored to_number asset (asset_coverage_radius asset) reading anchors home)
  anchored-IsOf asset (some reading) anchors home h = (circle_at-IsOf asset telemetry _ h, tt)
  anchored-IsOf asset none [] none h = tt
  anchored-IsOf asset none [] (some site) h = (circle_at-IsOf asset home_site _ h, tt)
  anchored-IsOf asset none (a ∷ anchors) home h = circles-IsOf asset task_site (a ∷ anchors) h

  asset_circles-IsOf :
      (readings : Map String (Position N)) (allow_historical : Bool) (now : ℤ)
      (tasks_of : Map String (List Task)) (sites_by_id : Map String Site) (asset : Asset)
      → All
          (IsOf asset)
          (asset_circles to_number readings allow_historical now tasks_of sites_by_id asset)
  unfolding asset_circles
  asset_circles-IsOf readings allow_historical now tasks_of sites_by_id asset =
      elim (Bool-cases (leb (asset_coverage_radius asset) 0)) [
        | inl h ↦ rw h tt
        | inr h ↦ rw h (anchored-IsOf asset _ _ _ h)
      ]

  weaken :
      (assets : List Asset) (asset : Asset) (cs : List (CoverageCircle N))
      → Elem asset assets
      → All (IsOf asset) cs
      → All (IsOfOne assets) cs
  weaken assets asset [] e h = tt
  weaken assets asset (c ∷ cs) e h = ((asset, e, h.0), weaken assets asset cs e h.1)

  flat_map-IsOfOne :
      (f : Asset → List (CoverageCircle N)) (all some_assets : List Asset)
      → ((a : Asset) → All (IsOf a) (f a))
      → ((a : Asset) → Elem a some_assets → Elem a all)
      → All (IsOfOne all) (flat_map to_number f some_assets)
  flat_map-IsOfOne f all [] h e = tt
  flat_map-IsOfOne f all (a ∷ assets) h e =
      All-append (IsOfOne all) (f a) (flat_map to_number f assets)
        (weaken all a (f a) (e a (inl refl)) (h a))
        (flat_map-IsOfOne f all assets h λ b m. e b (inr m))

  -- Every circle is of a listed asset that is not offline, and has its radius, which is not zero.
  pub build_coverage_circles-IsOfOne :
      (assets : List Asset) (tasks : List Task) (sites : List Site)
      (readings : Map String (Position N)) (allow_historical : Bool) (now : ℤ)
      → All
          (IsOfOne assets)
          (build_coverage_circles to_number assets tasks sites readings allow_historical now)
  unfolding build_coverage_circles
  build_coverage_circles-IsOfOne assets tasks sites readings allow_historical now =
      flat_map-IsOfOne _ assets assets
        (asset_circles-IsOf readings allow_historical now (tasks_by_asset_id to_number tasks)
          (map_by (λ (s : Site). s.id) (λ s. s) sites))
        λ a m. m
