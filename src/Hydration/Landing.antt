-- ===== src/Hydration/Landing.antt =====
-- A link is applied to the map once, when its entity is in the data.
use mathlib.Core.Path.{subst}
use react_ai_healthycare.Base.{
  ℕ, String, List, [], ◌∷◌, ◌++◌, Option, none, some, Bool, true, false, not, ◌||◌, if◌then◌else◌,
  ◌==◌, string_eq, ==_iff, truthy?, is_some, find?, Elem, All, ◌≡◌, refl, ap, sym, ◌∙◌, ◌⊎◌, inl,
  inr, arith, Bool-cases,
}
use react_ai_healthycare.Base.Int.{ℤ}
use react_ai_healthycare.Api.Json.{Json}
use react_ai_healthycare.Api.Records.{Site, Asset, Signal}
use react_ai_healthycare.EntitySelection.SearchParams.{SearchParams}
use react_ai_healthycare.EntitySelection.Route.{
  EntitySelection, selection, no_selection, parse_entity_selection_route,
}
use react_ai_healthycare.EntitySelection.Route.Laws.{IsNormal, normalize-IsNormal, normal_cases}
use react_ai_healthycare.Hydration.{
  AssetPosition, asset_display_position, Render, Move, Hydration, default_position, to_site,
  to_asset, to_signal, to_id, apply_route, hydrate, run,
}

find?-Elem :
    {A : Type 0} (p : A → Bool) (xs : List A) (x : A)
    → find? p xs ≡ some x
    → Elem x xs × (p x ≡ true)
find?-Elem p [] x e = ground arith
find?-Elem p (y ∷ ys) x e = elim (Bool-cases (p y)) [
  | inl h ↦ (inl (first h), ap p (sym (first h)) ∙ h)
  | inr h ↦ (inr (find?-Elem p ys x (rest h)).0, (find?-Elem p ys x (rest h)).1)
]
  where
    first : p y ≡ true → y ≡ x
    first h = ground (arith, e, h)

    rest : p y ≡ false → find? p ys ≡ some x
    rest h = ground (arith, e, h)

-- A latched effect, or one before the map is loaded, leaves the state.
chosen {κ} :
    (loaded applied : Bool) (h x : Hydration) (Q : Hydration → Type κ)
    → (loaded ≡ false → Q h)
    → (applied ≡ true → Q h)
    → (loaded ≡ true → applied ≡ false → Q x)
    → Q (if not loaded || applied then h else x)
chosen false applied h x Q l a g = l refl
chosen true true h x Q l a g = a refl
chosen true false h x Q l a g = g refl refl

module _ (sp : SearchParams) (to_number : Json → ℤ) where
  abbrev link : Render → EntitySelection
  link r = parse_entity_selection_route sp r.search

  abbrev move_to : AssetPosition → ℕ → List Move
  move_to center zoom = record { center = center; zoom = zoom } ∷ []

  abbrev site_position : Site → AssetPosition
  site_position site = record { lat = to_number site.latitude; lng = to_number site.longitude }

  abbrev signal_position : Signal → AssetPosition
  signal_position signal = record { lat = to_number signal.lat; lng = to_number signal.lng }

  abbrev asset_position : Render → Asset → AssetPosition
  asset_position r asset =
      asset_display_position to_number asset r.sites r.readings default_position r.is_replaying
        r.now

  -- The link names no entity and the camera stays, or it names one of the data of this render, which
  -- the camera moved to; that is selected, and the latch is set.
  abbrev pub Lands : Render → EntitySelection → Hydration → Type 0
  Lands r route h =
      (h.applied ≡ true)
      × (h.selected ≡ route)
      × (((route ≡ no_selection) × (h.moves ≡ []))
          ⊎ ((site : Site) × Elem site r.sites
              × (route ≡ selection (some site.id) none none)
              × (h.moves ≡ move_to (site_position site) 6))
          ⊎ ((asset : Asset) × Elem asset r.assets
              × (route ≡ selection none (some asset.id) none)
              × (h.moves ≡ move_to (asset_position r asset) 7))
          ⊎ ((signal : Signal) × Elem signal r.signals
              × (route ≡ selection none none (some signal.id))
              × (h.moves ≡ move_to (signal_position signal) 7)))

  -- The entity that the link names is not in the data of this render.
  abbrev pub IsAwaited : Render → EntitySelection → Type 0
  IsAwaited r route =
      ((i : String) × (route ≡ selection (some i) none none)
        × (find? (λ s. s.id == i) r.sites ≡ none))
      ⊎ ((i : String) × (route ≡ selection none (some i) none)
          × (find? (λ a. a.id == i) r.assets ≡ none))
      ⊎ ((i : String) × (route ≡ selection none none (some i))
          × (find? (λ s. s.id == i) r.signals ≡ none))

  abbrev Outcome : Render → EntitySelection → Hydration → Hydration → Type 0
  Outcome r route h t = ((t ≡ h) × IsAwaited r route) ⊎ Lands r route t

  site-Outcome :
      (r : Render) (i : String) (route : EntitySelection) (h : Hydration) (o : Option Site)
      → find? (λ s. s.id == i) r.sites ≡ o
      → route ≡ selection (some i) none none
      → h.moves ≡ []
      → Outcome r route h (to_site sp to_number o h)
  site-Outcome r i route h none f e m = inl (refl, inl (i, e, f))
  site-Outcome r i route h (some site) f e m =
      let (here, same) = find?-Elem (λ s. s.id == i) r.sites site f in
      let named = e ∙ ap (λ j. selection (some j) none none) (sym ((==_iff site.id i).0 same)) in
      inr (
        refl,
        sym named,
        inr (inl (site, here, named, ap (λ ms. ms ++ move_to (site_position site) 6) m)),
      )

  asset-Outcome :
      (r : Render) (i : String) (route : EntitySelection) (h : Hydration) (o : Option Asset)
      → find? (λ a. a.id == i) r.assets ≡ o
      → route ≡ selection none (some i) none
      → h.moves ≡ []
      → Outcome r route h (to_asset sp to_number r o h)
  asset-Outcome r i route h none f e m = inl (refl, inr (inl (i, e, f)))
  asset-Outcome r i route h (some asset) f e m =
      let (here, same) = find?-Elem (λ a. a.id == i) r.assets asset f in
      let named = e ∙ ap (λ j. selection none (some j) none) (sym ((==_iff asset.id i).0 same)) in
      inr (
        refl,
        sym named,
        inr (inr (inl (asset, here, named, ap (λ ms. ms ++ move_to (asset_position r asset) 7) m))),
      )

  signal-Outcome :
      (r : Render) (i : String) (route : EntitySelection) (h : Hydration) (o : Option Signal)
      → find? (λ s. s.id == i) r.signals ≡ o
      → route ≡ selection none none (some i)
      → h.moves ≡ []
      → Outcome r route h (to_signal sp to_number o h)
  signal-Outcome r i route h none f e m = inl (refl, inr (inr (i, e, f)))
  signal-Outcome r i route h (some signal) f e m =
      let (here, same) = find?-Elem (λ s. s.id == i) r.signals signal f in
      let named = e ∙ ap (λ j. selection none none (some j)) (sym ((==_iff signal.id i).0 same)) in
      inr (
        refl,
        sym named,
        inr (
            inr (inr (signal, here, named, ap (λ ms. ms ++ move_to (signal_position signal) 7) m))),
      )

  -- By the three ids that the branches of the effect test.
  by_ids : Render → Hydration → (site asset signal : Option String) → Hydration
  by_ids r h site asset signal =
      if not (is_some site || is_some asset || is_some signal)
      then record { applied = true; selected = no_selection; moves = h.moves }
      else to_id sp to_number r site asset signal h

  by_ids-Outcome :
      (r : Render) (route : EntitySelection) (h : Hydration)
      → IsNormal route
      → h.moves ≡ []
      → Outcome r route h
          (by_ids r h (truthy? route.site_id) (truthy? route.asset_id) (truthy? route.signal_id))
  unfolding by_ids
  by_ids-Outcome r route h n m = elim (normal_cases route n) [
    | inl e ↦
        rw
          (
            ap (λ n. truthy? n.site_id) e,
            ap (λ n. truthy? n.asset_id) e,
            ap (λ n. truthy? n.signal_id) e,
          )
          (inr (refl, sym e, inl (e, m)))
    | inr (inl (i, e, t)) ↦
        rw (ap (λ n. truthy? n.site_id) e ∙ t) (site-Outcome r i route h _ refl e m)
    | inr (inr (inl (i, e, t))) ↦
        rw (ap (λ n. truthy? n.site_id) e, ap (λ n. truthy? n.asset_id) e ∙ t)
          (asset-Outcome r i route h _ refl e m)
    | inr (inr (inr (i, e, t))) ↦
        rw
          (
            ap (λ n. truthy? n.site_id) e,
            ap (λ n. truthy? n.asset_id) e,
            ap (λ n. truthy? n.signal_id) e ∙ t,
          )
          (signal-Outcome r i route h _ refl e m)
  ]

  link-IsNormal : (r : Render) → IsNormal (link r)
  unfolding parse_entity_selection_route
  link-IsNormal r = normalize-IsNormal _

  -- The map is not loaded, or the entity of the link is not there yet.
  abbrev pub IsWaiting : Render → Type 0
  IsWaiting r = (r.map_loaded ≡ false) ⊎ IsAwaited r (link r)

  hydrate-Outcome :
      (r : Render) (h : Hydration)
      → h.applied ≡ false
      → h.moves ≡ []
      → ((hydrate sp to_number r h ≡ h) × IsWaiting r)
        ⊎ ((r.map_loaded ≡ true) × Lands r (link r) (hydrate sp to_number r h))
  unfolding hydrate by_ids
  hydrate-Outcome r h a m =
      chosen r.map_loaded h.applied h (apply_route sp to_number r (link r) h)
        (λ t. ((t ≡ h) × IsWaiting r) ⊎ ((r.map_loaded ≡ true) × Lands r (link r) t))
        (λ l. inl (refl, inl l)) (λ b. ground (arith, a, b))
        λ l b. elim (by_ids-Outcome r (link r) h (link-IsNormal r) m) [
          | inl (same, awaited) ↦ inl (same, inr awaited)
          | inr lands ↦ inr (l, lands)
        ]

  hydrate_latched : (r : Render) (h : Hydration) → h.applied ≡ true → hydrate sp to_number r h ≡ h
  unfolding hydrate
  hydrate_latched r h a =
      chosen r.map_loaded h.applied h (apply_route sp to_number r (link r) h) (λ t. t ≡ h)
        (λ l. refl) (λ b. refl) λ l b. ground (arith, a, b)

  run_latched : (rs : List Render) (h : Hydration) → h.applied ≡ true → run sp to_number rs h ≡ h
  unfolding run
  run_latched [] h a = refl
  run_latched (r ∷ rs) h a = rw (hydrate_latched r h a) (run_latched rs h a)

  abbrev pub Ends : List Render → Hydration → Hydration → Type 0
  Ends rs h t =
      ((t ≡ h) × All IsWaiting rs)
      ⊎ ((r : Render) × Elem r rs × (r.map_loaded ≡ true) × Lands r (link r) t)

  -- From a state without the latch and without a move, over any renders: either each waits, for the
  -- map or for the entity that its link names, and nothing has changed; or, whatever renders came
  -- after, the state is that of one render with the map loaded: the selection of its link, whose
  -- entity is in its data, with one move of the camera to it, or none where the link names no entity.
  pub run-Lands :
      (rs : List Render) (h : Hydration)
      → h.applied ≡ false
      → h.moves ≡ []
      → ((run sp to_number rs h ≡ h) × All IsWaiting rs)
        ⊎ ((r : Render) × Elem r rs
            × (r.map_loaded ≡ true)
            × Lands r (link r) (run sp to_number rs h))
  unfolding run
  run-Lands [] h a m = inl (refl, tt)
  run-Lands (r ∷ rs) h a m = elim (hydrate-Outcome r h a m) [
    | inl (same, waits) ↦
        subst (λ t. Ends (r ∷ rs) h (run sp to_number rs t)) (sym same)
          (elim (run-Lands rs h a m) [
            | inl (kept, all) ↦ inl (kept, (waits, all))
            | inr (later, here, loaded, lands) ↦ inr (later, inr here, loaded, lands)
          ])
    | inr (loaded, lands) ↦
        inr (r, inl refl, loaded, rw (run_latched rs (hydrate sp to_number r h) lands.0) lands)
  ]
