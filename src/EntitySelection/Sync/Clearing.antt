-- ===== src/EntitySelection/Sync/Clearing.antt =====
-- The effect that clears a selection whose entity is gone, of frontend/src/hooks/
-- useEntitySelectionSync.ts.
use mathlib.Core.Path.{subst, ap, ◌∙◌}
use react_ai_healthycare.Base.{
  Bool, not, ◌&&◌, ◌||◌, ◌⊎◌, ◌↔◌, is_value, inl, inr, Bool-cases, ◌≡◌, refl, ◌∙◌, String, List,
  Option, none, some, true, false, ==_iff, string_eq, arith,
}
use react_ai_healthycare.EntitySelection.Sync.{
  signal_at_hand, Options, SyncState, selected, on_site_click, stale_clear_effect, availability,
}
use react_ai_healthycare.EntitySelection.Missing.{
  should_clear_iff, IsMissing, iterable_contains, Availability, should_clear_after_load,
}
use react_ai_healthycare.EntitySelection.Route.Laws.{
  normalize_of_IsNormal, normalize-IsNormal, normalize_none,
}
use react_ai_healthycare.EntitySelection.SearchParams.{SearchParams}
use react_ai_healthycare.EntitySelection.Route.{EntitySelection, selection, no_selection, normalize}
use react_ai_healthycare.EntitySelection.LocationState.{is_route_authoritative}
use react_ai_healthycare.EntitySelection.Sync.Laws.{route, selected-update, route-update, click_lem}

is_value_iff : (v : Option String) (k : String) → (is_value v k ≡ true) ↔ (v ≡ some k)
is_value_iff none k = ground arith
is_value_iff (some x) k = ground (arith, ==_iff x k)

-- The test that the signals are loaded, with the last of its cases as `settled`.
known_iff :
    (connected error replaying applied : Bool) (signal : Option String) (ids : List String)
    (settled : Bool) (P : Type 0)
    → (settled ≡ true) ↔ P
    → (connected && not error && (replaying || applied || signal_at_hand ids signal || settled)
        ≡ true)
      ↔ ((connected ≡ true)
          × (error ≡ false)
          × ((replaying ≡ true)
              ⊎ (applied ≡ true)
              ⊎ (signal ≡ none)
              ⊎ ((i : String) × (signal ≡ some i) × (iterable_contains ids i ≡ true))
              ⊎ P))
known_iff connected error replaying applied none ids settled P h = ground (arith, h)
known_iff connected error replaying applied (some i) ids settled P h = ground (arith, h)

not-IsMissing :
    (av : Availability) (i : String)
    → iterable_contains av.site_ids i ≡ true
    → ¬ IsMissing av (normalize (selection (some i) none none))
unfolding normalize
not-IsMissing av i h m = ground arith

module _ (sp : SearchParams) (o : Options) where
  abbrev pub clears : SyncState → Bool
  clears s =
      should_clear_after_load (route sp o s) (selected s) (availability sp o s)
        (is_route_authoritative s.location.state o.source)

  -- By the code's own test.
  pub stale_clear_by :
      (key : String) (s : SyncState)
      → ((clears s ≡ true)
          → (selected (stale_clear_effect sp o key s) ≡ no_selection)
            × (route sp o (stale_clear_effect sp o key s) ≡ no_selection))
        × ((clears s ≡ false) → stale_clear_effect sp o key s ≡ s)
  unfolding stale_clear_effect
  stale_clear_by key s = (
    λ c. (rw c (selected-update sp o key _ _), rw c (route-update sp o key _ _ ∙ normalize_none)),
    λ c. rw c refl,
  )

  -- The signals are known: the stream is up without an error, and it is a replay, the link was
  -- applied, the link's signal is in the data if it names one, or this location's grace has passed.
  abbrev pub AreSignalsKnown : SyncState → Type 0
  AreSignalsKnown s =
      (o.signals_connected ≡ true)
      × (o.signal_error ≡ false)
      × ((o.is_replaying ≡ true)
          ⊎ (s.url_selection_applied ≡ true)
          ⊎ ((route sp o s).signal_id ≡ none)
          ⊎ ((i : String) × ((route sp o s).signal_id ≡ some i)
              × (iterable_contains o.signals i ≡ true))
          ⊎ (s.settled_key ≡ some s.location.key))

  -- The selection is of an entity that is not in the data, where the data of its kind is known.
  abbrev pub IsGone : SyncState → EntitySelection → Type 0
  IsGone s n =
      ((i : String) × (n ≡ selection (some i) none none)
        × (o.sites_loaded ≡ true)
        × (iterable_contains o.sites i ≡ false))
      ⊎ ((i : String) × (n ≡ selection none (some i) none)
          × (o.assets_loaded ≡ true)
          × (iterable_contains o.assets i ≡ false))
      ⊎ ((i : String) × (n ≡ selection none none (some i))
          × AreSignalsKnown s
          × (iterable_contains o.signals i ≡ false))

  signals_loaded_iff :
      (s : SyncState) → ((availability sp o s).signals_loaded ≡ true) ↔ AreSignalsKnown s
  unfolding availability
  signals_loaded_iff s =
      known_iff o.signals_connected o.signal_error o.is_replaying s.url_selection_applied
        (route sp o s).signal_id o.signals (is_value s.settled_key s.location.key)
        (s.settled_key ≡ some s.location.key) (is_value_iff s.settled_key s.location.key)

  IsMissing-iff :
      (s : SyncState) (n : EntitySelection) → IsMissing (availability sp o s) n ↔ IsGone s n
  unfolding availability
  IsMissing-iff s n = (
    λ m. elim m [
      | inl (i, e, (l, a)) ↦ inl (i, e, l, a)
      | inr (inl (i, e, (l, a))) ↦ inr (inl (i, e, l, a))
      | inr (inr (i, e, (l, a))) ↦ inr (inr (i, e, (signals_loaded_iff s).0 l, a))
    ],
    λ m. elim m [
      | inl (i, e, l, a) ↦ inl (i, e, (l, a))
      | inr (inl (i, e, l, a)) ↦ inr (inl (i, e, (l, a)))
      | inr (inr (i, e, l, a)) ↦ inr (inr (i, e, ((signals_loaded_iff s).1 l, a)))
    ],
  )

  -- Where the entity selected is gone, that is not in the data of its kind, which is known, or the
  -- one in the URL is and the URL decides, the effect leaves nothing selected and nothing in the URL;
  -- where neither is so, it changes nothing.
  pub stale_clear_lem :
      (key : String) (s : SyncState)
      → let gone =
          ((is_route_authoritative s.location.state o.source ≡ true)
            × IsGone s (normalize (route sp o s)))
          ⊎ IsGone s (normalize (selected s)) in
        (gone
          → (selected (stale_clear_effect sp o key s) ≡ no_selection)
            × (route sp o (stale_clear_effect sp o key s) ≡ no_selection))
        × (¬ gone → stale_clear_effect sp o key s ≡ s)
  stale_clear_lem key s =
      let iff = should_clear_iff (route sp o s) (selected s) (availability sp o s) _ in
      let missing_route = IsMissing-iff s (normalize (route sp o s)) in
      let missing_state = IsMissing-iff s (normalize (selected s)) in
      (
        λ g. (stale_clear_by key s).0 (
            iff.1 (elim g [
              | inl (a, m) ↦ inl (a, missing_route.1 m)
              | inr m ↦ inr (missing_state.1 m)
            ])),
        λ n. elim (Bool-cases (clears s)) [
          | inl c ↦ absurd (
              n (elim (iff.0 c) [
                | inl (a, m) ↦ inl (a, missing_route.0 m)
                | inr m ↦ inr (missing_state.0 m)
              ]))
          | inr c ↦ (stale_clear_by key s).1 c
        ],
      )

  -- A click on a site that is in the data stays: the effect that clears stale selections, run on
  -- the state after the click, changes nothing, whatever else is loaded.
  pub site_click_stays :
      (key later : String) (i : String) (s : SyncState)
      → iterable_contains o.sites i ≡ true
      → stale_clear_effect sp o later (on_site_click sp o key (some i) s)
        ≡ on_site_click sp o key (some i) s
  site_click_stays key later i s h =
      let t = on_site_click sp o key (some i) s in
      let (sel, r) = (click_lem sp o key (some i) s).0 in (stale_clear_by later t).1 (stays t sel r)
    where
      stays :
          (t : SyncState)
          → selected t ≡ selection (some i) none none
          → route sp o t ≡ normalize (selection (some i) none none)
          → should_clear_after_load
              (route sp o t)
              (selected t)
              (availability sp o t)
              (is_route_authoritative t.location.state o.source)
            ≡ false
      stays t sel r =
          elim (Bool-cases (
            should_clear_after_load (route sp o t) (selected t) (availability sp o t)
              (is_route_authoritative t.location.state o.source))) [
                | inr e ↦ e
                | inl c ↦ absurd (elim ((should_clear_iff _ _ _ _).0 c) [
                  | inl p ↦
                      not-IsMissing av i here
                        (subst (IsMissing av) (ap normalize r ∙ normalized) p.1)
                  | inr q ↦ not-IsMissing av i here (subst (IsMissing av) (ap normalize sel) q)
                ])
              ]
        where
          av : Availability
          av = availability sp o t

          here : iterable_contains (availability sp o t).site_ids i ≡ true
          here = unfold availability in h

          normalized :
              normalize (normalize (selection (some i) none none))
              ≡ normalize (selection (some i) none none)
          normalized = normalize_of_IsNormal _ (normalize-IsNormal _)
