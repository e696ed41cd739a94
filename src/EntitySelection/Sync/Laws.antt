-- ===== src/EntitySelection/Sync/Laws.antt =====
-- The selection, the URL and the pending route writes stay together.

use react_ai_healthycare.Base.{
  ℕ, ◌+◌, ◌≤◌, ◌≡◌, ◌≢◌, refl, String, List, Option, none, some, true, false, ==_iff, ==_ne, [],
  ◌∷◌, string_eq, arith, length,
}
use react_ai_healthycare.EntitySelection.Sync.{
  Json, Options, SyncState, selected, update_selection_route, on_site_click, on_asset_click,
  on_signal_click, reset_applied_effect, consume_effect,
}
use react_ai_healthycare.EntitySelection.Route.Laws.{parse-build_roundtrip}
use react_ai_healthycare.EntitySelection.SearchParams.{SearchParams}
use react_ai_healthycare.EntitySelection.Route.{
  EntitySelection, selection, normalize, parse_entity_selection_route,
  build_entity_selection_search,
}
use react_ai_healthycare.EntitySelection.Tokens.{max_pending, has, delete, track, has-track}
use react_ai_healthycare.EntitySelection.LocationState.{
  SyncSource, map, globe, same_source, is_route_authoritative, consume_sync_location_state,
  build_sync_location_state, read_sync_location_state, read-build_sync,
}

same_source_refl : (s : SyncSource) → same_source s s ≡ true
same_source_refl map = refl
same_source_refl globe = refl

has-delete : (t : ℕ) (ts : List ℕ) → has t (delete t ts).0 ≡ false
has-delete t [] = refl
has-delete t (u ∷ ts) = ground (arith, has-delete t ts)

read_own :
    (state : Json) (source : SyncSource) (token : ℕ) (pending : List ℕ)
    → read_sync_location_state state ≡ some (record { source = source; token = token })
    → (consume_sync_location_state state source pending ≡ delete token pending)
      × (is_route_authoritative state source ≡ false)
unfolding consume_sync_location_state is_route_authoritative
read_own state source token pending e =
    (ground (arith, same_source_refl source), ground (arith, same_source_refl source))

module _ (sp : SearchParams) (o : Options) where
  abbrev pub route : SyncState → EntitySelection
  route s = parse_entity_selection_route sp s.location.search

  pub route-update :
      (key : String) (sel : EntitySelection) (s : SyncState)
      → route (update_selection_route sp o key sel s) ≡ normalize sel
  unfolding update_selection_route
  route-update key sel s = ground (
    arith,
    parse-build_roundtrip sp s.location.search sel,
    ==_iff (build_entity_selection_search sp s.location.search sel) s.location.search,
  )

  pub selected-update :
      (key : String) (sel : EntitySelection) (s : SyncState)
      → selected (update_selection_route sp o key sel s) ≡ selected s
  unfolding update_selection_route
  selected-update key sel s = ground arith

  -- After a click on a site, an asset or a signal that alone is selected, and the URL reads as it.
  pub click_lem :
      (key : String) (i : Option String) (s : SyncState)
      → ((selected (on_site_click sp o key i s) ≡ selection i none none)
          × (route (on_site_click sp o key i s) ≡ normalize (selection i none none)))
        × ((selected (on_asset_click sp o key i s) ≡ selection none i none)
            × (route (on_asset_click sp o key i s) ≡ normalize (selection none i none)))
        × ((selected (on_signal_click sp o key i s) ≡ selection none none i)
            × (route (on_signal_click sp o key i s) ≡ normalize (selection none none i)))
  click_lem key i s = (
    (unfold on_site_click in selected-update key _ _, unfold on_site_click in route-update key _ _),
    (
      unfold on_asset_click in selected-update key _ _,
      unfold on_asset_click in route-update key _ _,
    ),
    (
      unfold on_signal_click in selected-update key _ _,
      unfold on_signal_click in route-update key _ _,
    ),
  )

  -- A write of the route that changes the URL is known again by the page that made it: the effects
  -- find it as their own and do not take it for a deep link, the mark is used up, and the route does
  -- not decide against the page's own state.
  pub own_write_recognised :
      (key : String) (sel : EntitySelection) (s : SyncState)
      → length s.pending ≤ max_pending
      → build_entity_selection_search sp s.location.search sel ≢ s.location.search
      → let t =
          consume_effect sp o (reset_applied_effect sp o (update_selection_route sp o key sel s)) in
        (t.url_selection_applied ≡ true)
        × (is_route_authoritative t.location.state o.source ≡ false)
        × (has t.next_token t.pending ≡ false)
  unfolding update_selection_route reset_applied_effect consume_effect
  own_write_recognised key sel s h changes =
      let token = s.next_token + 1 in
      let own =
        read_own (build_sync_location_state s.location.state _) o.source token
          (track s.pending token) (read-build_sync s.location.state _ (omega arith)).0 in
      rw (==_ne _ _ changes, own.0)
        (has-track s.pending token h, own.1, has-delete token (track s.pending token))
