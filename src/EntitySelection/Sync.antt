-- ===== src/EntitySelection/Sync.antt =====
-- frontend/src/hooks/useEntitySelectionSync.ts: the hook's state with the router's location, and one
-- function for each callback and effect. `navigate` with `replace` puts the new search text and state
-- in the location at once, under the new key that the router draws (`fresh_key`).
pub mod Laws
pub mod Clearing
use react_ai_healthycare.Base.{
  ℕ, ◌+◌, String, List, [], ◌∷◌, Option, none, some, Bool, true, false, not, ◌||◌, ◌&&◌,
  if◌then◌else◌, ◌==◌, string_eq, is_value, is_some,
}
use react_ai_healthycare.Api.Json.{Json}
use react_ai_healthycare.EntitySelection.SearchParams.{SearchParams}
use react_ai_healthycare.EntitySelection.Route.{
  EntitySelection, selection, no_selection, parse_entity_selection_route,
  build_entity_selection_search,
}
use react_ai_healthycare.EntitySelection.Missing.{
  Availability, iterable_contains, should_clear_after_load,
}
use react_ai_healthycare.EntitySelection.Tokens.{track}
use react_ai_healthycare.EntitySelection.LocationState.{
  SyncSource, SyncMetadata, build_sync_location_state, is_route_authoritative,
  consume_sync_location_state,
}

pub record Location : Type 0 where
  pub search : String
  pub state : Json
  pub key : String

-- The options of the hook; the lists are of ids.
pub record Options : Type 0 where
  pub source : SyncSource
  pub signals : List String
  pub signals_connected : Bool
  pub signal_error : Bool
  pub sites : List String
  pub assets : List String
  pub sites_loaded : Bool
  pub assets_loaded : Bool
  pub is_replaying : Bool

-- `settled_timer` is the key for which the running timer was started, none if no timer runs.
pub record SyncState : Type 0 where
  pub location : Location
  pub url_selection_applied : Bool
  pub next_token : ℕ
  pub pending : List ℕ
  pub selected_site_id : Option String
  pub selected_asset_id : Option String
  pub selected_signal_id : Option String
  pub settled_key : Option String
  pub settled_timer : Option String
  pub timer_for : Option String

abbrev pub selected : SyncState → EntitySelection
selected s = selection s.selected_site_id s.selected_asset_id s.selected_signal_id

abbrev pub select : EntitySelection → SyncState → SyncState
select sel s = record s {
  selected_site_id = sel.site_id;
  selected_asset_id = sel.asset_id;
  selected_signal_id = sel.signal_id;
}

-- `signalId == null || signals.some(s => s.id === signalId)`
abbrev pub signal_at_hand : List String → Option String → Bool
signal_at_hand ids none = true
signal_at_hand ids (some i) = iterable_contains ids i

module _ (sp : SearchParams) (o : Options) where
  unfoldable pub update_selection_route : String → EntitySelection → SyncState → SyncState
  update_selection_route fresh_key sel s =
      let next_search = build_entity_selection_search sp s.location.search sel in
      let token = s.next_token + 1 in
      if next_search == s.location.search then s else record s {
        next_token = token;
        pending = track s.pending token;
        location = record {
          search = next_search;
          state =
              build_sync_location_state s.location.state
                (record { source = o.source; token = token });
          key = fresh_key;
        };
      }

  unfoldable pub on_site_click : String → Option String → SyncState → SyncState
  on_site_click fresh_key site_id s =
      let sel = selection site_id none none in update_selection_route fresh_key sel (select sel s)

  unfoldable pub on_asset_click : String → Option String → SyncState → SyncState
  on_asset_click fresh_key asset_id s =
      let sel = selection none asset_id none in update_selection_route fresh_key sel (select sel s)

  unfoldable pub on_signal_click : String → Option String → SyncState → SyncState
  on_signal_click fresh_key signal_id s =
      let sel = selection none none signal_id in update_selection_route fresh_key sel (select sel s)

  -- the effect on `location.search`
  unfoldable pub reset_applied_effect : SyncState → SyncState
  reset_applied_effect s = record s { url_selection_applied = false }

  -- the effect that consumes the token of an own write
  unfoldable pub consume_effect : SyncState → SyncState
  consume_effect s =
      if s.url_selection_applied
      then s
      else (let (left, own) = consume_sync_location_state s.location.state o.source s.pending in
          record s { pending = left; url_selection_applied = own })

  unfoldable pub availability : SyncState → Availability
  availability s =
      let route = parse_entity_selection_route sp s.location.search in
      record {
        sites_loaded = o.sites_loaded;
        assets_loaded = o.assets_loaded;
        signals_loaded =
            o.signals_connected
            && not o.signal_error
            && (o.is_replaying
                || s.url_selection_applied
                || signal_at_hand o.signals route.signal_id
                || is_value s.settled_key s.location.key);
        site_ids = o.sites;
        asset_ids = o.assets;
        signal_ids = o.signals;
      }

  -- the effect that clears a selection whose entity is gone
  unfoldable pub stale_clear_effect : String → SyncState → SyncState
  stale_clear_effect fresh_key s =
      let route = parse_entity_selection_route sp s.location.search in
      let authoritative = is_route_authoritative s.location.state o.source in
      if should_clear_after_load route (selected s) (availability s) authoritative
      then update_selection_route fresh_key no_selection (select no_selection s)
      else s

  -- the effect of the grace period: on disconnect or error it resets; with a signal in the route it
  -- starts a timer of 1500 ms for this location, unless one runs for it already
  unfoldable pub grace_effect : SyncState → SyncState
  grace_effect s =
      if not o.signals_connected || o.signal_error
      then record s { settled_key = none; timer_for = none; settled_timer = none }
      else elim (parse_entity_selection_route sp s.location.search).signal_id [
        | none ↦ s
        | some i ↦
            if is_some s.settled_timer && is_value s.timer_for s.location.key
            then s
            else record s { timer_for = some s.location.key; settled_timer = some s.location.key }
      ]

  -- the cleanup of the effect, and the timer going off
  unfoldable pub grace_cleanup : SyncState → SyncState
  grace_cleanup s = record s { settled_timer = none }

  unfoldable pub grace_timeout : SyncState → SyncState
  grace_timeout s = elim s.settled_timer [
    | none ↦ s
    | some key ↦ record s { settled_key = some key; settled_timer = none }
  ]
