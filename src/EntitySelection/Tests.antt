-- ===== src/EntitySelection/Tests.antt =====
-- The laws of the selection on a page with one site in its data and a plain search text.
use react_ai_healthycare.Base.{
  sym, ◌∙◌, String, [], ◌∷◌, none, some, true, false, ◌≡◌, ◌≢◌, ◌↔◌, ◌⊎◌, refl, arith, ==_iff,
  string_eq,
}
use react_ai_healthycare.Api.Json.{null, get_field}
use react_ai_healthycare.EntitySelection.SearchParams.{search_text}
use react_ai_healthycare.EntitySelection.Codec.{plain_params}
use react_ai_healthycare.EntitySelection.Route.{
  selection, no_selection, normalize, parse_entity_selection_route, build_entity_selection_search,
}
use react_ai_healthycare.EntitySelection.Route.Laws.{parse-build_roundtrip}
use react_ai_healthycare.EntitySelection.Missing.{
  Availability, IsMissing, should_clear_after_load, should_clear_iff,
}
use react_ai_healthycare.EntitySelection.Tokens.{has}
use react_ai_healthycare.EntitySelection.LocationState.{
  map, globe, is_route_authoritative, build_sync_location_state, read_sync_location_state,
  as_object_record, sync_state_key, read-build_sync,
}
use react_ai_healthycare.EntitySelection.Sync.{
  Options, SyncState, selected, update_selection_route, reset_applied_effect, consume_effect,
  stale_clear_effect,
}
use react_ai_healthycare.EntitySelection.Sync.Clearing.{IsGone, stale_clear_lem}
use react_ai_healthycare.EntitySelection.Sync.Laws.{route, own_write_recognised}

-- In the coding of Codec.antt: "q" with the value "x", and with "site_id" after it.
abbrev query : String
query = "?xqe.xxe."

abbrev with_site : String
with_site = "?xqe.xxe.xsxixtxex_xixde.xsx1e."

abbrev options : Options
options = record {
  source = map;
  signals = [];
  signals_connected = true;
  signal_error = false;
  sites = "s1" ∷ [];
  assets = [];
  sites_loaded = true;
  assets_loaded = true;
  is_replaying = false;
}

abbrev page : SyncState
page = record {
  location = record { search = query; state = null; key = "k0" };
  url_selection_applied = false;
  next_token = 0;
  pending = [];
  selected_site_id = none;
  selected_asset_id = some "gone";
  selected_signal_id = none;
  settled_key = none;
  settled_timer = none;
  timer_for = none;
}

written :
    build_entity_selection_search plain_params query (selection (some "s1") none none) ≡ with_site
unfolding build_entity_selection_search normalize plain_params search_text
written = refl

changes : build_entity_selection_search plain_params query (selection (some "s1") none none) ≢ query
changes e = ground (arith, sym written ∙ e, ==_iff {A = String} with_site query)

own_write_recognised_example :
    let t = consume_effect plain_params options (
      reset_applied_effect plain_params options (
        update_selection_route plain_params options "k1" (selection (some "s1") none none) page)) in
    (t.url_selection_applied ≡ true)
    × (is_route_authoritative t.location.state map ≡ false)
    × (has t.next_token t.pending ≡ false)
own_write_recognised_example =
    own_write_recognised plain_params options "k1" (selection (some "s1") none none) page
      (omega arith) changes

stale_clear_example :
    let gone =
      ((is_route_authoritative null map ≡ true)
        × IsGone plain_params options page (normalize (route plain_params options page)))
      ⊎ IsGone plain_params options page (normalize (selected page)) in
    (gone
      → (selected (stale_clear_effect plain_params options "k1" page) ≡ no_selection)
        × (route plain_params options (stale_clear_effect plain_params options "k1" page)
            ≡ no_selection))
    × (¬ gone → stale_clear_effect plain_params options "k1" page ≡ page)
stale_clear_example = stale_clear_lem plain_params options "k1" page

parse-build_roundtrip_example :
    parse_entity_selection_route plain_params
      (build_entity_selection_search plain_params query (selection (some "s1") (some "a1") none))
    ≡ normalize (selection (some "s1") (some "a1") none)
parse-build_roundtrip_example =
    parse-build_roundtrip plain_params query (selection (some "s1") (some "a1") none)

abbrev loaded : Availability
loaded = record {
  sites_loaded = true;
  assets_loaded = true;
  signals_loaded = false;
  site_ids = "s1" ∷ [];
  asset_ids = [];
  signal_ids = [];
}

should_clear_iff_example :
    (should_clear_after_load no_selection (selection (some "s2") none none) loaded true ≡ true) ↔ (
      ((true ≡ true) × IsMissing loaded (normalize no_selection))
      ⊎ IsMissing loaded (normalize (selection (some "s2") none none)))
should_clear_iff_example =
    should_clear_iff no_selection (selection (some "s2") none none) loaded true

read-build_sync_example :
    (read_sync_location_state
        (build_sync_location_state null (record { source = globe; token = 7 }))
      ≡ some (record { source = globe; token = 7 }))
    × ((key : String)
        → key ≢ sync_state_key
        → get_field key (
            as_object_record
              (build_sync_location_state null (record { source = globe; token = 7 })))
          ≡ get_field key (as_object_record null))
read-build_sync_example = read-build_sync null (record { source = globe; token = 7 }) (omega arith)
