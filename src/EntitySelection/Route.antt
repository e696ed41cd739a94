-- ===== src/EntitySelection/Route.antt =====
-- frontend/src/lib/entitySelectionRoute.ts: the selection in the URL's search text.
pub mod Laws
use Prim.Native.String
use react_ai_healthycare.Base.{
  String, Option, none, some, Bool, true, false, truthy?, is_some, ◌||◌, if◌then◌else◌, ◌==◌,
}
use react_ai_healthycare.EntitySelection.SearchParams.{
  Params, SearchParams, get, set, delete, search_text,
}

pub record EntitySelection : Type 0 where
  pub site_id : Option String
  pub asset_id : Option String
  pub signal_id : Option String

abbrev pub selection : Option String → Option String → Option String → EntitySelection
selection site asset signal = record { site_id = site; asset_id = asset; signal_id = signal }

abbrev pub no_selection : EntitySelection
no_selection = selection none none none

-- An empty id is falsy, as null is.
unfoldable pub normalize : EntitySelection → EntitySelection
normalize sel = elim (truthy? sel.site_id) [
  | some site ↦ selection (some site) none none
  | none ↦ elim (truthy? sel.asset_id) [
    | some asset ↦ selection none (some asset) none
    | none ↦ elim (truthy? sel.signal_id) [
      | some signal ↦ selection none none (some signal)
      | none ↦ no_selection
    ]
  ]
]

-- `if (id) params.set(key, id)`
abbrev pub set_if : String → Option String → Params → Params
set_if k i ps = elim (truthy? i) [ none ↦ ps | some v ↦ set k v ps ]

abbrev pub clear_keys : Params → Params
clear_keys ps = delete "signal_id" (delete "asset_id" (delete "site_id" ps))

-- The parameters with the three keys cleared and the ids of `n` set.
abbrev pub write_ids : Params → EntitySelection → Params
write_ids ps n =
    set_if "signal_id" n.signal_id
      (set_if "asset_id" n.asset_id (set_if "site_id" n.site_id (clear_keys ps)))

-- `Boolean(siteId || assetId || signalId)`
abbrev pub has_any : EntitySelection → Bool
has_any r =
    is_some (truthy? r.site_id) || is_some (truthy? r.asset_id) || is_some (truthy? r.signal_id)

module _ (sp : SearchParams) where
  unfoldable pub parse_entity_selection_route : String → EntitySelection
  parse_entity_selection_route search =
      let params = sp.parse search in
      normalize (selection (get "site_id" params) (get "asset_id" params) (get "signal_id" params))

  unfoldable pub has_entity_selection_route : String → Bool
  unfolding parse_entity_selection_route
  has_entity_selection_route search = has_any (parse_entity_selection_route search)

  unfoldable pub build_entity_selection_search : String → EntitySelection → String
  unfolding search_text
  build_entity_selection_search search sel =
      search_text sp (write_ids (sp.parse search) (normalize sel))

  unfoldable pub build_entity_selection_path : String → String → EntitySelection → String
  unfolding build_entity_selection_search
  build_entity_selection_path pathname search sel =
      String.◌++◌ pathname (build_entity_selection_search search sel)

  -- `pathname` is "/map" or "/globe".
  unfoldable pub build_map_globe_selection_path : String → String → String
  unfolding build_entity_selection_path parse_entity_selection_route
  build_map_globe_selection_path pathname search =
      build_entity_selection_path pathname "" (parse_entity_selection_route search)

  unfoldable pub clear_entity_selection_route : String → String
  unfolding build_entity_selection_search
  clear_entity_selection_route search = build_entity_selection_search search no_selection
