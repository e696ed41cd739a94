-- ===== src/EntitySelection/Route/Laws.antt =====
-- The URL gives back the selection that was written to it, and keeps its other parameters.
use react_ai_healthycare.Base.{
  ◌⊎◌, String, Option, none, some, true, false, truthy?, ◌or_else◌, ◌≡◌, ◌≢◌, ◌↔◌, refl, arith,
  ◌==◌, ==_iff, string_eq, if◌then◌else◌, ◌||◌, Option-cases, Bool-cases, inl, inr, ◌∙◌, ap,
}
use react_ai_healthycare.EntitySelection.Route.{
  selection, EntitySelection, no_selection, normalize, set_if, clear_keys, write_ids,
  parse_entity_selection_route, has_entity_selection_route, build_entity_selection_search,
  clear_entity_selection_route, has_any,
}
use react_ai_healthycare.EntitySelection.SearchParams.{
  Params, SearchParams, get, delete, get-delete, get-set, parse-search_text,
}

truthy?_idem : (i : Option String) → truthy? (truthy? i) ≡ truthy? i
truthy?_idem none = refl
truthy?_idem (some s) = ground arith

-- Each field of a normalized selection is null or not empty, and at most one is not null.
pub record IsNormal (sel : EntitySelection) : Type 0 where
  pub site : truthy? sel.site_id ≡ sel.site_id
  pub asset : truthy? sel.asset_id ≡ sel.asset_id
  pub signal : truthy? sel.signal_id ≡ sel.signal_id
  pub site_alone : sel.site_id ≢ none → (sel.asset_id ≡ none) × (sel.signal_id ≡ none)
  pub asset_alone : sel.asset_id ≢ none → (sel.site_id ≡ none) × (sel.signal_id ≡ none)

pub normalize-IsNormal : (sel : EntitySelection) → IsNormal (normalize sel)
unfolding normalize
normalize-IsNormal sel =
    ground (arith, truthy?_idem sel.site_id, truthy?_idem sel.asset_id, truthy?_idem sel.signal_id)

pub normalize_of_IsNormal : (sel : EntitySelection) → IsNormal sel → normalize sel ≡ sel
unfolding normalize
normalize_of_IsNormal sel h = ground arith

-- A normalized selection is of one entity or of none.
pub normal_cases :
    (n : EntitySelection)
    → IsNormal n
    → (n ≡ no_selection)
      ⊎ ((i : String) × (n ≡ selection (some i) none none) × (truthy? (some i) ≡ some i))
      ⊎ ((i : String) × (n ≡ selection none (some i) none) × (truthy? (some i) ≡ some i))
      ⊎ ((i : String) × (n ≡ selection none none (some i)) × (truthy? (some i) ≡ some i))
normal_cases n v = elim (Option-cases n.site_id) [
  | inr (i, e) ↦ inr (inl (i, ground arith, ground arith))
  | inl s ↦ elim (Option-cases n.asset_id) [
    | inr (i, e) ↦ inr (inr (inl (i, ground arith, ground arith)))
    | inl a ↦ elim (Option-cases n.signal_id) [
      | inr (i, e) ↦ inr (inr (inr (i, ground arith, ground arith)))
      | inl g ↦ inl (ground arith)
    ]
  ]
]

get-set_if :
    (k j : String) (i : Option String) (ps : Params)
    → get j (set_if k i ps) ≡ (if k == j then truthy? i or_else get j ps else get j ps)
get-set_if k j i ps = elim (Option-cases (truthy? i)) [
  | inl e ↦ ground arith
  | inr (v, e) ↦ ground (arith, get-set k j v ps)
]

get-clear_keys :
    (j : String) (ps : Params)
    → get j (clear_keys ps)
      ≡ (if "signal_id" == j || "asset_id" == j || "site_id" == j then none else get j ps)
get-clear_keys j ps = ground (
  arith,
  get-delete "signal_id" j (delete "asset_id" (delete "site_id" ps)),
  get-delete "asset_id" j (delete "site_id" ps),
  get-delete "site_id" j ps,
)

get-write_ids :
    (j : String) (ps : Params) (n : EntitySelection)
    → IsNormal n
    → get j (write_ids ps n) ≡ (
        if "signal_id" == j
        then n.signal_id
        else (if "asset_id" == j
            then n.asset_id
            else (if "site_id" == j then n.site_id else get j ps)))
get-write_ids j ps n v =
    let p0 = clear_keys ps in
    let p1 = set_if "site_id" n.site_id p0 in
    let p2 = set_if "asset_id" n.asset_id p1 in
    rw
      (
        get-set_if "signal_id" j n.signal_id p2,
        get-set_if "asset_id" j n.asset_id p1,
        get-set_if "site_id" j n.site_id p0,
        get-clear_keys j ps,
        v.site,
        v.asset,
        v.signal,
      )
      (ground (
        arith,
        ==_iff "signal_id" j,
        ==_iff "asset_id" j,
        ==_iff "site_id" j,
        ==_iff {A = String} "signal_id" "asset_id",
        ==_iff {A = String} "signal_id" "site_id",
        ==_iff {A = String} "asset_id" "site_id",
      ))

pub normalize_none : normalize no_selection ≡ no_selection
unfolding normalize
normalize_none = refl

has_any_iff : (r : EntitySelection) → IsNormal r → (has_any r ≡ true) ↔ (r ≢ no_selection)
has_any_iff r v = (
  λ h e. cc (ap has_any e),
  λ ne. elim (Bool-cases (has_any r)) [ inl h ↦ h | inr h ↦ absurd (ne (ground arith)) ],
)

module _ (sp : SearchParams) where
  parse-build :
      (search : String) (sel : EntitySelection)
      → sp.parse (build_entity_selection_search sp search sel)
        ≡ write_ids (sp.parse search) (normalize sel)
  unfolding build_entity_selection_search
  parse-build search sel = parse-search_text sp _

  -- Reading the selection from a search text to which it was written gives it back, normalized.
  pub parse-build_roundtrip :
      (search : String) (sel : EntitySelection)
      → parse_entity_selection_route sp (build_entity_selection_search sp search sel)
        ≡ normalize sel
  unfolding parse_entity_selection_route
  parse-build_roundtrip search sel =
      let ps = sp.parse search in
      let v = normalize-IsNormal sel in
      rw
        (
          parse-build search sel,
          get-write_ids "site_id" ps (normalize sel) v,
          get-write_ids "asset_id" ps (normalize sel) v,
          get-write_ids "signal_id" ps (normalize sel) v,
        )
        (normalize_of_IsNormal (normalize sel) v)

  -- Writing a selection leaves every other parameter of the search text as it was.
  pub build-keeps_other :
      (search key : String) (sel : EntitySelection)
      → key ≢ "site_id"
      → key ≢ "asset_id"
      → key ≢ "signal_id"
      → get key (sp.parse (build_entity_selection_search sp search sel)) ≡ get key (sp.parse search)
  build-keeps_other search key sel a b c = rw (parse-build search sel) (
      ground (
        arith,
        get-write_ids key (sp.parse search) (normalize sel) (normalize-IsNormal sel),
        ==_iff "signal_id" key,
        ==_iff "asset_id" key,
        ==_iff "site_id" key,
      ))

  parse_route-IsNormal : (search : String) → IsNormal (parse_entity_selection_route sp search)
  unfolding parse_entity_selection_route
  parse_route-IsNormal search = normalize-IsNormal _

  -- A search text has a selection exactly when it reads as one that is not all null, and once the
  -- selection is cleared it has none.
  pub has_route_iff :
      (search : String)
      → ((has_entity_selection_route sp search ≡ true)
          ↔ (parse_entity_selection_route sp search ≢ no_selection))
        × (has_entity_selection_route sp (clear_entity_selection_route sp search) ≡ false)
  unfolding has_entity_selection_route clear_entity_selection_route
  has_route_iff search = (
    has_any_iff _ (parse_route-IsNormal search),
    ap has_any (parse-build_roundtrip search no_selection ∙ normalize_none),
  )
