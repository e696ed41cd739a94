-- ===== src/EntitySelection/Missing.antt =====
-- frontend/src/lib/entitySelectionRoute.ts: when a selection has to be cleared because its entity is
-- not in the data.
use react_ai_healthycare.Base.{
  inr, arith, inl, ◌↔◌, ◌⊎◌, String, List, [], ◌∷◌, none, some, Bool, true, false, not, ◌||◌, ◌&&◌,
  ◌≡◌, if◌then◌else◌, ◌==◌, string_eq, truthy?,
}
use react_ai_healthycare.EntitySelection.Route.{EntitySelection, normalize, selection}
use react_ai_healthycare.EntitySelection.Route.Laws.{normalize-IsNormal, normal_cases}

pub record Availability : Type 0 where
  pub sites_loaded : Bool
  pub assets_loaded : Bool
  pub signals_loaded : Bool
  pub site_ids : List String
  pub asset_ids : List String
  pub signal_ids : List String

abbrev pub iterable_contains : List String → String → Bool
iterable_contains [] target = false
iterable_contains (v ∷ vs) target = if v == target then true else iterable_contains vs target

unfoldable pub is_missing_after_load : EntitySelection → Availability → Bool
is_missing_after_load sel av =
    let n = normalize sel in
    elim (truthy? n.site_id) [
      | some site ↦ av.sites_loaded && not (iterable_contains av.site_ids site)
      | none ↦ elim (truthy? n.asset_id) [
        | some asset ↦ av.assets_loaded && not (iterable_contains av.asset_ids asset)
        | none ↦ elim (truthy? n.signal_id) [
          | some signal ↦ av.signals_loaded && not (iterable_contains av.signal_ids signal)
          | none ↦ false
        ]
      ]
    ]

unfoldable pub should_clear_after_load :
    EntitySelection → EntitySelection → Availability → Bool → Bool
should_clear_after_load route_selection state_selection av route_authoritative =
    let route_missing = route_authoritative && is_missing_after_load route_selection av in
    let state_missing = is_missing_after_load state_selection av in route_missing || state_missing

-- The ids of the kind that holds `i` are loaded, and `i` is not among them.
abbrev pub IsAbsent : Bool → List String → String → Type 0
IsAbsent loaded ids i = (loaded ≡ true) × (iterable_contains ids i ≡ false)

-- The selection is of one entity, whose kind is loaded and which is not in the data.
abbrev pub IsMissing : Availability → EntitySelection → Type 0
IsMissing av n =
    ((i : String) × (n ≡ selection (some i) none none) × IsAbsent av.sites_loaded av.site_ids i)
    ⊎ ((i : String) × (n ≡ selection none (some i) none) × IsAbsent av.assets_loaded av.asset_ids i)
    ⊎ ((i : String) × (n ≡ selection none none (some i))
        × IsAbsent av.signals_loaded av.signal_ids i)

is_missing_after_load_iff :
    (sel : EntitySelection) (av : Availability)
    → (is_missing_after_load sel av ≡ true) ↔ IsMissing av (normalize sel)
unfolding is_missing_after_load
is_missing_after_load_iff sel av = elim (normal_cases (normalize sel) (normalize-IsNormal sel)) [
  | inl e ↦ (λ h. ground arith, λ m. ground arith)
  | inr (inl (i, e, t)) ↦ (λ h. inl (i, e, ground arith), λ m. ground arith)
  | inr (inr (inl (i, e, t))) ↦ (λ h. inr (inl (i, e, ground arith)), λ m. ground arith)
  | inr (inr (inr (i, e, t))) ↦ (λ h. inr (inr (i, e, ground arith)), λ m. ground arith)
]

-- A selection is cleared exactly when the state's selection is missing, or the route's is and the
-- route is authoritative. In particular nothing is cleared before the entity's kind is loaded.
pub should_clear_iff :
    (route state : EntitySelection) (av : Availability) (authoritative : Bool)
    → (should_clear_after_load route state av authoritative ≡ true)
      ↔ (((authoritative ≡ true) × IsMissing av (normalize route)) ⊎ IsMissing av (normalize state))
unfolding should_clear_after_load
should_clear_iff route state av authoritative =
    ground (arith, is_missing_after_load_iff route av, is_missing_after_load_iff state av)
