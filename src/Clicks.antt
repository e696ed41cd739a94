-- ===== src/Clicks.antt =====
-- frontend/src/lib/mapClickResolution.ts: which of the features under a click is taken.
pub mod Laws
mod Tests
use react_ai_healthycare.Base.{
  ℕ, String, List, [], ◌∷◌, Option, none, some, Bool, true, false, if◌then◌else◌, ◌==◌, string_eq,
  truthy?, Map, lookup,
}
use react_ai_healthycare.Base.Int.{ℤ, pos, negsuc, leb_ℤ}
use react_ai_healthycare.Api.Json.{Fields}

pub data MapInteractiveKind : Type 0 where
  site asset signal cluster : MapInteractiveKind

-- `layer?.id`
pub record MapFeature : Type 0 where
  pub layer_id : Option String
  pub properties : Fields

abbrev pub kind_by_layer_id : Map String MapInteractiveKind
kind_by_layer_id =
    ("site-circles", site)
    ∷ ("site-selection-ring", site)
    ∷ ("asset-circles", asset)
    ∷ ("asset-symbols", asset)
    ∷ ("asset-selection-ring", asset)
    ∷ ("signal-clusters", cluster)
    ∷ ("signal-cluster-count", cluster)
    ∷ ("signal-circles", signal)
    ∷ ("signal-symbols", signal)
    ∷ ("selected-signal-ring", signal)
    ∷ ("selected-signal-circle", signal)
    ∷ ("selected-signal-symbol", signal)
    ∷ []

abbrev pub kind_priority : MapInteractiveKind → ℕ
kind_priority site = 4
kind_priority asset = 3
kind_priority signal = 2
kind_priority cluster = 1

pub record Candidate : Type 0 where
  pub kind : MapInteractiveKind
  pub feature : MapFeature
  pub layer_id : String

-- `bestCandidate` and `bestPriority`
pub record Best : Type 0 where
  pub candidate : Option Candidate
  pub priority : ℤ

unfoldable pub kind_of_layer : String → Option MapInteractiveKind
kind_of_layer id = lookup id kind_by_layer_id

-- The candidate that a feature gives, none where the loop goes on.
abbrev pub with_kind : MapFeature → String → Option MapInteractiveKind → Option Candidate
with_kind f id none = none
with_kind f id (some kind) = some (record { kind = kind; feature = f; layer_id = id })

abbrev pub with_layer : MapFeature → Option String → Option Candidate
with_layer f none = none
with_layer f (some id) = with_kind f id (kind_of_layer id)

unfoldable pub candidate_of : MapFeature → Option Candidate
candidate_of f = with_layer f (truthy? f.layer_id)

abbrev pub consider : Option Candidate → Best → Best
consider none b = b
consider (some c) b =
    if leb_ℤ (pos (kind_priority c.kind)) b.priority
    then b
    else record { candidate = some c; priority = pos (kind_priority c.kind) }

abbrev pub resolve_from : Best → List MapFeature → Best
resolve_from b [] = b
resolve_from b (f ∷ fs) = resolve_from (consider (candidate_of f) b) fs

abbrev pub no_candidate : Best
no_candidate = record { candidate = none; priority = negsuc 0 }

unfoldable pub resolve_map_click_candidate : List MapFeature → Option Candidate
unfolding candidate_of kind_of_layer
resolve_map_click_candidate features = (resolve_from no_candidate features).candidate
