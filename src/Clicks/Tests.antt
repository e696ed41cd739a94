-- ===== src/Clicks/Tests.antt =====
-- A signal and two assets under one click, and a layer that is not interactive.
use react_ai_healthycare.Base.{String, List, [], ◌∷◌, none, some, ◌≡◌, ◌⊎◌, refl, All}
use react_ai_healthycare.Api.Json.{end}
use react_ai_healthycare.Clicks.{
  MapFeature, Candidate, asset, resolve_map_click_candidate, candidate_of,
}
use react_ai_healthycare.Clicks.Laws.{IsFirstBest, resolve_map_click_candidate_lem}

abbrev on_layer : String → MapFeature
on_layer id = record { layer_id = some id; properties = end }

abbrev under_click : List MapFeature
under_click =
    on_layer "background"
    ∷ on_layer "signal-circles"
    ∷ on_layer "asset-symbols"
    ∷ on_layer "asset-circles"
    ∷ []

asset_wins :
    resolve_map_click_candidate under_click
    ≡ some (record { kind = asset; feature = on_layer "asset-symbols"; layer_id = "asset-symbols" })
unfolding resolve_map_click_candidate
asset_wins = refl

resolve_map_click_candidate_example :
    ((resolve_map_click_candidate under_click ≡ none)
      × All (λ f. candidate_of f ≡ none) under_click)
    ⊎ ((c : Candidate) × (resolve_map_click_candidate under_click ≡ some c)
        × IsFirstBest c under_click)
resolve_map_click_candidate_example = resolve_map_click_candidate_lem under_click
