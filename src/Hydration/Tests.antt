-- ===== src/Hydration/Tests.antt =====
-- Runs of Hydration on concrete input: a link to a site that the second render has.
use react_ai_healthycare.Base.{List, [], ◌∷◌, none, false, true, ◌≡◌, refl}
use react_ai_healthycare.Base.Int.{ℤ, pos}
use react_ai_healthycare.Api.Json.{Json, int}
use react_ai_healthycare.Api.Enums.{active}
use react_ai_healthycare.Api.Records.{Site}
use react_ai_healthycare.EntitySelection.Codec.{plain_params}
use react_ai_healthycare.EntitySelection.Route.{
  no_selection, normalize, parse_entity_selection_route,
}
use react_ai_healthycare.Hydration.{
  hash_step, hash_from, hash_fraction, Render, Hydration, hydrate, run,
}
use react_ai_healthycare.Hydration.Landing.{Ends, run-Lands}

hash_fraction_lat : hash_fraction "asset-17-lat" ≡ 7637
unfolding hash_fraction hash_from hash_step
hash_fraction_lat = refl

abbrev to_number : Json → ℤ
to_number (int n) = n
to_number _ = pos 0

abbrev port : Site
port = record {
  id = "1";
  name = "Port";
  latitude = int (pos 37000000);
  longitude = int (pos 12000000);
  status = active;
  area_of_operation_id = none;
  flagged_at = none;
  flag_reason = none;
  geofence_radius_km = int (pos 1);
  created_at = "";
  updated_at = "";
}

-- In the coding of Codec.antt: "site_id" with the value "1".
abbrev at_sites : List Site → Render
at_sites sites = record {
  map_loaded = true;
  search = "?xsxixtxex_xixde.x1e.";
  sites = sites;
  assets = [];
  signals = [];
  readings = [];
  is_replaying = false;
  now = pos 0;
}

abbrev mount : Hydration
mount = record { applied = false; selected = no_selection; moves = [] }

run-Lands_example :
    let renders = at_sites [] ∷ at_sites (port ∷ []) ∷ at_sites [] ∷ [] in
    Ends plain_params to_number renders mount (run plain_params to_number renders mount)
run-Lands_example =
    run-Lands plain_params to_number (at_sites [] ∷ at_sites (port ∷ []) ∷ at_sites [] ∷ []) mount
      refl refl

lands : (run plain_params to_number (at_sites [] ∷ at_sites (port ∷ []) ∷ []) mount).applied ≡ true
unfolding run hydrate parse_entity_selection_route normalize plain_params
lands = refl
