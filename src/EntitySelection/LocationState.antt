-- ===== src/EntitySelection/LocationState.antt =====
-- frontend/src/lib/entitySelectionRoute.ts: the mark that a route write leaves in the history state,
-- by which the page that wrote it knows it again.
use react_ai_healthycare.Base.{
  ℕ, zero, suc, ◌<◌, ◌≡◌, ◌≢◌, refl, String, List, Option, none, some, Bool, true, false, not,
  if◌then◌else◌, ◌==◌, ==_iff, string_eq, arith,
}
use react_ai_healthycare.Base.Int.{pos}
use react_ai_healthycare.Api.Json.{
  Json, null, bool, int, frac, str, arr, obj, Fields, end, field, get_field, set_field,
}
use react_ai_healthycare.EntitySelection.Tokens.{delete}

pub data SyncSource : Type 0 where
  map globe : SyncSource

pub record SyncMetadata : Type 0 where
  pub source : SyncSource
  pub token : ℕ

abbrev pub same_source : SyncSource → SyncSource → Bool
same_source map map = true
same_source globe globe = true
same_source map globe = false
same_source globe map = false

abbrev pub source_text : SyncSource → String
source_text map = "map"
source_text globe = "globe"

abbrev pub sync_state_key : String
sync_state_key = "__resilienceEntitySelectionSync"

abbrev pub as_object_record : Json → Fields
as_object_record (obj fs) = fs
as_object_record null = end
as_object_record (bool b) = end
as_object_record (int n) = end
as_object_record (frac t) = end
as_object_record (str s) = end
as_object_record (arr xs) = end

abbrev pub metadata_json : SyncMetadata → Json
metadata_json m =
    obj (field "source" (str (source_text m.source)) (field "token" (int (pos m.token)) end))

unfoldable pub build_sync_location_state : Json → SyncMetadata → Json
build_sync_location_state state m =
    obj (set_field sync_state_key (metadata_json m) (as_object_record state))

abbrev read_source : Option Json → Option SyncSource
read_source (some (str s)) =
    if s == "map" then some map else (if s == "globe" then some globe else none)
read_source _ = none

-- an integer above 0
abbrev read_token : Option Json → Option ℕ
read_token (some (int (pos (suc n)))) = some (suc n)
read_token _ = none

abbrev read_metadata : Option Json → Option SyncMetadata
read_metadata (some (obj fs)) = elim (read_source (get_field "source" fs)) [
  | none ↦ none
  | some source ↦ elim (read_token (get_field "token" fs)) [
    | none ↦ none
    | some token ↦ some (record { source = source; token = token })
  ]
]
read_metadata _ = none

unfoldable pub read_sync_location_state : Json → Option SyncMetadata
read_sync_location_state state = read_metadata (get_field sync_state_key (as_object_record state))

unfoldable pub is_route_authoritative : Json → SyncSource → Bool
is_route_authoritative state source = elim (read_sync_location_state state) [
  | none ↦ true
  | some m ↦ not (same_source m.source source)
]

-- The pending tokens afterwards, and whether the state was a write of `source` that was pending.
unfoldable pub consume_sync_location_state : Json → SyncSource → List ℕ → List ℕ × Bool
consume_sync_location_state state source pending = elim (read_sync_location_state state) [
  | none ↦ (pending, false)
  | some m ↦ if same_source m.source source then delete m.token pending else (pending, false)
]

get_field-set_field :
    (k j : String) (v : Json) (fs : Fields)
    → get_field j (set_field k v fs) ≡ (if k == j then some v else get_field j fs)
get_field-set_field k j v end = refl
get_field-set_field k j v (field i w fs) =
    ground (arith, ==_iff k j, ==_iff i k, ==_iff i j, get_field-set_field k j v fs)

read_metadata-json :
    (m : SyncMetadata) → 0 < m.token → read_metadata (some (metadata_json m)) ≡ some m
read_metadata-json m h = by_cases m.source m.token h
  where
    by_cases :
        (s : SyncSource) (t : ℕ)
        → 0 < t
        → read_metadata (some (metadata_json (record { source = s; token = t })))
          ≡ some (record { source = s; token = t })
    by_cases s zero h = absurd (omega arith)
    by_cases map (suc n) h = refl
    by_cases globe (suc n) h = refl

-- What was written is read back, whatever else the history state held, and the rest of a state that
-- is an object is kept.
pub read-build_sync :
    (state : Json) (m : SyncMetadata)
    → 0 < m.token
    → (read_sync_location_state (build_sync_location_state state m) ≡ some m)
      × ((key : String)
          → key ≢ sync_state_key
          → get_field key (as_object_record (build_sync_location_state state m))
            ≡ get_field key (as_object_record state))
unfolding read_sync_location_state build_sync_location_state
read-build_sync state m h = (
  rw (get_field-set_field sync_state_key sync_state_key (metadata_json m) (as_object_record state))
      (read_metadata-json m h),
  λ key ne.
      rw (get_field-set_field sync_state_key key (metadata_json m) (as_object_record state))
        (ground (arith, ==_iff sync_state_key key)),
)
