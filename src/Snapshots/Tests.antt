-- ===== src/Snapshots/Tests.antt =====
-- A task that is moved, of which a field is dropped and one is new.
use react_ai_healthycare.Base.{String, [], ◌∷◌, Option, some, Bool, true, ◌≡◌, refl, Map, string_eq}
use react_ai_healthycare.Snapshots.{is_equal, diff_snapshots}
use react_ai_healthycare.Api.Json.{Json, str, null}
use react_ai_healthycare.Snapshots.Laws.{Reports, diff_snapshots-Reports}

abbrev stringify : Json → String
stringify v = "{}"

abbrev is_before : String → String → Bool
is_before a b = true

abbrev before : Option (Map String Json)
before = some (("status", str "new") ∷ ("owner", str "x") ∷ [])

abbrev after : Option (Map String Json)
after = some (("note", null) ∷ ("status", str "open") ∷ [])

three : diff_snapshots stringify is_before before after ≡ record {
  added = record { key = "note"; after = null } ∷ [];
  removed = record { key = "owner"; before = str "x" } ∷ [];
  changed = record { key = "status"; before = str "new"; after = str "open" } ∷ [];
}
unfolding diff_snapshots is_equal
three = refl

diff_snapshots-Reports_example :
    Reports stringify
      (("status", str "new") ∷ ("owner", str "x") ∷ [])
      (("note", null) ∷ ("status", str "open") ∷ [])
      (diff_snapshots stringify is_before before after)
diff_snapshots-Reports_example = diff_snapshots-Reports stringify is_before before after
