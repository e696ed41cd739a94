-- ===== src/Triage/Tests.antt =====
-- Three alerts, of which the second is closed by the keyboard.
use react_ai_healthycare.Base.{String, List, [], ◌∷◌, ◌++◌, some, true, false, ◌≡◌, refl}
use react_ai_healthycare.Triage.{
  closed, on_transition, j, c, get_elem?, mount, render, handle_key_down, Event, renders, keys, run,
}
use react_ai_healthycare.Triage.Laws.{key-transition}

abbrev alerts : List String
alerts = "m1" ∷ "m2" ∷ "m3" ∷ []

abbrev session : List Event
session = keys j false ∷ keys j false ∷ []

-- A list of as many other alerts keeps the focus.
abbrev switched : List Event
switched = keys j false ∷ renders ("n1" ∷ "n2" ∷ "n3" ∷ []) true ∷ []

focus_kept : (run switched (mount alerts true)).focused_index ≡ some 0
unfolding mount render handle_key_down
focus_kept = refl

enabled : (run session (mount alerts true)).enabled ≡ true
unfolding mount handle_key_down
enabled = refl

second : (run session (mount alerts true)).focused_index ≡ some 1
unfolding mount handle_key_down
second = refl

key-transition_example :
    (id : String) × (get_elem? (run session (mount alerts true)).matches 1 ≡ some id)
    × ((handle_key_down c false (run session (mount alerts true))).calls
        ≡ (run session (mount alerts true)).calls ++ on_transition id closed ∷ [])
key-transition_example = key-transition alerts true session c closed 1 tt enabled second refl
