-- ===== src/Triage.antt =====
-- frontend/src/hooks/useTriageKeyboard.ts: the keys of the alert list. A match is its id.
pub mod Laws
mod Tests
use react_ai_healthycare.Base.{
  ℕ, zero, suc, ◌+◌, ◌-◌, min, max, String, List, [], ◌∷◌, ◌++◌, Option, none, some, Bool, true,
  false, not, ◌||◌, eqb, if◌then◌else◌, length,
}

pub data AlertStatus : Type 0 where
  unacknowledged acknowledged investigating closed : AlertStatus

-- What the listener does outside: `onTransition` and `scrollToIndex`.
pub data Call : Type 0 where
  on_transition : (id : String) → AlertStatus → Call
  scroll_to_index : ℕ → Call

pub record Triage : Type 0 where
  pub matches : List String
  pub enabled : Bool
  pub focused_index : Option ℕ
  pub prev_match_count : ℕ
  pub calls : List Call

pub data Key : Type 0 where
  j k a i c escape other : Key

abbrev pub get_elem? : List String → ℕ → Option String
get_elem? [] n = none
get_elem? (x ∷ xs) zero = some x
get_elem? (x ∷ xs) (suc n) = get_elem? xs n

unfoldable pub mount : List String → Bool → Triage
mount matches enabled = record {
  matches = matches;
  enabled = enabled;
  focused_index = none;
  prev_match_count = length matches;
  calls = [];
}

-- A render with other matches: the focus goes where their number is another.
unfoldable pub render : List String → Bool → Triage → Triage
render matches enabled s =
    if eqb s.prev_match_count (length matches)
    then record s { matches = matches; enabled = enabled }
    else record s {
      matches = matches;
      enabled = enabled;
      prev_match_count = length matches;
      focused_index = none;
    }

abbrev pub focus_on : ℕ → Triage → Triage
focus_on n s = record s { focused_index = some n; calls = s.calls ++ scroll_to_index n ∷ [] }

abbrev pub next_index : ℕ → Option ℕ → ℕ
next_index count none = 0
next_index count (some n) = min (n + 1) (count - 1)

abbrev pub previous_index : Option ℕ → ℕ
previous_index none = 0
previous_index (some n) = n - 1

abbrev pub transition_of : Option String → AlertStatus → List Call
transition_of none status = []
transition_of (some id) status = on_transition id status ∷ []

abbrev pub transition : Option ℕ → AlertStatus → Triage → Triage
transition none status s = s
transition (some n) status s = record s {
  calls = s.calls ++ transition_of (get_elem? s.matches n) status;
}

abbrev pub press : Key → Triage → Triage
press j s = focus_on (next_index (length s.matches) s.focused_index) s
press k s = focus_on (previous_index s.focused_index) s
press a s = transition s.focused_index acknowledged s
press i s = transition s.focused_index investigating s
press c s = transition s.focused_index closed s
press escape s = record s { focused_index = none }
press other s = s

-- `in_field` is that the key is typed in an input.
unfoldable pub handle_key_down : Key → (in_field : Bool) → Triage → Triage
handle_key_down key in_field s =
    if not s.enabled || eqb (length s.matches) 0 || in_field then s else press key s

pub data Event : Type 0 where
  renders : List String → Bool → Event
  keys : Key → (in_field : Bool) → Event
  focuses : Option ℕ → Event

abbrev pub step : Event → Triage → Triage
step (renders matches enabled) s = render matches enabled s
step (keys key in_field) s = handle_key_down key in_field s
step (focuses index) s = record s { focused_index = index }

abbrev pub run : List Event → Triage → Triage
run [] s = s
run (e ∷ es) s = run es (step e s)
