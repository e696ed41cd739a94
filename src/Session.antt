-- ===== src/Session.antt =====
-- frontend/src/context/AuthContext.tsx, api/auth.ts and hooks/useRole.ts: who is signed in. The
-- effects of a response are those of api/client.ts. A user is the object that was received, unchecked.
pub mod Laws
mod Tests
use react_ai_healthycare.Base.{
  ℕ, zero, suc, String, List, [], ◌∷◌, Option, none, some, Bool, true, false, not, ◌&&◌, ◌||◌,
  if◌then◌else◌, truthy, ◌==◌, string_eq, ◌or◌,
}
use react_ai_healthycare.Base.Int.{ℤ, pos, negsuc}
use react_ai_healthycare.Api.Json.{Json, null, bool, int, frac, str, arr, obj, Fields, get_field}
use react_ai_healthycare.Client.{
  Outcome, Thrown, returned, threw, Effect, on_unauthorized, toast, conclude,
}

abbrev pub CurrentUser : Type 0
CurrentUser = Fields

-- `stored` is the entry of the user in `sessionStorage`. The requests to log out that wait for their
-- response are counted, and those that were sent.
pub record Session : Type 0 where
  pub stored : Option String
  pub current_user : Option CurrentUser
  pub pending_logouts : ℕ
  pub sent_logouts : ℕ

-- `handleLogout`
unfoldable pub handle_logout : Session → Session
handle_logout s = record s {
  pending_logouts = suc s.pending_logouts;
  sent_logouts = suc s.sent_logouts;
  current_user = none;
}

unfoldable pub handle_login : CurrentUser → Session → Session
handle_login user s = record s { current_user = some user }

unfoldable pub clear_stored_user : Session → Session
clear_stored_user s = record s { stored = none }

-- The handler that is registered for a 401; a toast leaves the session as it is.
abbrev pub apply_effects : List Effect → Session → Session
apply_effects [] s = s
apply_effects (on_unauthorized ∷ es) s = apply_effects es (handle_logout s)
apply_effects (toast message ∷ es) s = apply_effects es s

-- The end of `logout`, by the option `suppressErrors`.
unfoldable pub logout_end : Option Bool → Outcome → Session → Session
logout_end suppress_errors (returned payload) s = clear_stored_user s
logout_end (some false) (threw e) s = s
logout_end (some true) (threw e) s = clear_stored_user s
logout_end none (threw e) s = clear_stored_user s

-- whether a property counts as true
abbrev pub is_truthy : Option Json → Bool
is_truthy none = false
is_truthy (some null) = false
is_truthy (some (bool b)) = b
is_truthy (some (int (pos zero))) = false
is_truthy (some (int (pos (suc n)))) = true
is_truthy (some (int (negsuc n))) = true
is_truthy (some (frac t)) = true
is_truthy (some (str s)) = truthy s
is_truthy (some (arr a)) = true
is_truthy (some (obj o)) = true

-- A value that is no object has none of the properties.
abbrev pub user_in : Option Json → Option CurrentUser
user_in (some (obj user)) =
    if is_truthy (get_field "id" user)
      && is_truthy (get_field "email" user)
      && is_truthy (get_field "role" user)
    then some user
    else none
user_in _ = none

abbrev pub restored : (parse_json : String → Option Json) → Option String → Option CurrentUser
restored parse_json none = none
restored parse_json (some raw) = if truthy raw then user_in (parse_json raw) else none

unfoldable pub restore_user : (parse_json : String → Option Json) → Session → Option CurrentUser
restore_user parse_json s = restored parse_json s.stored

-- `currentUser?.role ?? 'viewer'`
abbrev pub or_viewer : Option Json → Json
or_viewer none = str "viewer"
or_viewer (some null) = str "viewer"
or_viewer (some role) = role

abbrev pub role_of : Option CurrentUser → Json
role_of none = str "viewer"
role_of (some user) = or_viewer (get_field "role" user)

abbrev pub is_role : String → Json → Bool
is_role name (str s) = s == name
is_role name _ = false

pub record Role : Type 0 where
  pub is_admin : Bool
  pub is_commander : Bool
  pub is_operator : Bool
  pub is_viewer : Bool
  pub can_access_briefing : Bool
  pub can_access_debrief : Bool
  pub can_access_ontology_query : Bool
  pub can_manage_areas : Bool
  pub can_manage_correlation_rules : Bool
  pub can_access_planning : Bool
  pub can_view_operational_health : Bool
  pub can_review_recommendations : Bool
  pub can_generate_recommendations : Bool
  pub can_manage_users : Bool
  pub can_manage_organizations : Bool
  pub can_manage_sessions_for_others : Bool
  pub can_operate_incidents : Bool
  pub can_operate_tasks : Bool
  pub can_triage_alerts : Bool

unfoldable pub use_role : Option CurrentUser → Role
use_role current_user =
    let role = role_of current_user in
    let admin = is_role "admin" role in
    let commander = is_role "commander" role || admin in
    let operator = is_role "operator" role in
    let can_operate = operator || commander in
    record {
      is_admin = admin;
      is_commander = commander;
      is_operator = operator;
      is_viewer = is_role "viewer" role;
      can_access_briefing = commander;
      can_access_debrief = commander;
      can_access_ontology_query = commander;
      can_manage_areas = commander;
      can_manage_correlation_rules = commander;
      can_access_planning = commander;
      can_view_operational_health = commander;
      can_review_recommendations = commander;
      can_generate_recommendations = commander;
      can_manage_users = admin;
      can_manage_organizations = admin;
      can_manage_sessions_for_others = admin;
      can_operate_incidents = can_operate;
      can_operate_tasks = can_operate;
      can_triage_alerts = can_operate;
    }

pub data Event : Type 0 where
  logs_in : (stored : String) → CurrentUser → Event
  logs_out reloads : Event
  logout_fails : Thrown → Event
  responds : (method path : String) (status : ℕ) → Json → Event
  logout_responds : (status : ℕ) → Json → Event

-- What a request to log out ends with: it throws, or a response is concluded.
abbrev pub logout_with : Outcome × List Effect → Session → Session
logout_with (o, es) s = logout_end none o (apply_effects es s)

abbrev pub on_logout : ℕ → (Session → Session) → Session → Session
on_logout zero f s = s
on_logout (suc n) f s = f (record s { pending_logouts = n })

module _ (parse_json : String → Option Json) where
  unfoldable pub step : Event → Session → Session
  step (logs_in text user) s = handle_login user (record s { stored = some text })
  step logs_out s = handle_logout s
  step reloads s = record s { current_user = restore_user parse_json s; pending_logouts = 0 }
  step (logout_fails e) s = on_logout s.pending_logouts (logout_with (threw e, [])) s
  step (responds method path status payload) s =
      apply_effects (conclude method path status payload).1 s
  step (logout_responds status payload) s =
      on_logout s.pending_logouts
        (logout_with (conclude "DELETE" "/api/auth/logout" status payload)) s

  abbrev pub run : List Event → Session → Session
  run [] s = s
  run (e ∷ es) s = run es (step e s)
