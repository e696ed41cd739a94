-- ===== src/Session/Tests.antt =====
-- A commander whose cookie has expired.
use react_ai_healthycare.Base.{◌+◌, String, [], ◌∷◌, ◌++◌, Option, some, true, ◌≡◌, refl}
use react_ai_healthycare.Client.{network_error}
use react_ai_healthycare.Session.{
  handle_logout, step, Session, CurrentUser, use_role, logs_out, reloads, logout_fails, responds,
  logout_responds, run, restore_user,
}
use react_ai_healthycare.Api.Json.{Json, str, null, obj, field, end}
use react_ai_healthycare.Session.Laws.{
  IsSignedOut, no_rights, unauthorized_signs_out, refused_logouts_repeat, times,
}

abbrev commander : CurrentUser
commander =
    field "id" (str "u1") (field "email" (str "c@example.org") (field "role" (str "commander") end))

abbrev stored_user : String → Option Json
stored_user text = some (obj commander)

abbrev at_work : Session
at_work = record {
  stored = some "{…}";
  current_user = some commander;
  pending_logouts = 0;
  sent_logouts = 0;
}

may_plan : (use_role at_work.current_user).can_access_planning ≡ true
unfolding use_role
may_plan = refl

is_restored : restore_user stored_user at_work ≡ some commander
unfolding restore_user
is_restored = refl

-- Another request is refused before the logout fails without an answer.
unauthorized_signs_out_example :
    let t =
      run stored_user
        (responds "GET" "/api/sites" 401 null
          ∷ ((responds "GET" "/api/tasks" 401 null ∷ [])
              ++ (logout_fails (network_error "offline") ∷ reloads ∷ [])))
        at_work in
    IsSignedOut t × (use_role t.current_user ≡ no_rights)
unauthorized_signs_out_example =
    unauthorized_signs_out stored_user "GET" "/api/sites" null
      (responds "GET" "/api/tasks" 401 null ∷ []) (reloads ∷ [])
      (logout_fails (network_error "offline")) at_work (refl, tt) refl (refl, tt)

abbrev leaving : Session
leaving = run stored_user (logs_out ∷ []) at_work

one_waits : leaving.pending_logouts ≡ 1
unfolding step handle_logout
one_waits = refl

refused_logouts_repeat_example :
    let t = run stored_user (times stored_user 1000 (logout_responds 401 null)) leaving in
    (t.pending_logouts ≡ 1) × (t.sent_logouts ≡ leaving.sent_logouts + 1000)
refused_logouts_repeat_example = refused_logouts_repeat stored_user null 1000 0 leaving one_waits
