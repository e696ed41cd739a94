-- ===== src/Session/Laws.antt =====
-- A session that the server refuses has no rights left, and a request to log out that it refuses
-- sends the next.
use react_ai_healthycare.Base.{
  ℕ, zero, suc, ◌+◌, String, List, [], ◌∷◌, Option, none, Bool, true, false, ◌≡◌, refl, ap, arith,
  All, ◌++◌, ◌||◌, ◌⊎◌, inl, inr, ◌≤◌,
}
use react_ai_healthycare.Session.{
  restored, Session, handle_logout, clear_stored_user, apply_effects, logout_end, restore_user,
  Role, use_role, Event, logs_in, logs_out, reloads, logout_fails, responds, logout_responds,
  logout_with, on_logout, step, run,
}
use react_ai_healthycare.Api.Json.{Json}
use react_ai_healthycare.Client.{Outcome, returned, threw, Effect, on_unauthorized, toast, conclude}

-- nobody is signed in, now or after a reload
pub record IsSignedOut (s : Session) : Type 0 where
  pub no_user : s.current_user ≡ none
  pub not_stored : s.stored ≡ none

abbrev pub no_rights : Role
no_rights = record {
  is_admin = false;
  is_commander = false;
  is_operator = false;
  is_viewer = true;
  can_access_briefing = false;
  can_access_debrief = false;
  can_access_ontology_query = false;
  can_manage_areas = false;
  can_manage_correlation_rules = false;
  can_access_planning = false;
  can_view_operational_health = false;
  can_review_recommendations = false;
  can_generate_recommendations = false;
  can_manage_users = false;
  can_manage_organizations = false;
  can_manage_sessions_for_others = false;
  can_operate_incidents = false;
  can_operate_tasks = false;
  can_triage_alerts = false;
}

abbrev pub is_login : Event → Bool
is_login (logs_in text user) = true
is_login _ = false

apply_effects-IsSignedOut :
    (es : List Effect) (s : Session) → IsSignedOut s → IsSignedOut (apply_effects es s)
unfolding handle_logout
apply_effects-IsSignedOut [] s h = h
apply_effects-IsSignedOut (on_unauthorized ∷ es) s h =
    apply_effects-IsSignedOut es (handle_logout s)
      (record { no_user = refl; not_stored = h.not_stored })
apply_effects-IsSignedOut (toast message ∷ es) s h = apply_effects-IsSignedOut es s h

apply_effects-no_user :
    (es : List Effect) (s : Session)
    → s.current_user ≡ none
    → (apply_effects es s).current_user ≡ none
unfolding handle_logout
apply_effects-no_user [] s h = h
apply_effects-no_user (on_unauthorized ∷ es) s h = apply_effects-no_user es (handle_logout s) refl
apply_effects-no_user (toast message ∷ es) s h = apply_effects-no_user es s h

-- The end of any logout that the app starts clears the store.
logout_with-IsSignedOut :
    (x : Outcome × List Effect) (s : Session)
    → s.current_user ≡ none
    → IsSignedOut (logout_with x s)
unfolding logout_end clear_stored_user
logout_with-IsSignedOut (returned payload, es) s h = record {
  no_user = apply_effects-no_user es s h;
  not_stored = refl;
}
logout_with-IsSignedOut (threw e, es) s h = record {
  no_user = apply_effects-no_user es s h;
  not_stored = refl;
}

on_logout-IsSignedOut :
    (n : ℕ) (x : Outcome × List Effect) (s : Session)
    → IsSignedOut s
    → IsSignedOut (on_logout n (logout_with x) s)
on_logout-IsSignedOut zero x s h = h
on_logout-IsSignedOut (suc n) x s h =
    logout_with-IsSignedOut x (record s { pending_logouts = n }) h.no_user

abbrev pub is_reload : Event → Bool
is_reload reloads = true
is_reload _ = false

-- the events that end a request to log out
abbrev pub ends_logout : Event → Bool
ends_logout (logout_fails thrown) = true
ends_logout (logout_responds status payload) = true
ends_logout _ = false

-- nobody is signed in, and what is stored is cleared or a request to log out waits
record IsLeaving (s : Session) : Type 0 where
  no_user : s.current_user ≡ none
  going : (s.stored ≡ none) ⊎ (1 ≤ s.pending_logouts)

apply_effects-IsLeaving :
    (es : List Effect) (s : Session) → IsLeaving s → IsLeaving (apply_effects es s)
unfolding handle_logout
apply_effects-IsLeaving [] s h = h
apply_effects-IsLeaving (on_unauthorized ∷ es) s h =
    apply_effects-IsLeaving es (handle_logout s)
      (record { no_user = refl; going = inr (omega arith) })
apply_effects-IsLeaving (toast message ∷ es) s h = apply_effects-IsLeaving es s h

-- With `f` the end of a request to log out, which signs out where nobody is signed in.
on_logout-ended :
    (n : ℕ) (f : Session → Session) (s : Session)
    → s.pending_logouts ≡ n
    → IsLeaving s
    → ((t : Session) → t.current_user ≡ none → IsSignedOut (f t))
    → IsSignedOut (on_logout n f s)
on_logout-ended zero f s e h g = record {
  no_user = h.no_user;
  not_stored = elim h.going [
    | inl cleared ↦ cleared
    | inr waits ↦ absurd (omega (arith, e, waits))
  ];
}
on_logout-ended (suc n) f s e h g = g (record s { pending_logouts = n }) h.no_user

on_logout-IsLeaving :
    (n : ℕ) (f : Session → Session) (s : Session)
    → IsLeaving s
    → ((t : Session) → t.current_user ≡ none → IsSignedOut (f t))
    → IsLeaving (on_logout n f s)
on_logout-IsLeaving zero f s h g = h
on_logout-IsLeaving (suc n) f s h g =
    let out = g (record s { pending_logouts = n }) h.no_user in
    record { no_user = out.no_user; going = inl out.not_stored }

module _ (parse_json : String → Option Json) where
  refused-IsLeaving :
      (method path : String) (payload : Json) (s : Session)
      → IsLeaving (step parse_json (responds method path 401 payload) s)
  unfolding step conclude handle_logout
  refused-IsLeaving method path payload s = record { no_user = refl; going = inr (omega arith) }

  step-IsSignedOut :
      (e : Event) (s : Session)
      → is_login e ≡ false
      → IsSignedOut s
      → IsSignedOut (step parse_json e s)
  unfolding step handle_logout restore_user
  step-IsSignedOut (logs_in text user) s l h = ground (arith, l)
  step-IsSignedOut logs_out s l h = record { no_user = refl; not_stored = h.not_stored }
  step-IsSignedOut reloads s l h = record {
    no_user = ap (restored parse_json) h.not_stored;
    not_stored = h.not_stored;
  }
  step-IsSignedOut (logout_fails thrown) s l h =
      on_logout-IsSignedOut s.pending_logouts (threw thrown, []) s h
  step-IsSignedOut (responds method path status payload) s l h =
      apply_effects-IsSignedOut (conclude method path status payload).1 s h
  step-IsSignedOut (logout_responds status payload) s l h =
      on_logout-IsSignedOut s.pending_logouts (conclude "DELETE" "/api/auth/logout" status payload)
        s h

  run-IsSignedOut :
      (es : List Event) (s : Session)
      → All (λ e. is_login e ≡ false) es
      → IsSignedOut s
      → IsSignedOut (run parse_json es s)
  run-IsSignedOut [] s l h = h
  run-IsSignedOut (e ∷ es) s l h =
      run-IsSignedOut es (step parse_json e s) l.1 (step-IsSignedOut e s l.0 h)

  -- A request to log out that waits goes on waiting, until its end clears the store.
  step-IsLeaving :
      (e : Event) (s : Session)
      → is_login e || is_reload e ≡ false
      → IsLeaving s
      → IsLeaving (step parse_json e s)
  unfolding step handle_logout
  step-IsLeaving (logs_in text user) s l h = ground (arith, l)
  step-IsLeaving reloads s l h = ground (arith, l)
  step-IsLeaving logs_out s l h = record { no_user = refl; going = inr (omega arith) }
  step-IsLeaving (logout_fails thrown) s l h =
      on_logout-IsLeaving s.pending_logouts _ s h (logout_with-IsSignedOut (threw thrown, []))
  step-IsLeaving (responds method path status payload) s l h =
      apply_effects-IsLeaving (conclude method path status payload).1 s h
  step-IsLeaving (logout_responds status payload) s l h =
      on_logout-IsLeaving s.pending_logouts _ s h
        (logout_with-IsSignedOut (conclude "DELETE" "/api/auth/logout" status payload))

  run-IsLeaving :
      (es : List Event) (s : Session)
      → All (λ e. is_login e || is_reload e ≡ false) es
      → IsLeaving s
      → IsLeaving (run parse_json es s)
  run-IsLeaving [] s l h = h
  run-IsLeaving (e ∷ es) s l h =
      run-IsLeaving es (step parse_json e s) l.1 (step-IsLeaving e s l.0 h)

  -- The end of a request to log out, an answer or none.
  step-ends_logout :
      (e : Event) (s : Session)
      → ends_logout e ≡ true
      → IsLeaving s
      → IsSignedOut (step parse_json e s)
  unfolding step
  step-ends_logout (logs_in text user) s l h = ground (arith, l)
  step-ends_logout reloads s l h = ground (arith, l)
  step-ends_logout logs_out s l h = ground (arith, l)
  step-ends_logout (responds method path status payload) s l h = ground (arith, l)
  step-ends_logout (logout_fails thrown) s l h =
      on_logout-ended s.pending_logouts _ s refl h (logout_with-IsSignedOut (threw thrown, []))
  step-ends_logout (logout_responds status payload) s l h =
      on_logout-ended s.pending_logouts _ s refl h
        (logout_with-IsSignedOut (conclude "DELETE" "/api/auth/logout" status payload))

  run-append :
      (es fs : List Event) (s : Session)
      → run parse_json (es ++ fs) s ≡ run parse_json fs (run parse_json es s)
  run-append [] fs s = refl
  run-append (e ∷ es) fs s = run-append es fs (step parse_json e s)

  -- After a response with the status 401, any events but a login or a reload, and then the end of a
  -- request to log out, answered with any status or failed without an answer, nobody is signed in
  -- and nothing is permitted, whatever comes after but a login.
  pub unauthorized_signs_out :
      (method path : String) (payload : Json) (before after : List Event) (e : Event) (s : Session)
      → All (λ e. is_login e || is_reload e ≡ false) before
      → ends_logout e ≡ true
      → All (λ e. is_login e ≡ false) after
      → let t = run parse_json (responds method path 401 payload ∷ (before ++ (e ∷ after))) s in
        IsSignedOut t × (use_role t.current_user ≡ no_rights)
  unfolding use_role
  unauthorized_signs_out method path payload before after e s b ends a =
      let start = step parse_json (responds method path 401 payload) s in
      let leaving = run-IsLeaving before start b (refused-IsLeaving method path payload s) in
      let out =
        run-IsSignedOut after _ a (step-ends_logout e (run parse_json before start) ends leaving) in
      rw (run-append before (e ∷ after) start) (out, ap use_role out.no_user)

  -- the event `e`, `n` times
  abbrev pub times : ℕ → Event → List Event
  times zero e = []
  times (suc n) e = e ∷ times n e

  refused_logout :
      (payload : Json) (n : ℕ) (s : Session)
      → s.pending_logouts ≡ suc n
      → ((step parse_json (logout_responds 401 payload) s).pending_logouts ≡ suc n)
        × ((step parse_json (logout_responds 401 payload) s).sent_logouts ≡ suc s.sent_logouts)
  unfolding step conclude handle_logout logout_end clear_stored_user
  refused_logout payload n s h =
      let f = logout_with (conclude "DELETE" "/api/auth/logout" 401 payload) in
      (ap (λ m. (on_logout m f s).pending_logouts) h, ap (λ m. (on_logout m f s).sent_logouts) h)

  -- As long as the server refuses the requests to log out with the status 401, each response sends
  -- the next: if one waits, then after any number of such responses as many wait as before, and that
  -- many more were sent.
  pub refused_logouts_repeat :
      (payload : Json) (count n : ℕ) (s : Session)
      → s.pending_logouts ≡ suc n
      → let t = run parse_json (times count (logout_responds 401 payload)) s in
        (t.pending_logouts ≡ suc n) × (t.sent_logouts ≡ s.sent_logouts + count)
  refused_logouts_repeat payload zero n s h = (h, omega arith)
  refused_logouts_repeat payload (suc count) n s h =
      let now = refused_logout payload n s h in
      let rest =
        refused_logouts_repeat payload count n (step parse_json (logout_responds 401 payload) s)
          now.0 in
      (rest.0, omega (arith, rest.1, now.1))
