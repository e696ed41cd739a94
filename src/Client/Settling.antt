-- ===== src/Client/Settling.antt =====
-- A request does not wait for ever, and what is settled stays.
use mathlib.Core.Path.{subst}
use react_ai_healthycare.Base.{
  String, List, [], ◌∷◌, ◌++◌, Option, none, some, Bool, true, false, ◌≡◌, refl, ap, ◌∙◌, sym,
  arith,
}
use react_ai_healthycare.Api.Json.{Json}
use react_ai_healthycare.Client.{
  Response, Outcome, returned, threw, Effect, Phase, fetching, reading, settled, Request,
  CallerSignal, start, conclude, payload_of, finish, read, Event, times_out, caller_aborts,
  body_arrives, responds, fails, step, run,
}
use react_ai_healthycare.Client.Laws.{Fits, IsFitting, at, run-start-IsFitting}

abbrev pub is_settled : Phase → Bool
is_settled fetching = false
is_settled (reading res) = false
is_settled (settled o) = true

abbrev pub is_fetching : Phase → Bool
is_fetching fetching = true
is_fetching (reading res) = false
is_fetching (settled o) = false

run-append :
    (before after : List Event) (r : Request) → run (before ++ after) r ≡ run after (run before r)
run-append [] after r = refl
run-append (e ∷ before) after r = run-append before after (step e r)

finish-is_settled : (x : Outcome × List Effect) (r : Request) → is_settled (finish x r).phase ≡ true
finish-is_settled (o, es) r = refl

read-is_settled :
    (res : Response) (o : Option Json) (r : Request) → is_settled (read res o r).phase ≡ true
read-is_settled res none r = refl
read-is_settled res (some payload) r =
    finish-is_settled (conclude r.method r.path res.status payload) r

module _ (method path : String) where
  -- An event leaves a settled request as it is.
  settled_stays :
      (e : Event) (o : Outcome) (timer listening : Bool) (es : List Effect)
      → Fits (settled o) timer listening es
      → step e (at method path (settled o) timer listening es)
        ≡ at method path (settled o) timer listening es
  settled_stays times_out o false listening es h = refl
  settled_stays times_out (returned payload) true listening es h = absurd (ground (arith, h.0))
  settled_stays times_out (threw x) true listening es h = absurd (ground (arith, h.0))
  settled_stays caller_aborts o timer false es h = refl
  settled_stays caller_aborts (returned payload) timer true es h = absurd (ground (arith, h.1))
  settled_stays caller_aborts (threw x) timer true es h = absurd (ground (arith, h.1))
  settled_stays (responds res) o timer listening es h = refl
  settled_stays (fails reason) o timer listening es h = refl
  settled_stays body_arrives o timer listening es h = refl

  -- The timeout, and then the body where one is read.
  settling :
      (p : Phase) (timer listening : Bool) (es : List Effect)
      → Fits p timer listening es
      → is_settled (run (times_out ∷ body_arrives ∷ []) (at method path p timer listening es)).phase
        ≡ true
  settling fetching true listening es h = refl
  settling fetching false listening es h = absurd (ground (arith, h.0))
  settling (reading res) true listening es h = absurd (ground (arith, h.0))
  settling (reading res) false listening es h =
      read-is_settled res (payload_of res) (at method path (reading res) false listening es)
  settling (settled o) true listening es h = refl
  settling (settled o) false listening es h = refl

step_settled :
    (e : Event) (p : Phase) (r : Request)
    → r.phase ≡ p
    → is_settled p ≡ true
    → IsFitting r
    → step e r ≡ r
step_settled e fetching r q s h = ground (arith, s)
step_settled e (reading res) r q s h = ground (arith, s)
step_settled e (settled o) r q s h =
    let same : r ≡ at r.method r.path (settled o) r.timer r.listening r.effects =
      λ i. at r.method r.path (q i) r.timer r.listening r.effects in
    let fits : Fits (settled o) r.timer r.listening r.effects =
      subst (λ p. Fits p r.timer r.listening r.effects) q h in
    ap (step e) same
    ∙ (settled_stays r.method r.path e o r.timer r.listening r.effects fits ∙ sym same)

run_settled :
    (es : List Event) (r : Request) → is_settled r.phase ≡ true → IsFitting r → run es r ≡ r
run_settled [] r s h = refl
run_settled (e ∷ es) r s h = ap (run es) (step_settled e r.phase r refl s h) ∙ run_settled es r s h

-- Whatever came before, once the timeout has fired and then the body, if one is awaited, has arrived,
-- the request is settled, and nothing that comes after changes it or calls anything.
pub request_settles :
    (method path : String) (c : CallerSignal) (before after : List Event)
    → let r = run (before ++ times_out ∷ body_arrives ∷ []) (start method path c) in
      (is_settled r.phase ≡ true) × (run after r ≡ r)
request_settles method path c before after =
    let r = run before (start method path c) in
    let ends : is_settled
          (run (before ++ times_out ∷ body_arrives ∷ []) (start method path c)).phase
        ≡ true =
      ap (λ q. is_settled q.phase)
        (run-append before (times_out ∷ body_arrives ∷ []) (start method path c))
      ∙ settling r.method r.path r.phase r.timer r.listening r.effects
          (run-start-IsFitting method path c before) in
    (
      ends,
      run_settled after _ ends
          (run-start-IsFitting method path c (before ++ times_out ∷ body_arrives ∷ [])),
    )
