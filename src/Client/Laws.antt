-- ===== src/Client/Laws.antt =====
-- What is true of a request in each of its phases, and that it does not wait for ever.

use react_ai_healthycare.Base.{
  ◌⊎◌, ℕ, String, List, [], ◌∷◌, Option, none, some, Bool, true, false, ◌≡◌, refl, arith, inl, inr,
  Bool-cases, if◌then◌else◌, is_blank, is_white, eqb, decimal, is_blank-append,
}
use react_ai_healthycare.Api.Json.{Json}
use react_ai_healthycare.Client.{
  Response, Thrown, api_error, aborted, network_error, syntax_error, Outcome, returned, threw,
  Effect, on_unauthorized, toast, Phase, fetching, reading, settled, Request, CallerSignal,
  no_signal, pending_signal, aborted_signal, start, conclude, rate_limit_message, status_message,
  is_ok, payload_of, finish, read, Event, times_out, caller_aborts, body_arrives, responds, fails,
  step, run, abort,
}
use react_ai_healthycare.Client.MessageLaws.{extract-HasText}
use Prim.Native.String

-- What an error of that status makes the client call.
abbrev pub effects_of : ℕ → List Effect
effects_of status =
    if eqb status 401
    then on_unauthorized ∷ []
    else (if eqb status 429 then toast rate_limit_message ∷ [] else [])

abbrev pub HasFailedWith : Thrown → List Effect → Type 0
HasFailedWith (api_error status body message) es =
    (es ≡ effects_of status) × (is_ok status ≡ false) × (is_blank message ≡ false)
HasFailedWith aborted es = es ≡ []
HasFailedWith (network_error reason) es = es ≡ []
HasFailedWith syntax_error es = es ≡ []

-- While it waits for the fetch the timeout is set; past it neither the timeout nor the listener is left, and what was called fits the outcome.
abbrev pub Fits : Phase → (timer listening : Bool) → List Effect → Type 0
Fits fetching timer listening es = (timer ≡ true) × (es ≡ [])
Fits (reading res) timer listening es = (timer ≡ false) × (listening ≡ false) × (es ≡ [])
Fits (settled (returned payload)) timer listening es =
    (timer ≡ false) × (listening ≡ false) × (es ≡ [])
Fits (settled (threw e)) timer listening es =
    (timer ≡ false) × (listening ≡ false) × HasFailedWith e es

abbrev pub IsFitting : Request → Type 0
IsFitting r = Fits r.phase r.timer r.listening r.effects

is_blank_api : (s : String) → is_blank (String.◌++◌ "API " s) ≡ false
unfolding is_white
is_blank_api s = rw (is_blank-append "API " s) refl

pub is_blank-status_message :
    (method path : String) (status : ℕ) → is_blank (status_message method path status) ≡ false
is_blank-status_message method path status =
    is_blank_api
      (String.◌++◌ method (String.◌++◌ " " (String.◌++◌ path (String.◌++◌ " → " (decimal status)))))

abbrev Concludes : Outcome × List Effect → Type 0
Concludes (returned payload, es) = es ≡ []
Concludes (threw e, es) = HasFailedWith e es

conclude-Concludes :
    (method path : String) (status : ℕ) (payload : Json)
    → Concludes (conclude method path status payload)
unfolding conclude is_white
conclude-Concludes method path status payload = elim (Bool-cases (eqb status 401)) [
  | inl h ↦ rw h (ground (arith, h), ground (arith, h), extract-HasText payload "Unauthorized" refl)
  | inr h ↦ elim (Bool-cases (eqb status 429)) [
    | inl g ↦ rw h (
        rw g (ground (arith, h, g), ground (arith, g), extract-HasText payload "Rate limited" refl))
    | inr g ↦ elim (Bool-cases (is_ok status)) [
      | inl k ↦ rw h (rw g (rw k refl))
      | inr k ↦ rw h (
          rw g (
            rw k (
              ground (arith, h, g),
              k,
              extract-HasText payload (status_message method path status)
                  (is_blank-status_message method path status),
            )))
    ]
  ]
]

finish-IsFitting :
    (x : Outcome × List Effect) (r : Request)
    → Concludes x
    → r.timer ≡ false
    → r.listening ≡ false
    → r.effects ≡ []
    → IsFitting (finish x r)
finish-IsFitting (returned payload, es) r c t l e = (t, l, rw e c)
finish-IsFitting (threw x, es) r c t l e = (t, l, rw e c)

conclude_lem :
    (method path : String) (status : ℕ) (payload : Json) (r : Request)
    → r.timer ≡ false
    → r.listening ≡ false
    → r.effects ≡ []
    → IsFitting (finish (conclude method path status payload) r)
conclude_lem method path status payload r t l e =
    finish-IsFitting (conclude method path status payload) r
      (conclude-Concludes method path status payload) t l e

read-IsFitting :
    (res : Response) (o : Option Json) (r : Request)
    → r.timer ≡ false
    → r.listening ≡ false
    → r.effects ≡ []
    → IsFitting (read res o r)
read-IsFitting res none r t l e = (t, l, e)
read-IsFitting res (some payload) r t l e = conclude_lem r.method r.path res.status payload r t l e

module _ (method path : String) where
  abbrev pub at : Phase → (timer listening : Bool) → List Effect → Request
  at p timer listening es = record {
    method = method;
    path = path;
    phase = p;
    timer = timer;
    listening = listening;
    effects = es;
  }

  abort-IsFitting :
      (p : Phase) (timer listening u v : Bool) (es : List Effect)
      → (timer ≡ true) ⊎ (listening ≡ true)
      → Fits p timer listening es
      → IsFitting (abort p (at p u v es))
  abort-IsFitting fetching timer listening u v es b h = (refl, refl, h.1)
  abort-IsFitting (reading res) timer listening u v es b h = absurd (ground (arith, h.0, h.1, b))
  abort-IsFitting (settled (returned payload)) timer listening u v es b h =
      absurd (ground (arith, h.0, h.1, b))
  abort-IsFitting (settled (threw e)) timer listening u v es b h =
      absurd (ground (arith, h.0, h.1, b))

  at-IsFitting :
      (e : Event) (p : Phase) (timer listening : Bool) (es : List Effect)
      → Fits p timer listening es
      → IsFitting (step e (at p timer listening es))
  at-IsFitting times_out p true listening es h =
      abort-IsFitting p true listening false listening es (inl refl) h
  at-IsFitting times_out p false listening es h = h
  at-IsFitting caller_aborts p timer true es h =
      abort-IsFitting p timer true timer false es (inr refl) h
  at-IsFitting caller_aborts p timer false es h = h
  at-IsFitting (responds res) fetching timer listening es h = (refl, refl, h.1)
  at-IsFitting (responds res) (reading old) timer listening es h = h
  at-IsFitting (responds res) (settled o) timer listening es h = h
  at-IsFitting (fails reason) fetching timer listening es h = (refl, refl, h.1)
  at-IsFitting (fails reason) (reading res) timer listening es h = h
  at-IsFitting (fails reason) (settled o) timer listening es h = h
  at-IsFitting body_arrives fetching timer listening es h = h
  at-IsFitting body_arrives (reading res) timer listening es h =
      read-IsFitting res (payload_of res) (at (reading res) timer listening es) h.0 h.1 h.2
  at-IsFitting body_arrives (settled o) timer listening es h = h

step-IsFitting : (e : Event) (r : Request) → IsFitting r → IsFitting (step e r)
step-IsFitting e r h = at-IsFitting r.method r.path e r.phase r.timer r.listening r.effects h

run-IsFitting : (es : List Event) (r : Request) → IsFitting r → IsFitting (run es r)
run-IsFitting [] r h = h
run-IsFitting (e ∷ es) r h = run-IsFitting es (step e r) (step-IsFitting e r h)

start-IsFitting : (method path : String) (c : CallerSignal) → IsFitting (start method path c)
unfolding start
start-IsFitting method path no_signal = (refl, refl)
start-IsFitting method path pending_signal = (refl, refl)
start-IsFitting method path aborted_signal = (refl, refl, refl)

-- Whatever the browser reports: while the fetch is waited for, the timeout is set; once the fetch is over, neither the timeout nor the listener on the
-- caller's signal is left. An API error has a status outside 200 to 299 and a text that is not blank,
-- and with it the handler of a 401 and the toast of a 429 are called once, and nothing else ever is.
pub run-start-IsFitting :
    (method path : String) (c : CallerSignal) (es : List Event)
    → IsFitting (run es (start method path c))
run-start-IsFitting method path c es =
    run-IsFitting es (start method path c) (start-IsFitting method path c)
