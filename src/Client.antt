-- ===== src/Client.antt =====
-- frontend/src/api/client.ts: the texts of errors and the requests. A request is a state machine: it
-- waits for `fetch`, then for the body, and settles. What the browser reports is an event. The
-- texts of errors and the query are in child modules.
mod Messages
pub mod Url
pub mod Laws
pub mod Settling
pub mod MessageLaws
pub mod UrlLaws
pub mod Blob
mod Tests
unfoldable pub use Messages.*
use Prim.Native.String
use react_ai_healthycare.Base.{
  ℕ, String, List, [], ◌∷◌, ◌++◌, Option, none, some, Bool, true, false, ◌≡◌, if◌then◌else◌, eqb,
  leb, ◌&&◌, not, decimal, ◌or◌,
}
use react_ai_healthycare.Api.Json.{Json, str, null}

-- `is_json` is that the content type has application/json; `json` is none where the body is none.
pub record Response : Type 0 where
  pub status : ℕ
  pub is_json : Bool
  pub json : Option Json
  pub text : String

pub data Thrown : Type 0 where
  api_error : (status : ℕ) (body : Json) (message : String) → Thrown
  aborted : Thrown
  network_error : (reason : String) → Thrown
  syntax_error : Thrown

pub data Outcome : Type 0 where
  returned : Json → Outcome
  threw : Thrown → Outcome

pub data Effect : Type 0 where
  on_unauthorized : Effect
  toast : (message : String) → Effect

pub data Phase : Type 0 where
  fetching : Phase
  reading : Response → Phase
  settled : Outcome → Phase

-- `timer` and `listening` are the pending timeout and the listener on the caller's signal.
pub record Request : Type 0 where
  pub method : String
  pub path : String
  pub phase : Phase
  pub timer : Bool
  pub listening : Bool
  pub effects : List Effect

pub data CallerSignal : Type 0 where
  no_signal : CallerSignal
  pending_signal : CallerSignal
  aborted_signal : CallerSignal

-- `finally`
abbrev pub release : Request → Request
release r = record r { timer = false; listening = false }

abbrev pub fail : Thrown → Request → Request
fail e r = record (release r) { phase = settled (threw e) }

-- A fetch whose signal is aborted is rejected.
abbrev pub abort : Phase → Request → Request
abort fetching r = fail aborted r
abort (reading res) r = r
abort (settled o) r = r

unfoldable pub start : (method path : String) → CallerSignal → Request
start method path no_signal = record {
  method = method;
  path = path;
  phase = fetching;
  timer = true;
  listening = false;
  effects = [];
}
start method path pending_signal = record {
  method = method;
  path = path;
  phase = fetching;
  timer = true;
  listening = true;
  effects = [];
}
start method path aborted_signal = fail aborted (record {
  method = method;
  path = path;
  phase = fetching;
  timer = true;
  listening = false;
  effects = [];
})

abbrev pub rate_limit_message : String
rate_limit_message = "Too many requests — please wait a moment and retry."

-- `API ${method} ${path} → ${res.status}`
abbrev pub status_message : (method path : String) → ℕ → String
status_message method path status =
    String.◌++◌ "API "
      (String.◌++◌ method (String.◌++◌ " " (String.◌++◌ path (String.◌++◌ " → " (decimal status)))))

-- `res.ok`
abbrev pub is_ok : ℕ → Bool
is_ok status = leb 200 status && leb status 299

-- From the payload to the end, with what is called on the way.
unfoldable pub conclude : (method path : String) → ℕ → Json → Outcome × List Effect
conclude method path status payload =
    if eqb status 401
    then (
      threw (api_error status payload (extract_api_message payload "Unauthorized")),
      on_unauthorized ∷ [],
    )
    else (if eqb status 429
        then (
          threw (api_error status payload (extract_api_message payload "Rate limited")),
          toast rate_limit_message ∷ [],
        )
        else (if not (is_ok status)
            then (
              threw (
                  api_error status payload
                    (extract_api_message payload (status_message method path status))),
              [],
            )
            else (returned payload, [])))

-- `await res.json()` or `await res.text()`
abbrev pub payload_of : Response → Option Json
payload_of res = if res.is_json then res.json else some (str res.text)

abbrev pub finish : Outcome × List Effect → Request → Request
finish (o, es) r = record r { phase = settled o; effects = r.effects ++ es }

abbrev pub read : Response → Option Json → Request → Request
read res none r = record r { phase = settled (threw syntax_error) }
read res (some payload) r = finish (conclude r.method r.path res.status payload) r

pub data Event : Type 0 where
  times_out caller_aborts body_arrives : Event
  responds : Response → Event
  fails : (reason : String) → Event

abbrev pub on_event : Event → Phase → Request → Request
on_event times_out p r = if r.timer then abort p (record r { timer = false }) else r
on_event caller_aborts p r = if r.listening then abort p (record r { listening = false }) else r
on_event (responds res) fetching r = record (release r) { phase = reading res }
on_event (responds res) _ r = r
on_event (fails reason) fetching r = fail (network_error reason) r
on_event (fails reason) (reading res) r = record r {
  phase = settled (threw (network_error reason));
}
on_event (fails reason) (settled o) r = r
on_event body_arrives (reading res) r = read res (payload_of res) r
on_event body_arrives _ r = r

abbrev pub step : Event → Request → Request
step e r = on_event e r.phase r

abbrev pub run : List Event → Request → Request
run [] r = r
run (e ∷ es) r = run es (step e r)
