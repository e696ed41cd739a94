-- ===== src/Client/Tests.antt =====
-- A request that is refused, and one with a query.
use react_ai_healthycare.Base.{
  trim, String, [], ◌∷◌, ◌++◌, Option, some, true, false, ◌≡◌, refl, is_blank, is_white,
}
use react_ai_healthycare.Client.{
  conclude, Response, responds, body_arrives, times_out, caller_aborts, start, run, pending_signal,
  settled, threw, api_error, extract_api_message, get_api_error_message, caught_error,
}
use react_ai_healthycare.Api.Json.{str, obj, arr, nil, cons, field, end}
use react_ai_healthycare.EntitySelection.Codec.{plain_params}
use react_ai_healthycare.Client.Laws.{IsFitting, run-start-IsFitting}
use react_ai_healthycare.Client.Settling.{is_settled, request_settles}
use react_ai_healthycare.Client.Url.{
  Url, string, boolean, QueryParams, scalar, scalars, null, build_url,
}
use react_ai_healthycare.Client.UrlLaws.{parse-build_url_roundtrip}
use Prim.Native.String

abbrev expired : Response
expired = record {
  status = 401;
  is_json = true;
  json = some (obj (field "error" (str " Session expired ") end));
  text = "";
}

session_expired :
    (run (responds expired ∷ body_arrives ∷ []) (start "GET" "/api/sites" pending_signal)).phase
    ≡ settled (
        threw (api_error 401 (obj (field "error" (str " Session expired ") end)) "Session expired"))
unfolding start conclude extract_api_message trim is_white
session_expired = refl

first_text :
    extract_api_message
      (obj (field "errors" (arr (cons (str " ") (cons (str "a") (cons (str "b") nil)))) end))
      "x"
    ≡ "a, b"
unfolding extract_api_message trim is_white
first_text = refl

blank_error : get_api_error_message (caught_error "  ") "Request failed" ≡ "Request failed"
unfolding get_api_error_message trim is_white
blank_error = refl

run-start-IsFitting_example : IsFitting (
    run
      (responds expired ∷ caller_aborts ∷ body_arrives ∷ [])
      (start "GET" "/api/sites" pending_signal))
run-start-IsFitting_example =
    run-start-IsFitting "GET" "/api/sites" pending_signal
      (responds expired ∷ caller_aborts ∷ body_arrives ∷ [])

request_settles_example :
    (is_settled
        (run
          (responds expired ∷ times_out ∷ body_arrives ∷ [])
          (start "GET" "/api/sites" pending_signal)).phase
      ≡ true)
    × (run (caller_aborts ∷ []) (
          run
            (responds expired ∷ times_out ∷ body_arrives ∷ [])
            (start "GET" "/api/sites" pending_signal))
        ≡ run
            (responds expired ∷ times_out ∷ body_arrives ∷ [])
            (start "GET" "/api/sites" pending_signal))
request_settles_example =
    request_settles "GET" "/api/sites" pending_signal (responds expired ∷ []) (caller_aborts ∷ [])

not_blank : is_blank "Unauthorized" ≡ false
unfolding is_white
not_blank = refl

abbrev plain_url : String → Option Url
plain_url path = some (record { pathname = path; search = "" })

abbrev params : QueryParams
params =
    ("status", scalars (string "new" ∷ string "open" ∷ []))
    ∷ ("site", null)
    ∷ ("mine", scalar (boolean true))
    ∷ []

parse-build_url_roundtrip_example :
    (search : String) × (build_url plain_params plain_url "/api/tasks" params
      ≡ some (String.◌++◌ "/api/tasks" search))
    × (plain_params.parse search
        ≡ plain_params.parse ""
          ++ ("status[]", "new") ∷ ("status[]", "open") ∷ ("mine", "true") ∷ [])
unfolding plain_params
parse-build_url_roundtrip_example =
    parse-build_url_roundtrip plain_params plain_url "/api/tasks" params
      (record { pathname = "/api/tasks"; search = "" }) refl (refl, tt)
