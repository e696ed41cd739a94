-- ===== src/Client/Messages.antt =====
-- `extractApiMessage` and `getApiErrorMessage`.
use react_ai_healthycare.Base.{
  String, List, [], ◌∷◌, Option, some, if◌then◌else◌, trim, has_text, join, truthy,
}
use react_ai_healthycare.Api.Json.{
  Json, null, bool, int, frac, str, arr, obj, Items, nil, cons, get_field,
}

-- The items that are texts with more than white space.
abbrev pub texts_in : Items → List String
texts_in nil = []
texts_in (cons (str s) js) = if has_text s then s ∷ texts_in js else texts_in js
texts_in (cons _ js) = texts_in js

abbrev pub joined_or : String → List String → String
joined_or fallback [] = fallback
joined_or fallback (m ∷ ms) = join ", " (m ∷ ms)

abbrev pub trimmed_or : String → String → String
trimmed_or fallback s = if has_text s then trim s else fallback

-- A property that is a text with more than white space, trimmed.
abbrev pub text_or : String → Option Json → String
text_or fallback (some (str s)) = trimmed_or fallback s
text_or fallback _ = fallback

abbrev pub errors_or : String → Option Json → String
errors_or fallback (some (arr items)) = joined_or fallback (texts_in items)
errors_or fallback _ = fallback

unfoldable pub extract_api_message : Json → String → String
extract_api_message (str s) fallback = trimmed_or fallback s
extract_api_message (arr items) fallback = joined_or fallback (texts_in items)
extract_api_message (obj payload) fallback =
    errors_or (text_or (text_or fallback (get_field "message" payload)) (get_field "error" payload))
      (get_field "errors" payload)
extract_api_message null fallback = fallback
extract_api_message (bool b) fallback = fallback
extract_api_message (int n) fallback = fallback
extract_api_message (frac t) fallback = fallback

-- What a catch clause gets: an `ApiError`, another `Error`, or some other value.
pub data Caught : Type 0 where
  caught_api_error : (body : Json) (message : String) → Caught
  caught_error : (message : String) → Caught
  caught_other : Caught

unfoldable pub get_api_error_message : Caught → String → String
get_api_error_message (caught_api_error body message) fallback =
    extract_api_message body (if truthy message then message else fallback)
get_api_error_message (caught_error message) fallback =
    if has_text message then message else fallback
get_api_error_message caught_other fallback = fallback
