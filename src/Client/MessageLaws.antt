-- ===== src/Client/MessageLaws.antt =====
-- The texts of errors are not blank.
use react_ai_healthycare.Base.{
  String, List, [], ◌∷◌, Option, none, some, false, ◌≡◌, arith, is_blank, is_blank-trim,
  has_text_iff, join_has_text, All,
}
use react_ai_healthycare.Api.Json.{
  Json, null, bool, int, frac, str, arr, obj, Items, nil, cons, get_field,
}
use react_ai_healthycare.Client.{
  extract_api_message, texts_in, joined_or, trimmed_or, text_or, errors_or,
}

abbrev HasText : String → Type 0
HasText s = is_blank s ≡ false

trimmed_or-HasText : (s fallback : String) → HasText fallback → HasText (trimmed_or fallback s)
trimmed_or-HasText s fallback h = ground (arith, h, has_text_iff s, is_blank-trim s)

texts_in_lem : (items : Items) → All HasText (texts_in items)
texts_in_lem nil = tt
texts_in_lem (cons (str s) js) = ground (arith, has_text_iff s, texts_in_lem js)
texts_in_lem (cons null js) = texts_in_lem js
texts_in_lem (cons (bool b) js) = texts_in_lem js
texts_in_lem (cons (int n) js) = texts_in_lem js
texts_in_lem (cons (frac t) js) = texts_in_lem js
texts_in_lem (cons (arr a) js) = texts_in_lem js
texts_in_lem (cons (obj o) js) = texts_in_lem js

joined_or-HasText :
    (fallback : String) (ms : List String)
    → All HasText ms
    → HasText fallback
    → HasText (joined_or fallback ms)
joined_or-HasText fallback [] a h = h
joined_or-HasText fallback (m ∷ ms) a h = join_has_text ", " m ms a.0

text_or-HasText :
    (o : Option Json) (fallback : String) → HasText fallback → HasText (text_or fallback o)
text_or-HasText none fallback h = h
text_or-HasText (some (str s)) fallback h = trimmed_or-HasText s fallback h
text_or-HasText (some null) fallback h = h
text_or-HasText (some (bool b)) fallback h = h
text_or-HasText (some (int n)) fallback h = h
text_or-HasText (some (frac t)) fallback h = h
text_or-HasText (some (arr a)) fallback h = h
text_or-HasText (some (obj o)) fallback h = h

errors_or-HasText :
    (o : Option Json) (fallback : String) → HasText fallback → HasText (errors_or fallback o)
errors_or-HasText none fallback h = h
errors_or-HasText (some (arr items)) fallback h =
    joined_or-HasText fallback (texts_in items) (texts_in_lem items) h
errors_or-HasText (some null) fallback h = h
errors_or-HasText (some (bool b)) fallback h = h
errors_or-HasText (some (int n)) fallback h = h
errors_or-HasText (some (frac t)) fallback h = h
errors_or-HasText (some (str s)) fallback h = h
errors_or-HasText (some (obj o)) fallback h = h

-- Of any body, the text extracted is not blank, if the fallback is not.
pub extract-HasText :
    (body : Json) (fallback : String)
    → is_blank fallback ≡ false
    → is_blank (extract_api_message body fallback) ≡ false
unfolding extract_api_message
extract-HasText (str s) fallback h = trimmed_or-HasText s fallback h
extract-HasText (arr items) fallback h =
    joined_or-HasText fallback (texts_in items) (texts_in_lem items) h
extract-HasText (obj payload) fallback h = errors_or-HasText (get_field "errors" payload) _ (
    text_or-HasText (get_field "error" payload) _
      (text_or-HasText (get_field "message" payload) fallback h))
extract-HasText null fallback h = h
extract-HasText (bool b) fallback h = h
extract-HasText (int n) fallback h = h
extract-HasText (frac t) fallback h = h
