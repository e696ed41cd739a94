-- ===== src/Client/Url.antt =====
-- `buildUrl`. The URL standard is the browser's: `new_url` is none where the constructor throws.
use Prim.Native.String
use mathlib.Core.Option
use react_ai_healthycare.Base.{String, List, [], ◌∷◌, ◌++◌, Option, Bool, true, false, Map, decimal}
use react_ai_healthycare.Base.Int.{ℤ, pos, negsuc}
use react_ai_healthycare.EntitySelection.SearchParams.{SearchParams, set, search_text}

-- A number is an integer, or else given by its decimal text.
pub data Scalar : Type 0 where
  string : String → Scalar
  integer : ℤ → Scalar
  fraction : String → Scalar
  boolean : Bool → Scalar

pub data QueryParamValue : Type 0 where
  scalar : Scalar → QueryParamValue
  scalars : List Scalar → QueryParamValue
  undefined null : QueryParamValue

abbrev pub QueryParams : Type 0
QueryParams = Map String QueryParamValue

-- `String(value)`
abbrev pub text_of : Scalar → String
text_of (string s) = s
text_of (integer (pos n)) = decimal n
text_of (integer (negsuc n)) = String.◌++◌ "-" (decimal (Prim.Native.Nat.suc n))
text_of (fraction s) = s
text_of (boolean true) = "true"
text_of (boolean false) = "false"

-- `search` is as it was written until `searchParams` is changed.
pub record Url : Type 0 where
  pub pathname : String
  pub search : String

module _ (sp : SearchParams) where
  -- `url.searchParams.append` and `url.searchParams.set`
  abbrev pub append_param : String → String → Url → Url
  append_param key value url = record url {
    search = search_text sp (sp.parse url.search ++ (key, value) ∷ []);
  }

  abbrev pub set_param : String → String → Url → Url
  set_param key value url = record url {
    search = search_text sp (set key value (sp.parse url.search));
  }

  abbrev pub append_items : String → List Scalar → Url → Url
  append_items key [] url = url
  append_items key (item ∷ items) url =
      append_items key items (append_param (String.◌++◌ key "[]") (text_of item) url)

  abbrev pub add_param : String → QueryParamValue → Url → Url
  add_param key (scalar value) url = set_param key (text_of value) url
  add_param key (scalars items) url = append_items key items url
  add_param key undefined url = url
  add_param key null url = url

  abbrev pub add_params : QueryParams → Url → Url
  add_params [] url = url
  add_params ((key, value) ∷ params) url = add_params params (add_param key value url)

  abbrev pub href_of : Url → String
  href_of url = String.◌++◌ url.pathname url.search

  unfoldable pub build_url : (String → Option Url) → String → QueryParams → Option String
  build_url new_url path params = Option.map (λ url. href_of (add_params params url)) (new_url path)
