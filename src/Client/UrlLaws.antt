-- ===== src/Client/UrlLaws.antt =====
-- The query of a request has the parameters that are given, after those of the path.
use Prim.Native.String
use mathlib.Core.List.{append-nil, append_assoc}
use react_ai_healthycare.Base.{
  String, List, [], ◌∷◌, ◌++◌, Option, none, some, ◌≡◌, refl, sym, ap, ◌∙◌, arith, string_eq,
}
use react_ai_healthycare.EntitySelection.SearchParams.{
  SearchParams, Params, set, get, parse-search_text,
}
use react_ai_healthycare.Client.Url.{
  Scalar, scalar, scalars, undefined, null, QueryParams, text_of, Url, append_items, append_param,
  set_param, add_params, build_url,
}

abbrev pub items_of : String → List Scalar → Params
items_of key [] = []
items_of key (item ∷ items) = (String.◌++◌ key "[]", text_of item) ∷ items_of key items

-- A value gives one pair, each item of an array one under the name with brackets, null none.
abbrev pub pairs_of : QueryParams → Params
pairs_of [] = []
pairs_of ((key, scalar value) ∷ params) = (key, text_of value) ∷ pairs_of params
pairs_of ((key, scalars items) ∷ params) = items_of key items ++ pairs_of params
pairs_of ((key, undefined) ∷ params) = pairs_of params
pairs_of ((key, null) ∷ params) = pairs_of params

-- No value has a name that stands before it.
abbrev pub IsFresh : Params → QueryParams → Type 0
IsFresh ps [] = Unit
IsFresh ps ((key, scalar value) ∷ params) =
    (get key ps ≡ none) × IsFresh (ps ++ (key, text_of value) ∷ []) params
IsFresh ps ((key, scalars items) ∷ params) = IsFresh (ps ++ items_of key items) params
IsFresh ps ((key, undefined) ∷ params) = IsFresh ps params
IsFresh ps ((key, null) ∷ params) = IsFresh ps params

set_fresh : (k v : String) (ps : Params) → get k ps ≡ none → set k v ps ≡ ps ++ (k, v) ∷ []
set_fresh k v [] h = refl
set_fresh k v ((j, w) ∷ ps) h = ground (arith, h, set_fresh k v ps)

module _ (sp : SearchParams) where
  parse-append_items :
      (key : String) (items : List Scalar) (url : Url)
      → sp.parse (append_items sp key items url).search ≡ sp.parse url.search ++ items_of key items
  parse-append_items key [] url = sym (append-nil (sp.parse url.search))
  parse-append_items key (item ∷ items) url =
      let next = append_param sp (String.◌++◌ key "[]") (text_of item) url in
      let pair : String × String = (String.◌++◌ key "[]", text_of item) in
      parse-append_items key items next
      ∙ (ap (λ ps. ps ++ items_of key items)
            (parse-search_text sp (sp.parse url.search ++ pair ∷ []))
          ∙ append_assoc (sp.parse url.search) (pair ∷ []) (items_of key items))

  parse-add_params :
      (params : QueryParams) (url : Url) (ps : Params)
      → sp.parse url.search ≡ ps
      → IsFresh ps params
      → sp.parse (add_params sp params url).search ≡ ps ++ pairs_of params
  parse-add_params [] url ps e h = e ∙ sym (append-nil ps)
  parse-add_params ((key, scalar value) ∷ params) url ps e h =
      parse-add_params params (set_param sp key (text_of value) url)
        (ps ++ (key, text_of value) ∷ [])
        (parse-search_text sp (set key (text_of value) (sp.parse url.search))
          ∙ (ap (set key (text_of value)) e ∙ set_fresh key (text_of value) ps h.0))
        h.1
      ∙ append_assoc ps ((key, text_of value) ∷ []) (pairs_of params)
  parse-add_params ((key, scalars items) ∷ params) url ps e h =
      parse-add_params params (append_items sp key items url) (ps ++ items_of key items)
        (parse-append_items key items url ∙ ap (λ qs. qs ++ items_of key items) e) h
      ∙ append_assoc ps (items_of key items) (pairs_of params)
  parse-add_params ((key, undefined) ∷ params) url ps e h = parse-add_params params url ps e h
  parse-add_params ((key, null) ∷ params) url ps e h = parse-add_params params url ps e h

  pathname-append_items :
      (key : String) (items : List Scalar) (url : Url)
      → (append_items sp key items url).pathname ≡ url.pathname
  pathname-append_items key [] url = refl
  pathname-append_items key (item ∷ items) url =
      pathname-append_items key items (append_param sp (String.◌++◌ key "[]") (text_of item) url)

  pathname-add_params :
      (params : QueryParams) (url : Url) → (add_params sp params url).pathname ≡ url.pathname
  pathname-add_params [] url = refl
  pathname-add_params ((key, scalar value) ∷ params) url =
      pathname-add_params params (set_param sp key (text_of value) url)
  pathname-add_params ((key, scalars items) ∷ params) url =
      pathname-add_params params (append_items sp key items url)
      ∙ pathname-append_items key items url
  pathname-add_params ((key, undefined) ∷ params) url = pathname-add_params params url
  pathname-add_params ((key, null) ∷ params) url = pathname-add_params params url

  -- If the path is a URL, and no single value has a name that stands before it, in the path's query or
  -- of another parameter, then the request goes to that path, and its query is read back as the pairs
  -- of the path's query and after them those of the parameters, in their order.
  pub parse-build_url_roundtrip :
      (new_url : String → Option Url) (path : String) (params : QueryParams) (url : Url)
      → new_url path ≡ some url
      → IsFresh (sp.parse url.search) params
      → (search : String) × (build_url sp new_url path params
          ≡ some (String.◌++◌ url.pathname search))
        × (sp.parse search ≡ sp.parse url.search ++ pairs_of params)
  unfolding build_url
  parse-build_url_roundtrip new_url path params url e h = (
    (add_params sp params url).search,
    rw e (
        ap (λ p. some (String.◌++◌ p (add_params sp params url).search))
          (pathname-add_params params url)),
    parse-add_params params url (sp.parse url.search) refl h,
  )
