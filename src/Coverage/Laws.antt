-- ===== src/Coverage/Laws.antt =====
-- The circles listed for a site: one of each asset that covers it.
use react_ai_healthycare.Base.{
  ℕ, String, List, [], ◌∷◌, ◌++◌, Option, none, some, Bool, false, not, ◌||◌, ◌&&◌, if◌then◌else◌,
  ◌≡◌, refl, sym, ap, ◌∙◌, ◌==◌, ==_iff, string_eq, is_some, ◌or◌, ◌or_else◌, filter, get_last?,
  head?, Map, lookup, insert, values, lookup-insert, HasDistinctKeys, insert-HasDistinctKeys, arith,
  All, inl, inr, Bool-cases,
}
use react_ai_healthycare.Api.Json.{Json}
use react_ai_healthycare.Api.Records.{Site}
use react_ai_healthycare.Coverage.{
  CoverageCircle, is_telemetry, add_circle, unique_from, covers, covered_from, coverage_by_site,
}

get_last?_cons : {A : Type 0} (x : A) (xs : List A) → get_last? (x ∷ xs) ≡ some (get_last? xs or x)
get_last?_cons x [] = refl
get_last?_cons x (y ∷ xs) = let e = get_last?_cons y xs in e ∙ ap (λ o. some (o or x)) (sym e)

module _ {N : Type 0} (to_number : Json → N) where
  abbrev is_of : String → CoverageCircle N → Bool
  is_of k c = c.asset_id == k

  abbrev is_reading_of : String → CoverageCircle N → Bool
  is_reading_of k c = c.asset_id == k && is_telemetry to_number c.anchor_source

  -- Of an asset the last circle around a reading, or else its first.
  abbrev pub best_of : String → List (CoverageCircle N) → Option (CoverageCircle N)
  best_of k cs = get_last? (filter (is_reading_of k) cs) or_else head? (filter (is_of k) cs)

  abbrev next : String → CoverageCircle N → Option (CoverageCircle N) → Option (CoverageCircle N)
  next k c o =
      if c.asset_id == k && (not (is_some o) || is_telemetry to_number c.anchor_source)
      then some c
      else o

  abbrev pick :
      String → Option (CoverageCircle N) → List (CoverageCircle N) → Option (CoverageCircle N)
  pick k o [] = o
  pick k o (c ∷ cs) = pick k (next k c o) cs

  lookup-add_circle :
      (k : String) (c : CoverageCircle N) (m : Map String (CoverageCircle N))
      → lookup k (add_circle to_number c m) ≡ next k c (lookup k m)
  lookup-add_circle k c m = ground (arith, lookup-insert c.asset_id k c m, ==_iff c.asset_id k)

  lookup-unique_from :
      (k : String) (cs : List (CoverageCircle N)) (m : Map String (CoverageCircle N))
      → lookup k (unique_from to_number m cs) ≡ pick k (lookup k m) cs
  lookup-unique_from k [] m = refl
  lookup-unique_from k (c ∷ cs) m =
      lookup-unique_from k cs (add_circle to_number c m)
      ∙ ap (λ o. pick k o cs) (lookup-add_circle k c m)

  pick-some :
      (k : String) (c : CoverageCircle N) (cs : List (CoverageCircle N))
      → pick k (some c) cs ≡ some (get_last? (filter (is_reading_of k) cs) or c)
  pick-some k c [] = refl
  pick-some k c (d ∷ cs) = elim (Bool-cases (is_reading_of k d)) [
    | inl q ↦ rw q (
        pick-some k d cs
        ∙ ap (λ o. some (o or c)) (sym (get_last?_cons d (filter (is_reading_of k) cs))))
    | inr q ↦ rw q (pick-some k c cs)
  ]

  pick-none : (k : String) (cs : List (CoverageCircle N)) → pick k none cs ≡ best_of k cs
  pick-none k [] = refl
  pick-none k (d ∷ cs) = elim (Bool-cases (d.asset_id == k)) [
    | inl p ↦ elim (Bool-cases (is_telemetry to_number d.anchor_source)) [
      | inl q ↦ rw p (
          rw q (
            pick-some k d cs
            ∙ ap (λ o. o or_else some d) (sym (get_last?_cons d (filter (is_reading_of k) cs)))))
      | inr q ↦ rw p (rw q (pick-some k d cs ∙ or_lem (get_last? (filter (is_reading_of k) cs)) d))
    ]
    | inr p ↦ rw p (pick-none k cs)
  ]
    where
      or_lem :
          (o : Option (CoverageCircle N)) (c : CoverageCircle N)
          → some (o or c) ≡ (o or_else some c)
      or_lem none c = refl
      or_lem (some b) c = refl

  unique_from-HasDistinctKeys :
      (cs : List (CoverageCircle N)) (m : Map String (CoverageCircle N))
      → HasDistinctKeys m
      → HasDistinctKeys (unique_from to_number m cs)
  unique_from-HasDistinctKeys [] m h = h
  unique_from-HasDistinctKeys (c ∷ cs) m h =
      unique_from-HasDistinctKeys cs (add_circle to_number c m)
        (ground (arith, h, insert-HasDistinctKeys c.asset_id c m h))

  module _ (is_within : (lat lng anchor_lat anchor_lng : N) → (radius : ℕ) → Bool) where
    abbrev pub circles_at : Site → List (CoverageCircle N) → Map String (CoverageCircle N)
    circles_at site circles =
        unique_from to_number [] (filter (covers to_number is_within site) circles)

    -- no later site has the id
    abbrev pub IsLast : String → List Site → Type 0
    IsLast id sites = All (λ (s : Site). (s.id == id) ≡ false) sites

    lookup-later :
        (id : String) (circles : List (CoverageCircle N)) (m : Map String (List (CoverageCircle N)))
        (sites : List Site)
        → IsLast id sites
        → lookup id (covered_from to_number is_within circles m sites) ≡ lookup id m
    lookup-later id circles m [] h = refl
    lookup-later id circles m (s ∷ sites) h =
        lookup-later id circles (insert s.id (values (circles_at s circles)) m) sites h.1
        ∙ (lookup-insert s.id id (values (circles_at s circles)) m
            ∙ ap (λ b. if b then some (values (circles_at s circles)) else lookup id m) h.0)

    lookup-covered :
        (site : Site) (circles : List (CoverageCircle N)) (m : Map String (List (CoverageCircle N)))
        (before after : List Site)
        → IsLast site.id after
        → lookup site.id (covered_from to_number is_within circles m (before ++ site ∷ after))
          ≡ some (values (circles_at site circles))
    lookup-covered site circles m [] after h =
        lookup-later site.id circles (insert site.id (values (circles_at site circles)) m) after h
        ∙ ground (
          arith,
          lookup-insert site.id site.id (values (circles_at site circles)) m,
          ==_iff site.id site.id,
        )
    lookup-covered site circles m (s ∷ before) after h =
        lookup-covered site circles (insert s.id (values (circles_at s circles)) m) before after h

    -- For a site after which none has its id, the circles listed are the entries of a map with one
    -- entry for each asset that has a circle over the site: the last of its circles over the site that
    -- is around a reading, or else the first of them.
    pub coverage_by_site_lem :
        (site : Site) (circles : List (CoverageCircle N)) (before after : List Site)
        → IsLast site.id after
        → (u : Map String (CoverageCircle N)) × (lookup site.id
              (coverage_by_site to_number is_within (before ++ site ∷ after) circles)
            ≡ some (values u))
          × HasDistinctKeys u
          × ((k : String)
              → lookup k u ≡ best_of k (filter (covers to_number is_within site) circles))
    unfolding coverage_by_site
    coverage_by_site_lem site circles before after h = (
      circles_at site circles,
      lookup-covered site circles [] before after h,
      unique_from-HasDistinctKeys (filter (covers to_number is_within site) circles) [] tt,
      λ k.
          lookup-unique_from k (filter (covers to_number is_within site) circles) []
          ∙ pick-none k (filter (covers to_number is_within site) circles),
    )
