-- ===== src/RuleForm/Laws.antt =====
-- Opening a rule in the form and saving it.
use react_ai_healthycare.Base.{
  ◌or◌, Bool-cases, inl, inr, is_some, ℕ, suc, String, List, [], ◌∷◌, Option, none, some, true, ◌≡◌,
  ◌≢◌, refl, sym, ap, ◌∙◌, map, non_empty, arith, string_eq, ==_iff, ◌==◌,
}
use react_ai_healthycare.Api.Json.{Json}
use react_ai_healthycare.RuleForm.{
  base_form, with_conditions, payload_conditions, RuleFormState, condition_of, rows_of,
  rule_to_form, build_rule_payload, non_empty?,
}
use react_ai_healthycare.Api.Enums.{aircraft_position, SignalType}
use react_ai_healthycare.Api.Rules.{
  CorrelationConditions, RuleConditions, flat, compound, CorrelationRule,
}

-- The condition has its numbers, and no site.
abbrev pub IsFilled : CorrelationConditions → Type 0
IsFilled c =
    (is_some c.proximity_km ≡ true)
    × (is_some c.count_threshold ≡ true)
    × (is_some c.time_window_minutes ≡ true)
    × (c.site_id ≡ none)

abbrev pub AreFilled : List CorrelationConditions → Type 0
AreFilled [] = Unit
AreFilled (c ∷ cs) = IsFilled c × AreFilled cs

-- A flat rule has a signal type too.
abbrev pub HasFilledConditions : RuleConditions → Type 0
HasFilledConditions (flat c) = IsFilled c × (is_some c.signal_type ≡ true)
HasFilledConditions (compound c) = AreFilled c.conditions

some-or : {A : Type 0} (o : Option A) (d : A) → is_some o ≡ true → some (o or d) ≡ o
some-or none d h = ground (arith, h)
some-or (some x) d h = refl

non_empty-or : (o : Option String) → o ≢ some "" → non_empty (o or "") ≡ o
non_empty-or none h = refl
non_empty-or (some s) h = elim (Bool-cases (s == "")) [
  | inl same ↦ ground (arith, h, ==_iff s "", ap some ((==_iff s "").0 same))
  | inr other ↦ ground (arith, other)
]

non_empty?_lem : (o : Option String) → o ≢ some "" → non_empty? o ≡ o
non_empty?_lem none h = refl
non_empty?_lem (some s) h = non_empty-or (some s) h

-- A condition with its numbers replaced by those of the form.
abbrev refilled :
    Option SignalType
    → Option ℕ
    → Option Json
    → Option ℕ
    → Option ℕ
    → Option String
    → CorrelationConditions
refilled t km mag n m site = record {
  signal_type = t;
  proximity_km = km;
  site_id = site;
  magnitude_min = mag;
  count_threshold = n;
  time_window_minutes = m;
}

refilled_lem :
    (c : CorrelationConditions) (t : Option SignalType) (minutes : ℕ)
    → IsFilled c
    → t ≡ c.signal_type
    → refilled t
        (some (c.proximity_km or 50))
        c.magnitude_min
        (some (c.count_threshold or 1))
        (some (c.time_window_minutes or minutes))
        none
      ≡ c
refilled_lem c t minutes (km, n, m, site) e = λ i.
    refilled (e i) (some-or c.proximity_km 50 km i) c.magnitude_min
      (some-or c.count_threshold 1 n i) (some-or c.time_window_minutes minutes m i) (sym site i)

module _ (uuid : ℕ → String) where
  conditions-rows :
      (call : ℕ) (cs : List CorrelationConditions)
      → AreFilled cs
      → map condition_of (rows_of uuid call cs) ≡ cs
  conditions-rows call [] h = refl
  conditions-rows call (c ∷ cs) (f, h) =
      ap (λ z. z ∷ map condition_of (rows_of uuid (suc call) cs))
        (refilled_lem c c.signal_type 60 f refl)
      ∙ ap (c ∷◌) (conditions-rows (suc call) cs h)

  conditions_lem :
      (call : ℕ) (conditions : RuleConditions) (form : RuleFormState)
      → HasFilledConditions conditions
      → payload_conditions
          (with_conditions uuid call conditions form).condition_mode
          (with_conditions uuid call conditions form)
        ≡ conditions
  conditions_lem call (flat c) form (f, t) =
      ap flat (refilled_lem c _ 10 f (some-or c.signal_type aircraft_position t))
  conditions_lem call (compound c) form h =
      ap (λ z. compound (record { operator = c.operator; conditions = z }))
        (conditions-rows call c.conditions h)

  with_conditions_lem :
      (call : ℕ) (conditions : RuleConditions) (form : RuleFormState)
      → let f = with_conditions uuid call conditions form in
        (f.name ≡ form.name)
        × (f.description ≡ form.description)
        × (f.is_active ≡ form.is_active)
        × (f.cooldown_minutes ≡ form.cooldown_minutes)
        × (f.area_of_operation_id ≡ form.area_of_operation_id)
        × (f.mitre_tags ≡ form.mitre_tags)
  with_conditions_lem call (flat c) form = (refl, refl, refl, refl, refl, refl)
  with_conditions_lem call (compound c) form = (refl, refl, refl, refl, refl, refl)

  -- A rule whose conditions have their numbers and no site (a flat rule has a signal type too), and
  -- whose description and area are not the empty text, keeps its name, description, state, cooldown,
  -- area, tags and conditions when it is opened in the form and saved; missing tags become no tags.
  pub build-rule_to_form_roundtrip :
      (call : ℕ) (rule : CorrelationRule)
      → HasFilledConditions rule.conditions
      → rule.description ≢ some ""
      → rule.area_of_operation_id ≢ some ""
      → let p = build_rule_payload (rule_to_form uuid call rule) in
        (p.name ≡ rule.name)
        × (p.description ≡ rule.description)
        × (p.is_active ≡ rule.is_active)
        × (p.cooldown_minutes ≡ rule.cooldown_minutes)
        × (p.area_of_operation_id ≡ rule.area_of_operation_id)
        × (p.mitre_tags ≡ rule.mitre_tags or [])
        × (p.conditions ≡ rule.conditions)
  unfolding build_rule_payload rule_to_form
  build-rule_to_form_roundtrip call rule h d a =
      let kept = with_conditions_lem call rule.conditions (base_form uuid rule) in
      (
        kept.0,
        ap non_empty kept.1 ∙ non_empty-or rule.description d,
        kept.2,
        kept.3,
        ap non_empty? kept.4 ∙ non_empty?_lem rule.area_of_operation_id a,
        kept.5,
        conditions_lem call rule.conditions (base_form uuid rule) h,
      )
