-- ===== src/RuleForm/Tests.antt =====
-- A flat rule with all its fields, opened and saved.
use react_ai_healthycare.Base.{
  ℕ, String, [], ◌∷◌, none, some, true, ◌≡◌, refl, arith, ==_iff, string_eq,
}
use react_ai_healthycare.Api.Enums.{wildfire}
use react_ai_healthycare.Api.Rules.{CorrelationRule, flat}
use react_ai_healthycare.RuleForm.{rule_to_form, build_rule_payload}
use react_ai_healthycare.RuleForm.Laws.{build-rule_to_form_roundtrip}

abbrev rule : CorrelationRule
rule = record {
  id = "r1";
  name = "Fire";
  description = some "near a site";
  is_active = true;
  conditions = flat (record {
    signal_type = some wildfire;
    proximity_km = some 5;
    site_id = none;
    magnitude_min = none;
    count_threshold = some 2;
    time_window_minutes = some 30;
  });
  actions = record { create_task = none; escalate_task = none; flag_site = none };
  created_by_id = "u1";
  area_of_operation_id = none;
  cooldown_minutes = 60;
  last_fired_at = none;
  mitre_tags = some ("T1036" ∷ []);
  created_at = "";
  updated_at = "";
}

abbrev key : ℕ → String
key n = "k"

build-rule_to_form_example :
    let p = build_rule_payload (rule_to_form key 2 rule) in
    (p.name ≡ "Fire")
    × (p.description ≡ some "near a site")
    × (p.is_active ≡ true)
    × (p.cooldown_minutes ≡ 60)
    × (p.area_of_operation_id ≡ none)
    × (p.mitre_tags ≡ "T1036" ∷ [])
    × (p.conditions ≡ rule.conditions)
build-rule_to_form_example =
    build-rule_to_form_roundtrip key 2 rule ((refl, refl, refl, refl), refl)
      (λ e. ground (arith, e, ==_iff {A = String} "near a site" "")) (λ e. ground (arith, e))
