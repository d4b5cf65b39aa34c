-- ===== src/Server/Tests.antt =====
-- The client for servers on concrete bundles, over natural numbers.
use js_sdks.Common.{
  ℕ, ◌≡◌, refl, ◌⊎◌, true, none, some, List, [], ◌∷◌, codes, text_eq, includes, Distinct, keys,
  spread,
}
use js_sdks.ConfigValue.Tests as Values
use js_sdks.ConfigValue.Tests.{seven}
use js_sdks.Client.Types.{full, delta}
use js_sdks.Evaluator.Tests.{sample}
use js_sdks.Evaluator.Condition.{Condition}
use js_sdks.Evaluator.Rollout.{text}
use js_sdks.Evaluator.Types.{Rule, Config}
use js_sdks.Evaluator.Walk.{explain}
use js_sdks.Server.{
  ConfigBundle, merge_bundle, find_keys_removed_by, find_keys_updated_by, uses_any_segment,
  keys_using, unique_after, absent_keys, evaluation_of,
}
use js_sdks.Server.Unreported.{explanation_in, explanation_of_unreported}
use js_sdks.Server.Served.{IsDefaulted, IsServed, evaluation_of-cases}

abbrev on_segment : Condition
on_segment = record {
  id = codes "c";
  kind = some (codes "segment");
  attribute = [];
  trait = none;
  operator = some (codes "in");
  target_type = [];
  target_values = none;
  segment_id = codes "s";
}

abbrev on_rule : Rule ℕ
on_rule = record {
  id = codes "r";
  type = codes "conditional";
  order = none;
  conditions = some (on_segment ∷ []);
  target = codes "value";
  value = some (text (codes "9"));
  value_id = none;
  variation_id = none;
  percentages = none;
}

abbrev config_with : List (Rule ℕ) → Config ℕ
config_with rules = record {
  id = codes "1";
  key = codes "a";
  type = codes "integer";
  variations = none;
  target = some (record {
    default_value = codes "5";
    default_value_id = none;
    default_variation_id = none;
    rules = some rules;
  });
}

abbrev held : ConfigBundle ℕ
held = record {
  configs = (codes "a", config_with (on_rule ∷ [])) ∷ (codes "b", config_with []) ∷ [];
  segments = none;
  kind = full;
}

-- A delta that carries a segment only: the config of `a` uses it.
abbrev carried : ConfigBundle ℕ
carried = record {
  configs = [];
  segments = some ((codes "s", record { groups = none }) ∷ []);
  kind = delta;
}

updated_by_segment :
    find_keys_updated_by (merge_bundle (some held) carried) carried ≡ codes "a" ∷ []
unfolding find_keys_updated_by merge_bundle uses_any_segment keys_using unique_after keys includes
    text_eq spread
updated_by_segment = refl

explanation_of_unreported_example :
    explanation_in sample none (merge_bundle (some held) carried) (codes "b")
    ≡ explanation_in sample none held (codes "b")
unfolding find_keys_updated_by find_keys_removed_by merge_bundle uses_any_segment keys_using
    unique_after absent_keys keys includes text_eq spread Distinct
explanation_of_unreported_example =
    explanation_of_unreported sample none held carried (codes "b") tt (refl, tt) refl refl

evaluation_of-cases_example :
    IsDefaulted seven
      (evaluation_of sample Values.sample none none true (codes "a") (some (config_with [])) seven)
    ⊎ IsServed seven
        (explain sample none none (config_with [])).value_id
        (explain sample none none (config_with [])).reason
        (evaluation_of sample Values.sample none none true
          (codes "a")
          (some (config_with []))
          seven)
evaluation_of-cases_example =
    evaluation_of-cases sample Values.sample none none true (codes "a") (config_with []) seven
