-- ===== src/Evaluator/Tests.antt =====
-- The evaluator on a concrete config, over natural numbers.
use js_sdks.Common.{
  ℕ, ◌+◌, ◌-◌, ◌≡◌, refl, Bool, true, not, Option, none, some, List, [], ◌∷◌, Text, codes, text_eq,
  includes, lower, parse_decimal, is_decimal_characters, length, ltb, leb, ◌==◌, All, arith, ◌⊎◌,
  returns, throws, if◌then◌else◌,
}
use js_sdks.Evaluator.Value.{
  num, str, arr, obj, nil, cons, Fields, end, field, Externals, render, unwrap, resolved_type_of,
  scalar_type,
}
use js_sdks.Evaluator.Compare.{
  lowercase_operator, compare_numeric, compare_text, parse_finite, parse_first, parse_finite_text,
  finite_or_none, text_test,
}
use js_sdks.Evaluator.Compare.Laws.{IsTotal, less, compare_numeric-Opposite}
use js_sdks.Evaluator.Pointer.{resolve_json_pointer}
use js_sdks.Evaluator.Pointer.Escapes.{
  encode_path, encode_token, follow, resolve_json_pointer-encode_path,
}
use js_sdks.Evaluator.Condition.{
  Context, EvaluationContext, Condition, resolve, compare, effective_context_kind, resolve_trait,
}
use js_sdks.Evaluator.Condition
use js_sdks.Evaluator.Segment.{Segment, Segments, SegmentCheck, lookup}
use js_sdks.Evaluator.Segment
use js_sdks.Evaluator.Segment.Membership.{IsUnusable, IsMembership, explain-cases}
use js_sdks.Evaluator.Rollout.{
  Percentage, text, ServedValue, served, explain_rollout, assign_percentage, hash_input,
  walk_shares, serve_selected, text_of_scalar, identifier_of,
}
use js_sdks.Evaluator.Rollout.Serving.{IsServedBy, explain_rollout_serves}
use js_sdks.Evaluator.Types.{
  Rule, Config, WalkedRule, ConditionExplanation, attribute_condition, matched, errored,
}
use js_sdks.Evaluator.Rule.{
  try_rule, explain_rule, explain_conditional_rule, explain_conditions, explain_condition,
  serve_target, has_matched, outcome_of,
}
use js_sdks.Evaluator.Rule.Conditions.{IsMatched, explain_conditional_rule_serves}
use js_sdks.Evaluator.Walk.{
  order_key, sort_rules, insert_rule, walk_rules, rule_explanations, served_config_state,
  find_variation,
}
use js_sdks.Evaluator.Walk
use js_sdks.Evaluator.Walk.FirstMatch.{IsFirstMatch, explain-IsFirstMatch}
use js_sdks.Evaluator.Walk.Errors.{decided, decided_without_errored}
use js_sdks.Evaluator.Walk.Order.{IsRank, IsSorted, placed_at, sort_rules_lem}
use mathlib.Core.List.{Perm}

-- Natural numbers for the numbers, a hash that is the length of the text, and versions that are
-- the numbers of their digits.
abbrev pub sample : Externals ℕ ℕ
sample = record {
  number_of = λ s. parse_decimal 0 s;
  text_of = λ n. [];
  is_finite = λ n. true;
  num_eq = λ a b. a == b;
  num_lt = λ a b. ltb a b;
  num_le = λ a b. leb a b;
  add = λ a b. a + b;
  sub = λ a b. a - b;
  zero_num = 0;
  max_safe_integer = 9007199254740991;
  tenths = λ n. n;
  rapidhash = λ s seed. length s;
  iso_millis = λ s. none;
  coerce_version = λ s. if is_decimal_characters s then some (parse_decimal 0 s) else none;
  version_eq = λ a b. a == b;
  version_lt = λ a b. ltb a b;
  version_lte = λ a b. leb a b;
  version_gt = λ a b. ltb b a;
  version_gte = λ a b. leb b a;
}

abbrev traits_of_user : Fields ℕ
traits_of_user = field (codes "a/b") (arr (cons (num 4) (cons (str (codes "x")) nil))) end

abbrev user : Option (EvaluationContext ℕ)
user = some (record {
  context = some (record {
    id = some (codes "u1");
    kind = none;
    name = some (codes "Ada");
    traits = some traits_of_user;
  });
  metadata = none;
})

abbrev name_is : Text → Condition
name_is target = record {
  id = codes "c";
  kind = none;
  attribute = codes "name";
  trait = none;
  operator = some (codes "equals");
  target_type = codes "text";
  target_values = some (target ∷ []);
  segment_id = [];
}

abbrev member_of : Text → Condition
member_of id = record {
  id = codes "c";
  kind = some (codes "segment");
  attribute = [];
  trait = none;
  operator = some (codes "in");
  target_type = [];
  target_values = none;
  segment_id = id;
}

-- A condition whose operator is not a string.
abbrev no_operator : Condition
no_operator = record (name_is (codes "Ada")) { operator = none }

abbrev people : Option Segments
people = some (
    (
      codes "s",
      record {
        groups = some (some (name_is (codes "Bob") ∷ []) ∷ some (name_is (codes "Ada") ∷ []) ∷ []);
      },
    )
    ∷ [])

abbrev conditional : Text → Option ℕ → List Condition → Rule ℕ
conditional id order conditions = record {
  id = id;
  type = codes "conditional";
  order = order;
  conditions = some conditions;
  target = codes "value";
  value = some (text id);
  value_id = none;
  variation_id = none;
  percentages = none;
}

abbrev share : Text → ℕ → Percentage ℕ
share id percentage = record {
  id = id;
  percentage = percentage;
  value = some (text id);
  value_id = none;
  variation_id = none;
}

member_check :
    Segment.explain sample user (member_of (codes "s")) people
    ≡ returns (record { matched = true; segment_found = true; matched_group_index = some 1 })
unfolding Segment.explain lookup text_eq Segment.holds_attribute_conditions_only
    Segment.explain_found Segment.matching_group_from Segment.every_holds Segment.operator_holds
    lowercase_operator lower Condition.evaluate Condition.explain resolve compare compare_text
    text_test render includes
member_check = refl

explain-cases_example :
    (IsUnusable sample user (member_of (codes "s")) people
      × (record { matched = true; segment_found = true; matched_group_index = some 1 }
          ≡ Segment.not_found sample user))
    ⊎ IsMembership sample user
        (member_of (codes "s"))
        people
        (record { matched = true; segment_found = true; matched_group_index = some 1 })
explain-cases_example = explain-cases sample user (member_of (codes "s")) people _ member_check

abbrev split_in_two : List (Percentage ℕ)
split_in_two = share (codes "p") 3 ∷ share (codes "q") 20 ∷ []

abbrev second_share : ServedValue
second_share = record {
  value = codes "q";
  value_id = none;
  variation_id = none;
  rollout_share = some (record { rule_id = codes "r"; share_id = codes "q" });
}

rollout_served :
    (explain_rollout sample (codes "r") (codes "cfg") (some split_in_two) user).0
    ≡ served (codes "r") second_share
unfolding explain_rollout assign_percentage hash_input walk_shares serve_selected text_of_scalar
    effective_context_kind text_eq
rollout_served = refl

explain_rollout_serves_example :
    (identifier : Text) × (identifier_of sample user ≡ some identifier)
    × (codes "r" ≡ codes "r")
    × (by : IsServedBy sample
        (assign_percentage sample (codes "cfg") identifier (effective_context_kind user))
        split_in_two
        (codes "r")
        second_share)
    × ¬ ((n : ℕ) → n + by.percentage.percentage ≡ n)
explain_rollout_serves_example =
    explain_rollout_serves sample (λ n. ground arith) (codes "r") (codes "cfg") split_in_two user
      (codes "r") second_share rollout_served

abbrev broken_rule : Rule ℕ
broken_rule = conditional (codes "b") (some 1) (no_operator ∷ [])

broken_throws : try_rule sample user people broken_rule (codes "cfg") ≡ throws
unfolding try_rule explain_conditional_rule explain_conditions explain_condition text_eq
    Condition.explain resolve compare compare_text lowercase_operator
broken_throws = refl

abbrev last_rule : Rule ℕ
last_rule = conditional (codes "l") none (name_is (codes "Ada") ∷ [])

decided_without_errored_example :
    (decided sample user people (codes "cfg") (broken_rule ∷ last_rule ∷ [])
      ≡ decided sample user people (codes "cfg") (last_rule ∷ []))
    × ((explain_rule sample user people (codes "cfg") broken_rule).explanation
        ≡ record { rule_id = codes "b"; outcome = errored; conditions = []; bucket = none })
decided_without_errored_example =
    decided_without_errored sample user people (codes "cfg") [] broken_rule (last_rule ∷ [])
      broken_throws

abbrev EveryNumber : ℕ → Type 0
EveryNumber n = Unit

ranked : IsRank sample EveryNumber (λ n. n)
ranked = record { sign_of_difference = λ a b _ _. ground arith }

sort_rules_example :
    Perm (sort_rules sample (last_rule ∷ broken_rule ∷ [])) (last_rule ∷ broken_rule ∷ [])
    × IsSorted sample EveryNumber (λ n. n) ranked (sort_rules sample (last_rule ∷ broken_rule ∷ []))
    × (placed_at sample EveryNumber
          (λ n. n)
          ranked
          1
          (sort_rules sample (last_rule ∷ broken_rule ∷ []))
        ≡ placed_at sample EveryNumber (λ n. n) ranked 1 (last_rule ∷ broken_rule ∷ []))
sort_rules_example =
    sort_rules_lem sample EveryNumber (λ n. n) ranked (last_rule ∷ broken_rule ∷ []) 1
      (tt, (tt, tt))

sorted_by_order : sort_rules sample (last_rule ∷ broken_rule ∷ []) ≡ broken_rule ∷ last_rule ∷ []
unfolding sort_rules insert_rule
sorted_by_order = refl

abbrev last_served : ServedValue
last_served = record {
  value = codes "l";
  value_id = none;
  variation_id = none;
  rollout_share = none;
}

abbrev name_matched : ConditionExplanation ℕ
name_matched = attribute_condition (codes "c") true (some (str (codes "Ada"))) scalar_type

abbrev last_walked : WalkedRule ℕ
last_walked = record {
  explanation = record {
    rule_id = codes "l";
    outcome = matched;
    conditions = name_matched ∷ [];
    bucket = none;
  };
  serving = served (codes "l") last_served;
}

last_rule_serves :
    explain_conditional_rule sample user people last_rule (codes "cfg") ≡ returns last_walked
unfolding explain_conditional_rule explain_conditions explain_condition has_matched serve_target
    outcome_of text_eq lower includes Condition.explain resolve compare compare_text text_test
    lowercase_operator render text_of_scalar unwrap resolved_type_of
last_rule_serves = refl

explain_conditional_rule_serves_example :
    All (IsMatched sample user people) (name_is (codes "Ada") ∷ [])
explain_conditional_rule_serves_example =
    explain_conditional_rule_serves sample user people last_rule (codes "cfg") last_walked
      last_rule_serves (λ e. cc)

name_explained : explain_condition sample user people (name_is (codes "Ada")) ≡ returns name_matched
unfolding explain_condition text_eq lower includes Condition.explain resolve compare compare_text
    text_test lowercase_operator render unwrap resolved_type_of
name_explained = refl

name_has_matched : has_matched name_matched ≡ true
unfolding has_matched
name_has_matched = refl

abbrev config : Config ℕ
config = record {
  id = codes "cfg";
  key = codes "k";
  type = codes "string";
  variations = none;
  target = some (record {
    default_value = codes "d";
    default_value_id = none;
    default_variation_id = none;
    rules = some (last_rule ∷ broken_rule ∷ []);
  });
}

explain-IsFirstMatch_example :
    IsFirstMatch sample user people config (sort_rules sample (last_rule ∷ broken_rule ∷ []))
explain-IsFirstMatch_example = explain-IsFirstMatch sample user people config

config_value : (Walk.evaluate sample user people config).value ≡ some (codes "l")
unfolding Walk.evaluate Walk.explain walk_rules sort_rules insert_rule served_config_state
    find_variation explain_rule try_rule explain_conditional_rule explain_conditions
    explain_condition has_matched serve_target outcome_of text_eq lower includes Condition.explain
    resolve compare compare_text text_test lowercase_operator render text_of_scalar
config_value = refl

resolve_json_pointer-encode_path_example :
    resolve_json_pointer (codes "/a~1b/1") (some (obj traits_of_user))
    ≡ follow (codes "a/b" ∷ codes "1" ∷ []) (some (obj traits_of_user))
unfolding encode_path encode_token
resolve_json_pointer-encode_path_example =
    resolve_json_pointer-encode_path (codes "a/b" ∷ codes "1" ∷ []) (some (obj traits_of_user))

total : IsTotal sample (λ n. Unit)
total = record { le_not_lt = λ a b _ _. ground arith; finite = λ a h. tt }

parsed_value : parse_finite sample (some (num 3)) ≡ some 3
unfolding parse_finite finite_or_none
parsed_value = refl

parsed_target : parse_first sample (codes "7" ∷ []) ≡ some 7
unfolding parse_first parse_finite parse_finite_text finite_or_none is_decimal_characters
    parse_decimal
parsed_target = refl

compare_numeric-Opposite_example :
    (result : Bool) × (compare_numeric sample (some (num 3)) (some (codes "<")) (codes "7" ∷ [])
      ≡ returns result)
    × (compare_numeric sample (some (num 3)) (some (codes ">=")) (codes "7" ∷ [])
        ≡ returns (not result))
unfolding lower
compare_numeric-Opposite_example =
    compare_numeric-Opposite sample (λ n. Unit) total (some (num 3)) (codes "<") (codes ">=")
      (codes "7" ∷ []) 3 7 less parsed_value parsed_target
