-- ===== src/Server/SegmentUse.antt =====
-- An evaluation reads only the segments that the conditions of its config are on.
use js_sdks.Common.{
  ◌≡◌, refl, ap, ◌∙◌, Bool, false, ◌||◌, Option, List, [], ◌∷◌, any, Text, codes, text_eq, includes,
  or_else, arith, Bool-cases, inl, inr,
}
use js_sdks.Evaluator.Value.{Externals}
use js_sdks.Evaluator.Condition.{Condition, EvaluationContext}
use js_sdks.Evaluator.Segment.{Segments, not_found, holds_attribute_conditions_only, explain_found}
use js_sdks.Evaluator.Segment
use js_sdks.Evaluator.Rule.{
  is_segment_kind, explain_condition, explain_conditions, explain_conditional_rule, try_rule,
  explain_rule, serve_target,
}
use js_sdks.Evaluator.Types.{Rule, Config}
use js_sdks.Evaluator.Walk.{
  rules_of, insert_rule, sort_rules, walk_rules, conclude, rule_explanations, last_serving, explain,
}
use js_sdks.Server.{is_on_segment, rule_uses, uses_any_segment}

any-insert_rule :
    {F V : Type 0} (env : Externals F V) (p : Rule F → Bool) (r : Rule F) (rs : List (Rule F))
    → any p (insert_rule env r rs) ≡ (p r || any p rs)
unfolding insert_rule
any-insert_rule env p r [] = refl
any-insert_rule env p r (q ∷ qs) = ground (arith, any-insert_rule env p r qs)

any-sort_rules :
    {F V : Type 0} (env : Externals F V) (p : Rule F → Bool) (rs : List (Rule F))
    → any p (sort_rules env rs) ≡ any p rs
unfolding sort_rules
any-sort_rules env p [] = refl
any-sort_rules env p (r ∷ rs) =
    any-insert_rule env p r (sort_rules env rs) ∙ ap (λ b. p r || b) (any-sort_rules env p rs)

or_false : (a b : Bool) → (a || b) ≡ false → (a ≡ false) × (b ≡ false)
or_false a b h = ground arith

-- The two maps hold the same segments, but for those of some ids.
abbrev pub SameSegments : List Text → Option Segments → Option Segments → Type 0
SameSegments ids s t =
    (id : Text)
    → includes ids id ≡ false
    → Segment.lookup id (or_else s []) ≡ Segment.lookup id (or_else t [])

module _ {F V : Type 0} (env : Externals F V) (context : Option (EvaluationContext F))
    (ids : List Text) (s t : Option Segments) (same : SameSegments ids s t) where
  explain_segment-same :
      (condition : Condition)
      → includes ids condition.segment_id ≡ false
      → Segment.explain env context condition s ≡ Segment.explain env context condition t
  unfolding Segment.explain
  explain_segment-same condition apart = rw (Segment.explain, same condition.segment_id apart) refl

  explain_condition-same :
      (condition : Condition)
      → is_on_segment ids condition ≡ false
      → explain_condition env context s condition ≡ explain_condition env context t condition
  unfolding explain_condition
  explain_condition-same condition h = elim (Bool-cases (is_segment_kind condition.kind)) [
    | inl on_segment ↦
        (let apart : includes ids condition.segment_id ≡ false = ground arith in
          rw (on_segment, explain_segment-same condition apart) refl)
    | inr other ↦ rw other refl
  ]

  explain_conditions-same :
      (conditions : List Condition)
      → any (is_on_segment ids) conditions ≡ false
      → explain_conditions env context s conditions ≡ explain_conditions env context t conditions
  unfolding explain_conditions
  explain_conditions-same [] h = refl
  explain_conditions-same (condition ∷ conditions) h =
      let (first, others) =
        or_false (is_on_segment ids condition) (any (is_on_segment ids) conditions) h in
      rw (explain_condition-same condition first, explain_conditions-same conditions others) refl

  explain_conditional_rule-same :
      (r : Rule F) (config_id : Text)
      → any (is_on_segment ids) (or_else r.conditions []) ≡ false
      → explain_conditional_rule env context s r config_id
        ≡ explain_conditional_rule env context t r config_id
  unfolding explain_conditional_rule serve_target
  explain_conditional_rule-same r config_id h =
      rw (explain_conditions-same (or_else r.conditions []) h) refl

  try_rule-same :
      (r : Rule F) (config_id : Text)
      → rule_uses ids r ≡ false
      → try_rule env context s r config_id ≡ try_rule env context t r config_id
  unfolding try_rule
  try_rule-same r config_id h = elim (Bool-cases (text_eq r.type (codes "conditional"))) [
    | inl conditional ↦
        (let unused : any (is_on_segment ids) (or_else r.conditions []) ≡ false = ground arith in
          rw (explain_conditional_rule-same r config_id unused) refl)
    | inr other ↦ rw other refl
  ]

  explain_rule-same :
      (config_id : Text) (r : Rule F)
      → rule_uses ids r ≡ false
      → explain_rule env context s config_id r ≡ explain_rule env context t config_id r
  unfolding explain_rule
  explain_rule-same config_id r h = rw (explain_rule, try_rule-same r config_id h) refl

  walk_rules-same :
      (config_id : Text) (rs : List (Rule F))
      → any (rule_uses ids) rs ≡ false
      → walk_rules env context s config_id rs ≡ walk_rules env context t config_id rs
  unfolding walk_rules
  walk_rules-same config_id [] h = refl
  walk_rules-same config_id (r ∷ rs) h =
      let (first, others) = or_false (rule_uses ids r) (any (rule_uses ids) rs) h in
      rw (explain_rule-same config_id r first, walk_rules-same config_id rs others) refl

  pub explain-same :
      (config : Config F)
      → uses_any_segment ids config ≡ false
      → explain env context s config ≡ explain env context t config
  unfolding explain uses_any_segment
  explain-same config h =
      let rules = sort_rules env (rules_of config) in
      ap (λ walks. conclude config (rule_explanations rules walks) (last_serving walks))
        (walk_rules-same config.id rules (any-sort_rules env (rule_uses ids) (rules_of config) ∙ h))
