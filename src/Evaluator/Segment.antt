-- ===== src/Evaluator/Segment.antt =====
-- packages/config-evaluator/src/SegmentEvaluator.ts
pub mod Membership
use js_sdks.Common.{
  ℕ, zero, suc, Bool, true, false, not, Option, none, some, List, [], ◌∷◌, Text, codes, text_eq,
  all, or_else, is_some, if◌then◌else◌, Fallible, returns, throws, ◌>>=◌,
}
use js_sdks.Evaluator.Value.{Externals}
use js_sdks.Evaluator.Condition.{Condition, EvaluationContext, evaluate}
use js_sdks.Evaluator.Compare.{lowercase_operator}

-- A group that is null holds no condition.
abbrev pub ConditionGroup : Type 0
ConditionGroup = Option (List Condition)

pub record Segment : Type 0 where
  pub groups : Option (List ConditionGroup)

-- The payload's segments map, by its own keys.
abbrev pub Segments : Type 0
Segments = List (Text × Segment)

pub record SegmentCheck : Type 0 where
  pub matched : Bool
  pub segment_found : Bool
  pub matched_group_index : Option ℕ

unfoldable pub lookup : Text → Segments → Option Segment
lookup key [] = none
lookup key ((k, segment) ∷ segments) = if text_eq k key then some segment else lookup key segments

abbrev is_attribute_kind : Option Text → Bool
is_attribute_kind none = true
is_attribute_kind (some kind) = text_eq kind (codes "attribute")

abbrev pub groups_of : Segment → List ConditionGroup
groups_of segment = or_else segment.groups []

abbrev pub conditions_of : ConditionGroup → List Condition
conditions_of group = or_else group []

unfoldable pub holds_attribute_conditions_only : Segment → Bool
holds_attribute_conditions_only segment =
    all (λ group. all (λ condition. is_attribute_kind condition.kind) (conditions_of group))
      (groups_of segment)

unfoldable pub operator_holds : Condition → Bool → Fallible Bool
operator_holds condition member = do
  name ← lowercase_operator condition.operator
  returns (
      if text_eq name (codes "in")
      then member
      else if text_eq name (codes "not in")
      then not member
      else false)

module _ {F V : Type 0} (env : Externals F V) (context : Option (EvaluationContext F)) where
  -- `every`: the first condition that does not hold ends it.
  unfoldable pub every_holds : List Condition → Fallible Bool
  every_holds [] = returns true
  every_holds (condition ∷ conditions) =
      let rest = every_holds conditions in
      evaluate env condition context >>= λ holds. if holds then rest else returns false

  -- `findIndex`, where the first group has the index `n`.
  unfoldable pub matching_group_from : ℕ → List ConditionGroup → Fallible (Option ℕ)
  matching_group_from n [] = returns none
  matching_group_from n (group ∷ groups) =
      let rest = matching_group_from (suc n) groups in
      every_holds (conditions_of group) >>= λ holds. if holds then returns (some n) else rest

  unfoldable pub explain_found : Condition → Segment → Fallible SegmentCheck
  explain_found condition segment = do
    index ← matching_group_from 0 (groups_of segment)
    matched ← operator_holds condition (is_some index)
    returns (record { matched = matched; segment_found = true; matched_group_index = index })

  abbrev pub not_found : SegmentCheck
  not_found = record { matched = false; segment_found = false; matched_group_index = none }

  unfoldable pub explain : Condition → Option Segments → Fallible SegmentCheck
  explain condition segments = elim (lookup condition.segment_id (or_else segments [])) [
    | none ↦ returns not_found
    | some segment ↦
        if holds_attribute_conditions_only segment
        then explain_found condition segment
        else returns not_found
  ]
