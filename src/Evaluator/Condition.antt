-- ===== src/Evaluator/Condition.antt =====
-- packages/config-evaluator/src/ConditionEvaluator.ts and context-kind.ts
use js_sdks.Common.{
  Bool, false, Option, none, some, List, [], ◌∷◌, Text, codes, text_eq, or_else, if◌then◌else◌,
  Fallible, returns, ◌>>=◌,
}
use js_sdks.Evaluator.Value.{
  Value, null, str, obj, Fields, Externals, Resolved, absent, unknown_attribute, present,
  ResolvedType, render, unwrap, resolved_type_of,
}
use js_sdks.Evaluator.Compare.{
  compare_text, compare_numeric, compare_date, compare_semver, compare_array,
}
use js_sdks.Evaluator.Pointer.{resolve_json_pointer}

-- `ConfigDirectorContext`; a missing property and one that is null are `none`.
pub record Context (F : Type 0) : Type 0 where
  pub id : Option Text
  pub kind : Option Text
  pub name : Option Text
  pub traits : Option (Fields F)

pub record Metadata : Type 0 where
  pub app_name : Option Text
  pub app_version : Option Text

pub record EvaluationContext (F : Type 0) : Type 0 where
  pub context : Option (Context F)
  pub metadata : Option Metadata

-- A condition of either kind: the properties that its kind does not have are not read. An
-- operator that is not a string is `none`.
pub record Condition : Type 0 where
  pub id : Text
  pub kind : Option Text
  pub attribute : Text
  pub trait : Option Text
  pub operator : Option Text
  pub target_type : Text
  pub target_values : Option (List Text)
  pub segment_id : Text

pub record ConditionCheck (F : Type 0) : Type 0 where
  pub matched : Bool
  pub resolved_value : Option (Value F)
  pub resolved_type : ResolvedType

-- `a?.b`.
abbrev pub optional {ℓ κ} : {A : Type ℓ} {B : Type κ} → Option A → (A → Option B) → Option B
optional none f = none
optional (some a) f = f a

abbrev pub user_context_kind : Text
user_context_kind = codes "user"

module _ {F : Type 0} where
  abbrev pub inner_context : Option (EvaluationContext F) → Option (Context F)
  inner_context context = optional context (λ c. c.context)

  abbrev pub inner_metadata : Option (EvaluationContext F) → Option Metadata
  inner_metadata context = optional context (λ c. c.metadata)

  unfoldable pub effective_context_kind : Option (EvaluationContext F) → Text
  effective_context_kind context =
      or_else (optional (inner_context context) (λ c. c.kind)) user_context_kind

  unfoldable pub or_absent : Option (Value F) → Resolved F
  or_absent none = absent
  or_absent (some null) = absent
  or_absent (some v) = present v

  abbrev or_absent_text : Option Text → Resolved F
  or_absent_text none = absent
  or_absent_text (some s) = present (str s)

  abbrev traits_value : Option (EvaluationContext F) → Option (Value F)
  traits_value context =
      optional (inner_context context) (λ c. optional c.traits (λ fs. some (obj fs)))

  -- A trait that is undefined or empty is absent.
  unfoldable pub resolve_trait : Option Text → Option (EvaluationContext F) → Resolved F
  unfolding or_absent
  resolve_trait none context = absent
  resolve_trait (some []) context = absent
  resolve_trait (some (c ∷ pointer)) context =
      or_absent (resolve_json_pointer (c ∷ pointer) (traits_value context))

  unfoldable pub resolve : Condition → Option (EvaluationContext F) → Resolved F
  unfolding effective_context_kind resolve_trait
  resolve condition context =
      if text_eq condition.attribute (codes "identifier")
      then or_absent_text (optional (inner_context context) (λ c. c.id))
      else if text_eq condition.attribute (codes "name")
      then or_absent_text (optional (inner_context context) (λ c. c.name))
      else if text_eq condition.attribute (codes "kind")
      then present (str (effective_context_kind context))
      else if text_eq condition.attribute (codes "appName")
      then or_absent_text (optional (inner_metadata context) (λ m. m.app_name))
      else if text_eq condition.attribute (codes "appVersion")
      then or_absent_text (optional (inner_metadata context) (λ m. m.app_version))
      else if text_eq condition.attribute (codes "traits")
      then resolve_trait condition.trait context
      else unknown_attribute

module _ {F V : Type 0} (env : Externals F V) where
  unfoldable pub compare : Condition → Resolved F → Fallible Bool
  compare condition value =
      let targets = or_else condition.target_values [] in
      if text_eq condition.target_type (codes "text")
      then compare_text (render env value) condition.operator targets
      else if text_eq condition.target_type (codes "number")
      then compare_numeric env (unwrap value) condition.operator targets
      else if text_eq condition.target_type (codes "datetime")
      then returns (compare_date env (render env value) condition.operator targets)
      else if text_eq condition.target_type (codes "semver")
      then compare_semver env (render env value) condition.operator targets
      else if text_eq condition.target_type (codes "array")
      then compare_array env (unwrap value) condition.operator targets
      else returns false

  abbrev checked : Resolved F → Bool → ConditionCheck F
  checked value matched = record {
    matched = matched;
    resolved_value = unwrap value;
    resolved_type = resolved_type_of value;
  }

  abbrev explain_resolved : Condition → Resolved F → Fallible (ConditionCheck F)
  explain_resolved condition unknown_attribute = returns (checked unknown_attribute false)
  explain_resolved condition absent =
      compare condition absent >>= λ matched. returns (checked absent matched)
  explain_resolved condition (present v) =
      compare condition (present v) >>= λ matched. returns (checked (present v) matched)

  unfoldable pub explain : Condition → Option (EvaluationContext F) → Fallible (ConditionCheck F)
  explain condition context = explain_resolved condition (resolve condition context)

  unfoldable pub evaluate : Condition → Option (EvaluationContext F) → Fallible Bool
  unfolding explain
  evaluate condition context = explain condition context >>= λ check. returns check.matched
