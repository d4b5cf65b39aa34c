-- ===== src/Evaluator/Compare/Negation.antt =====
-- The operators whose names differ by a negation.
use js_sdks.Common.{
  ◌≡◌, refl, ap, ◌∙◌, Bool, not, Option, none, some, List, Text, codes, text_eq, includes, lower,
  returns, Option-cases, inl, inr,
}
use js_sdks.Evaluator.Value.{Value, Externals}
use js_sdks.Evaluator.Compare.{
  lowercase_operator, compare_text, text_test, compare_array, array_or_none, array_test,
  scalar_elements,
}

-- An operator on texts of the form `any of`, and its negation.
pub data Negated : Text → Text → Type 0 where
  one_of : Negated (codes "is one of") (codes "is not one of")
  starts : Negated (codes "starts with any of") (codes "does not start with any of")
  ends : Negated (codes "ends with any of") (codes "does not end with any of")

text_test_of_negated :
    (a b value : Text) (targets : List Text)
    → Negated a b
    → text_test b value targets ≡ not (text_test a value targets)
unfolding text_test text_eq includes
text_test_of_negated _ _ value targets one_of = refl
text_test_of_negated _ _ value targets starts = refl
text_test_of_negated _ _ value targets ends = refl

-- An operator on texts of the form `any of` and its negation, in any case of their letters, give
-- opposite results on every value, the empty text of an absent attribute included, and for any
-- targets.
pub compare_text-Negated :
    (a b value : Text) (targets : List Text)
    → Negated (lower a) (lower b)
    → (result : Bool) × (compare_text value (some a) targets ≡ returns result)
      × (compare_text value (some b) targets ≡ returns (not result))
unfolding compare_text lowercase_operator
compare_text-Negated a b value targets h = (
  text_test (lower a) value targets,
  refl,
  ap returns (text_test_of_negated (lower a) (lower b) value targets h),
)

module _ {F V : Type 0} (env : Externals F V) where
  array_result : (operator : Text) (vs : Option (List (Value F))) (targets : List Text) → Bool
  array_result operator none targets = text_eq operator (codes "does not contain any of")
  array_result operator (some vs) targets = array_test env operator (scalar_elements env vs) targets

  array_result_of_negated :
      (vs : Option (List (Value F))) (targets : List Text)
      → array_result (codes "does not contain any of") vs targets
        ≡ not (array_result (codes "contains any of") vs targets)
  unfolding array_result array_test text_eq
  array_result_of_negated none targets = refl
  array_result_of_negated (some vs) targets = refl

  compare_array_lem :
      (given : Option (Value F)) (operator : Text) (targets : List Text)
      → compare_array env given (some operator) targets
        ≡ returns (array_result (lower operator) (array_or_none env given) targets)
  unfolding compare_array lowercase_operator array_result
  compare_array_lem given operator targets = elim (Option-cases (array_or_none env given)) [
    | inl missing ↦ rw missing refl
    | inr (vs, found) ↦ rw found refl
  ]

  -- `contains any of` and `does not contain any of`, in any case of their letters, give opposite
  -- results on every value, an array or not, and for any targets.
  pub compare_array_of_opposite :
      (a b : Text) (given : Option (Value F)) (targets : List Text)
      → lower a ≡ codes "contains any of"
      → lower b ≡ codes "does not contain any of"
      → (result : Bool) × (compare_array env given (some a) targets ≡ returns result)
        × (compare_array env given (some b) targets ≡ returns (not result))
  compare_array_of_opposite a b given targets h k = (
    array_result (codes "contains any of") (array_or_none env given) targets,
    compare_array_lem given a targets
        ∙ ap (λ o. returns (array_result o (array_or_none env given) targets)) h,
    compare_array_lem given b targets
        ∙ ap (λ o. returns (array_result o (array_or_none env given) targets)) k
        ∙ ap returns (array_result_of_negated (array_or_none env given) targets),
  )
