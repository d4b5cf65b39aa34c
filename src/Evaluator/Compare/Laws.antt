-- ===== src/Evaluator/Compare/Laws.antt =====
-- What the operators say of values that cannot be compared, and how they relate.
use js_sdks.Common.{
  ◌≡◌, refl, ap, ◌∙◌, Bool, true, false, not, Option, none, some, List, [], ◌∷◌, Text, codes,
  text_eq, text_eq_iff, includes, lower, is_blank, arith, inl, inr, ◌⊎◌, Bool-cases, returns, any,
}
use js_sdks.Evaluator.Value.{Value, num, str, Externals}
use js_sdks.Evaluator.Compare.{
  lowercase_operator, compare_numeric, parse_finite, parse_first, numeric_test, finite_or_none,
  parse_finite_text, both_hold, semver_test, first_version, compare_semver,
}

-- The operators of a comparison of numbers and their opposites.
pub data Opposite : Text → Text → Type 0 where
  equality : Opposite (codes "=") (codes "!=")
  equality_in_words : Opposite (codes "equals") (codes "does not equal")
  less : Opposite (codes "<") (codes ">=")
  greater : Opposite (codes ">") (codes "<=")

module _ {F V : Type 0} (env : Externals F V) where
  -- The numbers that `P` names are ordered: each of two is less than the other or not above it.
  pub record IsTotal (P : F → Type 0) : Type 0 where
    pub le_not_lt : (a b : F) → P a → P b → env.num_le a b ≡ not (env.num_lt b a)
    pub finite : (a : F) → env.is_finite a ≡ true → P a

  numeric_returns :
      (given : Option (Value F)) (operator : Text) (targets : List Text) (value target : F)
      → parse_finite env given ≡ some value
      → parse_first env targets ≡ some target
      → compare_numeric env given (some operator) targets
        ≡ returns (numeric_test env (lower operator) value target)
  unfolding compare_numeric lowercase_operator
  numeric_returns given operator targets value target h k = rw (h, k)

  numeric_test-Opposite :
      (P : F → Type 0) (laws : IsTotal P) (a b : Text) (value target : F)
      → Opposite a b
      → P value
      → P target
      → numeric_test env b value target ≡ not (numeric_test env a value target)
  unfolding numeric_test text_eq includes
  numeric_test-Opposite P laws _ _ value target equality pv pt = refl
  numeric_test-Opposite P laws _ _ value target equality_in_words pv pt = refl
  numeric_test-Opposite P laws _ _ value target less pv pt = laws.le_not_lt target value pt pv
  numeric_test-Opposite P laws _ _ value target greater pv pt = laws.le_not_lt value target pv pt

  finite_or_none-some : (n m : F) → finite_or_none env n ≡ some m → env.is_finite m ≡ true
  unfolding finite_or_none
  finite_or_none-some n m h = ground arith

  parse_finite_text-some :
      (s : Text) (m : F) → parse_finite_text env s ≡ some m → env.is_finite m ≡ true
  unfolding parse_finite_text
  parse_finite_text-some [] m h = cc
  parse_finite_text-some (c ∷ s) m h = ground (arith, finite_or_none-some (env.number_of (c ∷ s)) m)

  parse_finite-some :
      (given : Option (Value F)) (m : F) → parse_finite env given ≡ some m → env.is_finite m ≡ true
  unfolding parse_finite
  parse_finite-some (some (num n)) m h = finite_or_none-some n m h
  parse_finite-some (some (str s)) m h = parse_finite_text-some s m h
  parse_finite-some _ m h = cc

  parse_first-some :
      (targets : List Text) (m : F) → parse_first env targets ≡ some m → env.is_finite m ≡ true
  unfolding parse_first
  parse_first-some [] m h = cc
  parse_first-some (t ∷ ts) m h = parse_finite-some (some (str t)) m h

  -- When the value and the first target are finite numbers, an operator of numbers and its opposite
  -- give opposite results, in any case of their letters; if finite numbers are ordered.
  pub compare_numeric-Opposite :
      (P : F → Type 0) (laws : IsTotal P) (given : Option (Value F)) (a b : Text)
      (targets : List Text) (value target : F)
      → Opposite (lower a) (lower b)
      → parse_finite env given ≡ some value
      → parse_first env targets ≡ some target
      → (result : Bool) × (compare_numeric env given (some a) targets ≡ returns result)
        × (compare_numeric env given (some b) targets ≡ returns (not result))
  compare_numeric-Opposite P laws given a b targets value target opposite h k = (
    numeric_test env (lower a) value target,
    numeric_returns given a targets value target h k,
    numeric_returns given b targets value target h k
        ∙ ap returns (
            numeric_test-Opposite P laws (lower a) (lower b) value target opposite
              (laws.finite value (parse_finite-some given value h))
              (laws.finite target (parse_first-some targets target k))),
  )

  not_both : (test : V → V → Bool) (target : Option V) → both_hold env test none target ≡ false
  unfolding both_hold
  not_both test target = refl

  none_equal :
      (targets : List Text)
      → any (λ t. both_hold env env.version_eq none (env.coerce_version t)) targets ≡ false
  none_equal [] = refl
  none_equal (t ∷ ts) = rw (not_both env.version_eq (env.coerce_version t)) (none_equal ts)

  semver_test-none :
      (operator : Text) (targets : List Text)
      → semver_test env operator none targets ≡ text_eq operator (codes "is not one of")
  unfolding semver_test
  semver_test-none operator targets = ground (
    arith,
    text_eq_iff operator (codes "="),
    text_eq_iff operator (codes "<"),
    text_eq_iff operator (codes "<="),
    text_eq_iff operator (codes ">"),
    text_eq_iff operator (codes ">="),
    text_eq_iff operator (codes "is one of"),
    text_eq_iff operator (codes "is not one of"),
    not_both env.version_eq (first_version env targets),
    not_both env.version_lt (first_version env targets),
    not_both env.version_lte (first_version env targets),
    not_both env.version_gt (first_version env targets),
    not_both env.version_gte (first_version env targets),
    none_equal targets,
  )

  -- A value that is blank or that is no version matches nothing, so that `is not one of` is the
  -- only operator that is true of it, whatever the targets.
  pub compare_semver_of_no_version :
      (value operator : Text) (targets : List Text)
      → (is_blank value ≡ true) ⊎ (env.coerce_version value ≡ none)
      → compare_semver env value (some operator) targets
        ≡ returns (text_eq (lower operator) (codes "is not one of"))
  unfolding compare_semver lowercase_operator
  compare_semver_of_no_version value operator targets (inl blank) = rw blank
  compare_semver_of_no_version value operator targets (inr invalid) =
      elim (Bool-cases (is_blank value)) [
        | inl blank ↦ rw blank
        | inr text ↦ rw (text, invalid) (ap returns (semver_test-none (lower operator) targets))
      ]
