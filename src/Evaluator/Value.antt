-- ===== src/Evaluator/Value.antt =====
-- The values that targeting rules compare, and what the evaluator takes from elsewhere:
-- packages/config-evaluator/src/types.ts, packages/shared/src/types.ts,
-- packages/config-evaluator/src/render.ts
use js_sdks.Common.{ℕ, Bool, true, false, Option, none, some, List, [], ◌∷◌, Text, codes}

-- What `JSON.parse` builds. `F` is the type of JavaScript numbers.
mutual
  pub data Value (F : Type 0) : Type 0 where
    null : Value F
    bool : Bool → Value F
    num : F → Value F
    str : Text → Value F
    arr : Items F → Value F
    obj : Fields F → Value F

  pub data Items (F : Type 0) : Type 0 where
    nil : Items F
    cons : Value F → Items F → Items F

  pub data Fields (F : Type 0) : Type 0 where
    end : Fields F
    field : Text → Value F → Fields F → Fields F

abbrev pub items : {F : Type 0} → Items F → List (Value F)
items nil = []
items (cons v vs) = v ∷ items vs

-- The double-precision numbers of JavaScript with the operations that the evaluator uses, and the
-- calls of the packages rapidhash-js, luxon and semver. `V` is the type `SemVer`.
pub record Externals (F V : Type 0) : Type 0 where
  pub number_of : Text → F
  pub text_of : F → Text
  pub is_finite : F → Bool
  pub num_eq : F → F → Bool
  pub num_lt : F → F → Bool
  pub num_le : F → F → Bool
  pub add : F → F → F
  pub sub : F → F → F
  pub zero_num : F
  pub max_safe_integer : F
  pub tenths : ℕ → F
  pub rapidhash : Text → ℕ → ℕ
  pub iso_millis : Text → Option F
  pub coerce_version : Text → Option V
  pub version_eq : V → V → Bool
  pub version_lt : V → V → Bool
  pub version_lte : V → V → Bool
  pub version_gt : V → V → Bool
  pub version_gte : V → V → Bool

-- A resolved context value, or one of the two sentinels.
pub data Resolved (F : Type 0) : Type 0 where
  absent : Resolved F
  unknown_attribute : Resolved F
  present : Value F → Resolved F

pub data ResolvedType : Type 0 where
  absent_type scalar_type array_type object_type unknown_type : ResolvedType

unfoldable pub is_scalar : {F : Type 0} → Value F → Bool
is_scalar (str s) = true
is_scalar (num n) = true
is_scalar (bool b) = true
is_scalar null = false
is_scalar (arr vs) = false
is_scalar (obj fs) = false

abbrev pub text_of_bool : Bool → Text
text_of_bool true = codes "true"
text_of_bool false = codes "false"

module _ {F V : Type 0} (env : Externals F V) where
  -- `renderScalar`; the value is a scalar.
  unfoldable pub render_scalar : Value F → Text
  render_scalar (str s) = s
  render_scalar (num n) = env.text_of n
  render_scalar (bool b) = text_of_bool b
  render_scalar null = []
  render_scalar (arr vs) = []
  render_scalar (obj fs) = []

  -- `render`; `String(ABSENT)` is never reached.
  unfoldable pub render : Resolved F → Text
  unfolding render_scalar
  render absent = []
  render unknown_attribute = []
  render (present null) = []
  render (present (arr vs)) = []
  render (present (obj fs)) = []
  render (present v) = render_scalar v

unfoldable pub unwrap : {F : Type 0} → Resolved F → Option (Value F)
unwrap absent = none
unwrap unknown_attribute = none
unwrap (present v) = some v

unfoldable pub resolved_type_of : {F : Type 0} → Resolved F → ResolvedType
resolved_type_of unknown_attribute = unknown_type
resolved_type_of absent = absent_type
resolved_type_of (present (arr vs)) = array_type
resolved_type_of (present (obj fs)) = object_type
resolved_type_of (present null) = object_type
resolved_type_of (present v) = scalar_type
