-- ===== src/ContextKind/Admission.antt =====
-- Which kinds are admitted, and the sample of one that is not.
use js_sdks.Common.{
  ℕ, suc, zero, ◌+◌, ◌≤◌, ◌≡◌, refl, ap, true, false, ◌&&◌, [], ◌∷◌, ◌++◌, Text, length, all, All,
  if_true, if_false, arith, Bool-cases, inl, inr, ◌⊎◌,
}
use js_sdks.Telemetry.Utf8.{is_high_surrogate, is_low_surrogate}
use js_sdks.ContextKind.{
  Kind, not_given, text, other, ContextAdmission, admitted, ignored, is_context_kind_character,
  is_valid_context_kind, is_accepted_kind, string_form_of, first_characters_of, admit_context,
  sample_maximum_characters,
}

-- The text is a part of the other one from its start.
abbrev pub IsPrefix : Text → Text → Type 0
IsPrefix s t = (rest : Text) × (t ≡ s ++ rest)

cons-IsPrefix : (c : ℕ) (s t : Text) → IsPrefix s t → IsPrefix (c ∷ s) (c ∷ t)
cons-IsPrefix c s t (rest, e) = (rest, ap (λ l. c ∷ l) e)

first_characters_of-IsPrefix : (n : ℕ) (s : Text) → IsPrefix (first_characters_of n s) s
unfolding first_characters_of
first_characters_of-IsPrefix zero s = (s, refl)
first_characters_of-IsPrefix (suc n) [] = ([], refl)
first_characters_of-IsPrefix (suc n) (c ∷ []) = ([], refl)
first_characters_of-IsPrefix (suc n) (c ∷ d ∷ s) =
    elim (Bool-cases (is_high_surrogate c && is_low_surrogate d)) [
      | inl pair ↦ rw pair (
          cons-IsPrefix c (d ∷ first_characters_of n s) (d ∷ s)
            (cons-IsPrefix d (first_characters_of n s) s (first_characters_of-IsPrefix n s)))
      | inr single ↦ rw single (
          cons-IsPrefix c (first_characters_of n (d ∷ s)) (d ∷ s)
            (first_characters_of-IsPrefix n (d ∷ s)))
    ]

length-first_characters_of : (n : ℕ) (s : Text) → length (first_characters_of n s) ≤ n + n
unfolding first_characters_of
length-first_characters_of zero s = omega arith
length-first_characters_of (suc n) [] = omega arith
length-first_characters_of (suc n) (c ∷ []) = omega arith
length-first_characters_of (suc n) (c ∷ d ∷ s) =
    elim (Bool-cases (is_high_surrogate c && is_low_surrogate d)) [
      | inl pair ↦ rw pair (omega (arith, length-first_characters_of n s))
      | inr single ↦ rw single (omega (arith, length-first_characters_of n (d ∷ s)))
    ]

-- A character of a kind: a small letter from a to z, a digit, a dash or an underscore.
abbrev pub IsKindCharacter : ℕ → Type 0
IsKindCharacter c =
    ((b'a' ≤ c) × (c ≤ b'z')) ⊎ (((b'0' ≤ c) × (c ≤ b'9')) ⊎ ((c ≡ b'-') ⊎ (c ≡ b'_')))

character-IsKindCharacter : (c : ℕ) → is_context_kind_character c ≡ true → IsKindCharacter c
unfolding is_context_kind_character
character-IsKindCharacter c h = ground arith

of_kind_character : (c : ℕ) → IsKindCharacter c → is_context_kind_character c ≡ true
unfolding is_context_kind_character
of_kind_character c h = ground arith

all-IsKindCharacter : (s : Text) → all is_context_kind_character s ≡ true → All IsKindCharacter s
all-IsKindCharacter [] h = tt
all-IsKindCharacter (c ∷ s) h =
    (character-IsKindCharacter c (ground arith), all-IsKindCharacter s (ground arith))

-- A kind that is none, or a text of 1 to 64 characters of a kind.
abbrev pub IsKind : Kind → Type 0
IsKind not_given = Unit
IsKind (text kind) = (1 ≤ length kind) × (length kind ≤ 64) × All IsKindCharacter kind
IsKind (other form) = ⊥

abbrev pub IsAdmission : Kind → ContextAdmission → Type 0
IsAdmission kind admitted = IsKind kind
IsAdmission kind (ignored sample) =
    IsPrefix sample (string_form_of kind) × (length sample ≤ 256) × ¬ IsKind kind

accepted-IsKind : (kind : Kind) → is_accepted_kind kind ≡ true → IsKind kind
unfolding is_accepted_kind is_valid_context_kind
accepted-IsKind not_given h = tt
accepted-IsKind (text kind) h =
    (ground arith, ground arith, all-IsKindCharacter kind (ground arith))
accepted-IsKind (other form) h = ground arith

of_all_characters : (s : Text) → All IsKindCharacter s → all is_context_kind_character s ≡ true
of_all_characters [] h = refl
of_all_characters (c ∷ s) (h, hs) = rw (of_kind_character c h) (of_all_characters s hs)

accepted_of_kind : (kind : Kind) → IsKind kind → is_accepted_kind kind ≡ true
unfolding is_accepted_kind is_valid_context_kind
accepted_of_kind not_given h = refl
accepted_of_kind (text kind) (h, k, hs) = ground (arith, of_all_characters kind hs)
accepted_of_kind (other form) h = absurd h

not_kind : (kind : Kind) → is_accepted_kind kind ≡ false → ¬ IsKind kind
not_kind kind h k = cc (h, accepted_of_kind kind k)

-- A context is admitted if and only if it has no kind or one of 1 to 64 small letters, digits, dashes and
-- underscores. The sample of one that is ignored is a part of its string form, from the start, of
-- at most 256 units.
pub admit_context-IsAdmission : (kind : Kind) → IsAdmission kind (admit_context kind)
unfolding admit_context
admit_context-IsAdmission kind = elim (Bool-cases (is_accepted_kind kind)) [
  | inl accepted ↦
      rw
        (if_true (is_accepted_kind kind) admitted
          (ignored (first_characters_of sample_maximum_characters (string_form_of kind))) accepted)
        (accepted-IsKind kind accepted)
  | inr refused ↦
      rw
        (if_false (is_accepted_kind kind) admitted
          (ignored (first_characters_of sample_maximum_characters (string_form_of kind))) refused)
        (
          first_characters_of-IsPrefix sample_maximum_characters (string_form_of kind),
          length-first_characters_of sample_maximum_characters (string_form_of kind),
          not_kind kind refused,
        )
]
