-- ===== src/Evaluator/Pointer/Escapes.antt =====
-- Writing a path of member names as a JSON pointer, and following it.
use js_sdks.Common.{
  ℕ, ◌≡◌, refl, sym, ap, ◌∙◌, Bool, false, ◌||◌, Option, none, some, List, [], ◌∷◌, ◌++◌, Text,
  arith, inl, inr, if◌then◌else◌, ◌==◌, Option-cases, map, append-nil,
}
use js_sdks.Evaluator.Value.{Value}
use js_sdks.Evaluator.Pointer.{
  tilde, slash, has_invalid_escape, replace_escape, decode_reference_token, step_option,
  resolve_tokens, split_slash, resolve_json_pointer,
}

-- The encoding of RFC 6901: a tilde becomes ~0 and a slash ~1.
unfoldable pub encode_token : Text → Text
encode_token [] = []
encode_token (c ∷ s) =
    if c == tilde
    then tilde ∷ b'0' ∷ encode_token s
    else if c == slash
    then tilde ∷ b'1' ∷ encode_token s
    else c ∷ encode_token s

unfoldable pub encode_path : List Text → Text
encode_path [] = []
encode_path (t ∷ ts) = slash ∷ (encode_token t ++ encode_path ts)

-- The members of a value, one after the other.
pub follow : {F : Type 0} → List Text → Option (Value F) → Option (Value F)
follow [] current = current
follow (t ∷ ts) current = follow ts (step_option current t)

-- A token whose slashes are decoded and whose tildes are not.
half_encoded : Text → Text
half_encoded [] = []
half_encoded (c ∷ s) = if c == tilde then tilde ∷ b'0' ∷ half_encoded s else c ∷ half_encoded s

replace_escape_plain :
    (digit r c : ℕ) (s : Text)
    → (c == tilde) ≡ false
    → replace_escape digit r (c ∷ s) ≡ c ∷ replace_escape digit r s
unfolding replace_escape
replace_escape_plain digit r c [] h = refl
replace_escape_plain digit r c (d ∷ s) h = rw h

has_invalid_escape_plain :
    (c : ℕ) (s : Text) → (c == tilde) ≡ false → has_invalid_escape (c ∷ s) ≡ has_invalid_escape s
unfolding has_invalid_escape
has_invalid_escape_plain c [] h = h
has_invalid_escape_plain c (d ∷ s) h = rw h

invalid_zero : (s : Text) → has_invalid_escape (tilde ∷ b'0' ∷ s) ≡ has_invalid_escape s
unfolding has_invalid_escape
invalid_zero s = has_invalid_escape_plain b'0' s refl

invalid_one : (s : Text) → has_invalid_escape (tilde ∷ b'1' ∷ s) ≡ has_invalid_escape s
unfolding has_invalid_escape
invalid_one s = has_invalid_escape_plain b'1' s refl

one_of_zero :
    (s : Text)
    → replace_escape b'1' slash (tilde ∷ b'0' ∷ s) ≡ tilde ∷ b'0' ∷ replace_escape b'1' slash s
unfolding replace_escape
one_of_zero s = ap (λ t. tilde ∷ t) (replace_escape_plain b'1' slash b'0' s refl)

one_of_one :
    (s : Text) → replace_escape b'1' slash (tilde ∷ b'1' ∷ s) ≡ slash ∷ replace_escape b'1' slash s
unfolding replace_escape
one_of_one s = refl

zero_of_zero :
    (s : Text) → replace_escape b'0' tilde (tilde ∷ b'0' ∷ s) ≡ tilde ∷ replace_escape b'0' tilde s
unfolding replace_escape
zero_of_zero s = refl

no_invalid_escape : (t : Text) → has_invalid_escape (encode_token t) ≡ false
unfolding encode_token
no_invalid_escape [] = unfold has_invalid_escape in refl
no_invalid_escape (c ∷ s) = ground (
  arith,
  invalid_zero (encode_token s),
  invalid_one (encode_token s),
  has_invalid_escape_plain c (encode_token s),
  no_invalid_escape s,
)

decode_slashes : (t : Text) → replace_escape b'1' slash (encode_token t) ≡ half_encoded t
unfolding encode_token half_encoded
decode_slashes [] = unfold replace_escape in refl
decode_slashes (c ∷ s) = ground (
  arith,
  one_of_zero (encode_token s),
  one_of_one (encode_token s),
  replace_escape_plain b'1' slash c (encode_token s),
  decode_slashes s,
)

decode_tildes : (t : Text) → replace_escape b'0' tilde (half_encoded t) ≡ t
unfolding half_encoded
decode_tildes [] = unfold replace_escape in refl
decode_tildes (c ∷ s) = ground (
  arith,
  zero_of_zero (half_encoded s),
  replace_escape_plain b'0' tilde c (half_encoded s),
  decode_tildes s,
)

pub decode_reference_token-encode_token :
    (t : Text) → decode_reference_token (encode_token t) ≡ some t
unfolding decode_reference_token
decode_reference_token-encode_token t = rw (no_invalid_escape t, decode_slashes t, decode_tildes t)

-- No slash is left in an encoded token, so it is one part of the pointer.
has_slash : Text → Bool
has_slash [] = false
has_slash (c ∷ s) = (c == slash) || has_slash s

has_slash-encode_token : (t : Text) → has_slash (encode_token t) ≡ false
unfolding has_slash encode_token
has_slash-encode_token [] = refl
has_slash-encode_token (c ∷ s) = ground (arith, has_slash-encode_token s)

split_slash-token : (s : Text) → has_slash s ≡ false → split_slash s ≡ s ∷ []
unfolding has_slash split_slash
split_slash-token [] h = refl
split_slash-token (c ∷ s) h = ground (arith, split_slash-token s)

split_slash-append :
    (s rest : Text) → has_slash s ≡ false → split_slash (s ++ slash ∷ rest) ≡ s ∷ split_slash rest
unfolding has_slash split_slash
split_slash-append [] rest h = refl
split_slash-append (c ∷ s) rest h = ground (arith, split_slash-append s rest)

split_slash-encode_path :
    (t : Text) (ts : List Text)
    → split_slash (encode_token t ++ encode_path ts) ≡ map encode_token (t ∷ ts)
unfolding encode_path
split_slash-encode_path t [] =
    rw append-nil (split_slash-token (encode_token t) (has_slash-encode_token t))
split_slash-encode_path t (u ∷ us) =
    split_slash-append (encode_token t) (encode_token u ++ encode_path us)
      (has_slash-encode_token t)
    ∙ ap (λ l. encode_token t ∷ l) (split_slash-encode_path u us)

module _ {F : Type 0} where
  follow-none : (ts : List Text) → follow {F = F} ts none ≡ none
  unfolding follow
  follow-none [] = refl
  follow-none (t ∷ ts) = follow-none ts

  tokens_missing :
      (t : Text) (encoded : List Text) (current : Option (Value F))
      → step_option current t ≡ none
      → resolve_tokens (encode_token t ∷ encoded) current ≡ none
  unfolding resolve_tokens
  tokens_missing t encoded current h =
      rw (decode_reference_token-encode_token t, resolve_tokens) (rw (h, step_option))

  tokens_step :
      (t : Text) (encoded : List Text) (current : Option (Value F)) (next : Value F)
      → step_option current t ≡ some next
      → resolve_tokens (encode_token t ∷ encoded) current ≡ resolve_tokens encoded (some next)
  unfolding resolve_tokens
  tokens_step t encoded current next h =
      rw (decode_reference_token-encode_token t, resolve_tokens) (rw (h, step_option))

  resolve_tokens-encoded :
      (ts : List Text) (current : Option (Value F))
      → resolve_tokens (map encode_token ts) current ≡ follow ts current
  unfolding follow
  resolve_tokens-encoded [] current = unfold resolve_tokens in refl
  resolve_tokens-encoded (t ∷ ts) current = elim (Option-cases (step_option current t)) [
    | inl missing ↦
        tokens_missing t (map encode_token ts) current missing
        ∙ sym (ap (follow ts) missing ∙ follow-none ts)
    | inr (next, found) ↦
        tokens_step t (map encode_token ts) current next found
        ∙ resolve_tokens-encoded ts (some next)
        ∙ sym (ap (follow ts) found)
  ]

  -- The pointer to a path of member names, written with the escapes of RFC 6901, resolves to what
  -- following the path from the document gives: the members one after the other, or nothing where
  -- one of them is missing.
  pub resolve_json_pointer-encode_path :
      (ts : List Text) (document : Option (Value F))
      → resolve_json_pointer (encode_path ts) document ≡ follow ts document
  unfolding encode_path resolve_json_pointer
  resolve_json_pointer-encode_path [] document = unfold follow in refl
  resolve_json_pointer-encode_path (t ∷ ts) document =
      ap (λ l. resolve_tokens l document) (split_slash-encode_path t ts)
      ∙ resolve_tokens-encoded (t ∷ ts) document
