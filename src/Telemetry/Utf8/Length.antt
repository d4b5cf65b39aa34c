-- ===== src/Telemetry/Utf8/Length.antt =====
-- The number of the bytes, and their range.
use js_sdks.Common.{
  ℕ, ◌+◌, ◌<◌, ◌≡◌, refl, ap₂, ◌∙◌, Bool, true, false, ◌&&◌, [], ◌∷◌, ◌++◌, Text, length,
  length-append, leb, if◌then◌else◌, arith, All, Bool-cases, inl, inr,
}
use js_sdks.Telemetry.Utf8.{
  is_high_surrogate, is_low_surrogate, utf8_byte_length, bytes_of, recombine, encode_manually,
}

length-bytes_of :
    (cp : ℕ)
    → length (bytes_of cp)
      ≡ (if leb cp 0x7f then 1 else if leb cp 0x7ff then 2 else if leb cp 0xffff then 3 else 4)
unfolding bytes_of
length-bytes_of cp = ground arith

length_of_one :
    (c : ℕ)
    → c < 0x10000
    → length (bytes_of c) ≡ (if leb c 0x7f then 1 else if leb c 0x7ff then 2 else 3)
length_of_one c h = ground (arith, length-bytes_of c)

length_of_pair :
    (c d : ℕ) → leb 0xd800 c && leb c 0xdbff ≡ true → length (bytes_of (recombine c d)) ≡ 4
unfolding recombine
length_of_pair c d h = ground (arith, length-bytes_of (recombine c d))

abbrev is_pair : ℕ → ℕ → Bool
is_pair c d = (leb 0xd800 c && leb c 0xdbff) && (leb 0xdc00 d && leb d 0xdfff)

encode_manually-pair :
    (c d : ℕ) (s : Text)
    → is_pair c d ≡ true
    → encode_manually (c ∷ d ∷ s) ≡ bytes_of (recombine c d) ++ encode_manually s
unfolding encode_manually
encode_manually-pair c d s h = rw h refl

encode_manually-single :
    (c d : ℕ) (s : Text)
    → is_pair c d ≡ false
    → encode_manually (c ∷ d ∷ s) ≡ bytes_of c ++ encode_manually (d ∷ s)
unfolding encode_manually
encode_manually-single c d s h = rw h refl

above_one : (c d : ℕ) → is_pair c d ≡ true → leb c 0x7f ≡ false
above_one c d h = ground arith

above_two : (c d : ℕ) → is_pair c d ≡ true → leb c 0x7ff ≡ false
above_two c d h = ground arith

utf8_byte_length-pair :
    (c d : ℕ) (s : Text)
    → is_pair c d ≡ true
    → utf8_byte_length (c ∷ d ∷ s) ≡ 4 + utf8_byte_length s
unfolding utf8_byte_length is_high_surrogate is_low_surrogate
utf8_byte_length-pair c d s h = rw (above_one c d h, above_two c d h, h) refl

utf8_byte_length-single :
    (c d : ℕ) (s : Text)
    → is_pair c d ≡ false
    → utf8_byte_length (c ∷ d ∷ s)
      ≡ (if leb c 0x7f then 1 else if leb c 0x7ff then 2 else 3) + utf8_byte_length (d ∷ s)
unfolding utf8_byte_length is_high_surrogate is_low_surrogate
utf8_byte_length-single c d s h = ground arith

is_pair-high : (c d : ℕ) → is_pair c d ≡ true → leb 0xd800 c && leb c 0xdbff ≡ true
is_pair-high c d h = ground arith

-- The length that is computed of a text of 16-bit units is that of the bytes it is encoded to.
pub length-encode_manually :
    (s : Text) → All (λ c. c < 0x10000) s → length (encode_manually s) ≡ utf8_byte_length s
length-encode_manually [] h = unfold encode_manually utf8_byte_length in refl
length-encode_manually (c ∷ []) (h, _) =
    unfold encode_manually utf8_byte_length in length_of_one c h
length-encode_manually (c ∷ d ∷ s) (h, (k, hs)) = elim (Bool-cases (is_pair c d)) [
  | inl pair ↦
      rw (encode_manually-pair c d s pair, utf8_byte_length-pair c d s pair)
        (length-append (bytes_of (recombine c d)) (encode_manually s)
          ∙ ap₂ (λ m n. m + n) (length_of_pair c d (is_pair-high c d pair))
              (length-encode_manually s hs))
  | inr single ↦
      rw (encode_manually-single c d s single, utf8_byte_length-single c d s single)
        (length-append (bytes_of c) (encode_manually (d ∷ s))
          ∙ ap₂ (λ m n. m + n) (length_of_one c h) (length-encode_manually (d ∷ s) (k, hs)))
]
