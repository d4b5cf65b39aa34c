-- ===== src/Telemetry/ValueId/Ids.antt =====
-- The ids of evaluated values have 22 digits: packages/shared/src/value-id.ts
use js_sdks.Common.{
  ℕ, zero, suc, ◌+◌, ◌*◌, ◌≤◌, ◌<◌, ◌≡◌, refl, subst, true, some, List, [], ◌∷◌, Text, length, take,
  ltb, pad_start, length-pad_start, returns, arith,
}
use js_sdks.Telemetry.ValueId.{Primitive, written, generate_value_id}
use js_sdks.Telemetry.ValueId.Digits.{
  base62_value, big_endian, are_bytes, power, both_true, big_endian_below, power_of_bytes,
}
use js_sdks.Telemetry.ValueId.Loop.{Writes, to_base62-Writes}

length-take : (n : ℕ) (bs : List ℕ) → n ≤ length bs → length (take n bs) ≡ n
length-take zero bs h = refl
length-take (suc n) [] h = omega arith
length-take (suc n) (b ∷ bs) h = omega (arith, length-take n bs (omega arith))

are_bytes-take : (n : ℕ) (bs : List ℕ) → are_bytes bs ≡ true → are_bytes (take n bs) ≡ true
unfolding are_bytes
are_bytes-take zero bs h = refl
are_bytes-take (suc n) [] h = refl
are_bytes-take (suc n) (b ∷ bs) h =
    let parts = both_true (ltb b 256) (are_bytes bs) h in
    rw (parts.0, are_bytes-take n bs parts.1) refl

-- `toBase62` returns a text for each buffer that is not empty, whatever the width.
pub to_base62_of_bytes :
    (buf : List ℕ) (width : ℕ)
    → 0 < length buf
    → are_bytes buf ≡ true
    → Writes (length buf + length buf) buf width
to_base62_of_bytes buf width filled bytes =
    to_base62-Writes (length buf + length buf) buf width filled bytes
      (omega (
        arith,
        big_endian_below 0 1 buf bytes (omega arith),
        power_of_bytes (length buf) (length buf + length buf) refl,
      ))
      (omega arith)

module _ {F : Type 0} (text_of : F → Text) (sha256 : Text → List ℕ) where
  -- Each value has an id, when a digest has 32 bytes: the loop ends, and the id has 22 characters, which
  -- write the first 16 bytes of the digest in base 62.
  pub generate_value_id-base62_value :
      (v : Primitive F)
      → length (sha256 (written text_of sha256 v)) ≡ 32
      → are_bytes (sha256 (written text_of sha256 v)) ≡ true
      → (id : Text) × (generate_value_id text_of sha256 v ≡ returns (some id))
        × (base62_value 0 id ≡ big_endian 0 (take 16 (sha256 (written text_of sha256 v))))
        × (length id ≡ 22)
  unfolding generate_value_id Writes
  generate_value_id-base62_value v size bytes =
      let buf = take 16 (sha256 (written text_of sha256 v)) in
      let sixteen = length-take 16 (sha256 (written text_of sha256 v)) (omega arith) in
      let taken = are_bytes-take 16 (sha256 (written text_of sha256 v)) bytes in
      let below =
        subst (λ n. big_endian 0 buf < 1 * power 256 n) sixteen
          (big_endian_below 0 1 buf taken (omega arith)) in
      let result = to_base62-Writes 22 buf 22 (omega arith) taken (omega arith) (omega arith) in
      (pad_start 22 b'0' result.0, result.1, result.2, length-pad_start 22 b'0' result.0 result.3)
