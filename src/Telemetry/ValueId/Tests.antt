-- ===== src/Telemetry/ValueId/Tests.antt =====
-- The ids of evaluated values on concrete inputs.
use js_sdks.Common.{
  ℕ, ◌≡◌, refl, true, List, Text, codes, length, take, repeat, some, returns, throws, hex_digits,
  hex_text, to_hex, pad_start,
}
use js_sdks.Telemetry.ValueId.{
  to_base62, base62_loop, hex_of, hex_number, big_int, Primitive.boolean, generate_value_id,
}
use js_sdks.Telemetry.ValueId.Digits.{base62_value, big_endian, are_bytes}
use js_sdks.Telemetry.ValueId.Ids.{generate_value_id-base62_value}

-- A digest whose bytes are all 255.
abbrev digest : Text → List ℕ
digest s = repeat 32 255

largest_id : to_base62 (repeat 16 255) 22 ≡ returns (some (codes "7n42DGM5Tflk9n8mt7Fhc7"))
unfolding to_base62 base62_loop hex_of hex_number big_int repeat hex_digits hex_text to_hex
    pad_start
largest_id = refl

id_of_nothing : to_base62 (repeat 0 0) 22 ≡ throws
unfolding to_base62 hex_of big_int repeat
id_of_nothing = refl

generate_value_id-base62_value_example :
    (id : Text) × (generate_value_id (λ (n : ℕ). codes "7") digest (boolean true)
      ≡ returns (some id))
    × (base62_value 0 id ≡ big_endian 0 (take 16 (repeat 32 255)))
    × (length id ≡ 22)
unfolding repeat are_bytes
generate_value_id-base62_value_example =
    generate_value_id-base62_value (λ (n : ℕ). codes "7") digest (boolean true) refl refl
