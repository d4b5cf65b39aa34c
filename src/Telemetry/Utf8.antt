-- ===== src/Telemetry/Utf8.antt =====
-- The bytes of a text in UTF-8: packages/shared/src/utf8-byte-length.ts and
-- packages/react-native-sdk/src/utf8Encoder.ts
pub mod Length
use js_sdks.Common.{
  ℕ, ◌+◌, ◌-◌, ◌*◌, ◌/◌, ◌%◌, Bool, ◌&&◌, List, [], ◌∷◌, ◌++◌, Text, leb, if◌then◌else◌,
}

unfoldable pub is_high_surrogate : ℕ → Bool
is_high_surrogate unit = leb 0xd800 unit && leb unit 0xdbff

unfoldable pub is_low_surrogate : ℕ → Bool
is_low_surrogate unit = leb 0xdc00 unit && leb unit 0xdfff

-- The loop of `utf8ByteLength`.
unfoldable pub utf8_byte_length : Text → ℕ
utf8_byte_length [] = 0
utf8_byte_length (c ∷ []) = if leb c 0x7f then 1 else if leb c 0x7ff then 2 else 3
utf8_byte_length (c ∷ d ∷ s) =
    let after_one = utf8_byte_length (d ∷ s) in
    let after_pair = utf8_byte_length s in
    if leb c 0x7f
    then 1 + after_one
    else if leb c 0x7ff
    then 2 + after_one
    else if is_high_surrogate c && is_low_surrogate d
    then 4 + after_pair
    else 3 + after_one

-- The bytes of one code point. The operands of each `|` have no bit in common, so that it is a sum.
unfoldable pub bytes_of : ℕ → Text
bytes_of cp =
    if leb cp 0x7f
    then cp ∷ []
    else if leb cp 0x7ff
    then (0xc0 + cp / 64) ∷ (0x80 + cp % 64) ∷ []
    else if leb cp 0xffff
    then (0xe0 + cp / 4096) ∷ (0x80 + cp / 64 % 64) ∷ (0x80 + cp % 64) ∷ []
    else (0xf0 + cp / 262144)
      ∷ (0x80 + cp / 4096 % 64)
      ∷ (0x80 + cp / 64 % 64)
      ∷ (0x80 + cp % 64)
      ∷ []

-- The code point of a surrogate pair.
unfoldable pub recombine : ℕ → ℕ → ℕ
recombine high low = 0x10000 + (high - 0xd800) * 1024 + (low - 0xdc00)

-- The loop of `encodeManually`.
unfoldable pub encode_manually : Text → Text
encode_manually [] = []
encode_manually (c ∷ []) = bytes_of c
encode_manually (c ∷ d ∷ s) =
    let after_one = encode_manually (d ∷ s) in
    let after_pair = encode_manually s in
    if (leb 0xd800 c && leb c 0xdbff) && (leb 0xdc00 d && leb d 0xdfff)
    then bytes_of (recombine c d) ++ after_pair
    else bytes_of c ++ after_one
