-- ===== src/Telemetry/ValueId.antt =====
-- The ids of evaluated values: packages/shared/src/base62-encoder.ts, packages/shared/src/value-id.ts
-- and packages/js-server-sdk/src/telemetry/value-id-generator.ts
pub mod Digits
pub mod Loop
pub mod Ids
pub mod Tests
use js_sdks.Common.{
  ℕ, zero, suc, ◌+◌, ◌-◌, ◌*◌, ◌/◌, ◌%◌, Bool, Option, none, some, List, [], ◌∷◌, ◌++◌, Text, codes,
  length, take, get_elem?, or_else, ltb, ◌==◌, if◌then◌else◌, to_hex, pad_start, Fallible, returns,
  throws, ◌>>=◌,
}
use js_sdks.Evaluator.Value.{text_of_bool}

abbrev pub alphabet : Text
alphabet = codes "0123456789ABCDEFGHIJKLMNOPQRSTUVWXYZabcdefghijklmnopqrstuvwxyz"

-- `BASE62[d]`, for an index of the alphabet.
abbrev pub digit_at : ℕ → ℕ
digit_at d = or_else (get_elem? alphabet d) 0

-- `b.toString(16).padStart(2, "0")`.
abbrev pub byte_hex : ℕ → Text
byte_hex b = pad_start 2 b'0' (to_hex b)

unfoldable pub hex_of : List ℕ → Text
hex_of [] = []
hex_of (b ∷ buf) = byte_hex b ++ hex_of buf

abbrev pub hex_code : ℕ → ℕ
hex_code c = if ltb c 58 then c - 48 else c - 87

unfoldable pub hex_number : ℕ → Text → ℕ
hex_number acc [] = acc
hex_number acc (c ∷ s) = hex_number (acc * 16 + hex_code c) s

-- `BigInt("0x" + hex)` of digits in lower case: without any it is a SyntaxError.
unfoldable pub big_int : Text → Fallible ℕ
unfolding hex_number
big_int [] = throws
big_int (c ∷ s) = returns (hex_number 0 (c ∷ s))

-- The loop, on fuel: `none` when the fuel runs out.
unfoldable pub base62_loop : ℕ → ℕ → Text → Option Text
base62_loop zero n result = if n == 0 then some result else none
base62_loop (suc fuel) n result =
    let rest = base62_loop fuel (n / 62) (digit_at (n % 62) ∷ result) in
    if n == 0 then some result else rest

abbrev pub padded : ℕ → Option Text → Option Text
padded width none = none
padded width (some result) = some (pad_start width b'0' result)

-- `toBase62`, with as many steps as there are hexadecimal digits.
unfoldable pub to_base62 : List ℕ → ℕ → Fallible (Option Text)
unfolding hex_of big_int base62_loop
to_base62 buf width =
    big_int (hex_of buf) >>= λ n. returns (padded width (base62_loop (length (hex_of buf)) n []))

abbrev pub digest_bytes : ℕ
digest_bytes = 16

-- `Math.ceil((DIGEST_BYTES * 8) / Math.log2(62))`.
abbrev pub base62_length : ℕ
base62_length = 22

-- The values that have an id.
pub data Primitive (F : Type 0) : Type 0 where
  text : Text → Primitive F
  number : F → Primitive F
  boolean : Bool → Primitive F
  missing : Primitive F

module _ {F : Type 0} (text_of : F → Text) (sha256 : Text → List ℕ) where
  -- `v?.toString() ?? ""`.
  abbrev pub written : Primitive F → Text
  written (text s) = s
  written (number n) = text_of n
  written (boolean b) = text_of_bool b
  written missing = []

  -- `generateValueId`.
  unfoldable pub generate_value_id : Primitive F → Fallible (Option Text)
  unfolding to_base62
  generate_value_id v = to_base62 (take digest_bytes (sha256 (written v))) base62_length
