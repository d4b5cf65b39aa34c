-- ===== src/Common/Words.antt =====
-- The words of 32 bits that the operators of JavaScript on bits work with.
use Prim.Native.Nat.{ℕ, suc, ◌-◌, ◌*◌, ◌%◌, bit_xor}
use mathlib.Core.Path.{◌≡◌}
use mathlib.Core.List.{◌∷◌}
use native.Mathlib.Omega.{arith}
use js_sdks.Common.Tests.{if◌then◌else◌, ltb}
use js_sdks.Common.Utf16.{Text}
use js_sdks.Common.Digits.{to_hex}

-- A whole number of JavaScript.
pub data ℤ : Type 0 where
  pos : ℕ → ℤ
  negsuc : ℕ → ℤ

-- `ToUint32`.
abbrev pub to_uint32 : ℤ → ℕ
to_uint32 (pos n) = n % 4294967296
to_uint32 (negsuc n) = 4294967295 - n % 4294967296

-- The signed word of 32 bits of a number.
abbrev pub to_int32 : ℕ → ℤ
to_int32 n =
    let word = n % 4294967296 in
    if ltb word 2147483648 then pos word else negsuc (4294967295 - word)

-- `a ^ b`.
abbrev pub xor : ℤ → ℤ → ℤ
xor a b = to_int32 (bit_xor (to_uint32 a) (to_uint32 b))

-- `Math.imul(a, b)`.
abbrev pub imul : ℤ → ℤ → ℤ
imul a b = to_int32 (to_uint32 a * to_uint32 b)

-- `a >>> 0`.
abbrev pub unsigned : ℤ → ℤ
unsigned a = pos (to_uint32 a)

-- `a.toString(16)`.
abbrev pub hex_of_int : ℤ → Text
hex_of_int (pos n) = to_hex n
hex_of_int (negsuc n) = b'-' ∷ to_hex (suc n)

pub to_uint32-to_int32 : (n : ℕ) → to_uint32 (to_int32 n) ≡ n % 4294967296
to_uint32-to_int32 n = ground arith
