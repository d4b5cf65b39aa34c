-- ===== src/Common/Digits.antt =====
-- Numbers written in a base, and texts padded at their start.
use Prim.Native.Nat.{ℕ, zero, suc, ◌+◌, ◌-◌, ◌*◌, ◌/◌, ◌%◌, ◌≤◌, ◌<◌}
use mathlib.Core.Path.{◌≡◌, refl}
use mathlib.Core.Bool.{true, false}
use mathlib.Core.List.{List, [], ◌∷◌, ◌++◌}
use native.Mathlib.Omega.{arith}
use js_sdks.Common.Tests.{◌==◌, if◌then◌else◌, ltb}
use js_sdks.Common.Lists.{length, length-append}
use js_sdks.Common.Utf16.{Text}

-- The digits of a number, the first one the most significant; none for zero.
unfoldable pub hex_digits : ℕ → ℕ → List ℕ
hex_digits zero n = []
hex_digits (suc fuel) n = elim (n == 0) [
  | true ↦ []
  | false ↦ hex_digits fuel (n / 16) ++ (n % 16) ∷ []
]

abbrev pub hex_digit : ℕ → ℕ
hex_digit d = if ltb d 10 then 48 + d else 87 + d

unfoldable pub hex_text : List ℕ → Text
hex_text [] = []
hex_text (d ∷ ds) = hex_digit d ∷ hex_text ds

abbrev pub zero_text : Text → Text
zero_text [] = b'0' ∷ []
zero_text (c ∷ s) = c ∷ s

-- `n.toString(16)`: a number has no more digits than it counts.
unfoldable pub to_hex : ℕ → Text
unfolding hex_digits hex_text
to_hex n = zero_text (hex_text (hex_digits n n))

unfoldable pub repeat : ℕ → ℕ → Text
repeat zero c = []
repeat (suc n) c = c ∷ repeat n c

-- `s.padStart(n, c)`.
unfoldable pub pad_start : ℕ → ℕ → Text → Text
unfolding repeat
pad_start n c s = repeat (n - length s) c ++ s

length-repeat : (n c : ℕ) → length (repeat n c) ≡ n
unfolding repeat
length-repeat zero c = refl
length-repeat (suc n) c = omega (arith, length-repeat n c)

pub length-pad_start : (n c : ℕ) (s : Text) → length s ≤ n → length (pad_start n c s) ≡ n
unfolding pad_start
length-pad_start n c s h =
    omega (arith, length-append (repeat (n - length s) c) s, length-repeat (n - length s) c)

abbrev pub power_of_16 : ℕ → ℕ
power_of_16 zero = 1
power_of_16 (suc n) = 16 * power_of_16 n

length-hex_digits : (fuel k n : ℕ) → n < power_of_16 k → length (hex_digits fuel n) ≤ k
unfolding hex_digits
length-hex_digits zero k n h = omega arith
length-hex_digits (suc fuel) zero n h = ground arith
length-hex_digits (suc fuel) (suc k) n h = ground (
  arith,
  length-hex_digits fuel k (n / 16),
  length-append (hex_digits fuel (n / 16)) ((n % 16) ∷ []),
)

length-hex_text : (ds : List ℕ) → length (hex_text ds) ≡ length ds
unfolding hex_text
length-hex_text [] = refl
length-hex_text (d ∷ ds) = omega (arith, length-hex_text ds)

length-zero_text : (s : Text) → length s ≤ 8 → length (zero_text s) ≤ 8
length-zero_text [] h = omega arith
length-zero_text (c ∷ s) h = h

-- A number below 2 ^ 32 has at most eight digits.
pub length-to_hex : (n : ℕ) → n < 4294967296 → length (to_hex n) ≤ 8
unfolding to_hex
length-to_hex n h =
    length-zero_text (hex_text (hex_digits n n))
      (omega (arith, length-hex_text (hex_digits n n), length-hex_digits n 8 n h))
