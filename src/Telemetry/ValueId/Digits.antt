-- ===== src/Telemetry/ValueId/Digits.antt =====
-- The digits of an id, and the number that they write: packages/shared/src/base62-encoder.ts
use js_sdks.Common.{
  ℕ, zero, suc, ◌+◌, ◌*◌, ◌/◌, ◌%◌, ◌≤◌, ◌<◌, ◌≡◌, refl, sym, ap, ◌∙◌, subst, Bool, true, false,
  ◌&&◌, List, [], ◌∷◌, ◌++◌, Text, length, ltb, ◌==◌, ==_iff, Bool-cases, inl, inr, text_eq,
  text_eq_iff, if◌then◌else◌, to_hex, hex_digits, hex_text, hex_digit, repeat, pad_start, arith,
}
use native.Mathlib.Nat.{mul_assoc}
use js_sdks.Telemetry.ValueId.{alphabet, digit_at, byte_hex, hex_of, hex_code, hex_number}

abbrev pub index_of : ℕ → Text → ℕ
index_of c [] = 0
index_of c (x ∷ s) = let rest = index_of c s in if c == x then 0 else suc rest

-- The number that a text of digits writes in base 62.
unfoldable pub base62_value : ℕ → Text → ℕ
base62_value acc [] = acc
base62_value acc (c ∷ s) = base62_value (acc * 62 + index_of c alphabet) s

-- The number of the bytes, the first one the most significant.
unfoldable pub big_endian : ℕ → List ℕ → ℕ
big_endian acc [] = acc
big_endian acc (b ∷ buf) = big_endian (acc * 256 + b) buf

unfoldable pub are_bytes : List ℕ → Bool
are_bytes [] = true
are_bytes (b ∷ buf) = ltb b 256 && are_bytes buf

abbrev pub power : ℕ → ℕ → ℕ
power base zero = 1
power base (suc k) = base * power base k

-- A test of each number below a bound.
abbrev every_below : ℕ → (ℕ → Bool) → Bool
every_below zero f = true
every_below (suc k) f = f k && every_below k f

pub both_true : (a b : Bool) → (a && b) ≡ true → (a ≡ true) × (b ≡ true)
both_true true b h = (refl, h)
both_true false b h = cc

below_of_ltb : (n k : ℕ) → ltb n k ≡ true → n < k
below_of_ltb n k h = ground arith

of_every_below : (k : ℕ) (f : ℕ → Bool) (n : ℕ) → every_below k f ≡ true → n < k → f n ≡ true
of_every_below zero f n h below = ground arith
of_every_below (suc k) f n h below =
    let parts = both_true (f k) (every_below k f) h in
    elim (Bool-cases (n == k)) [
      | inl same ↦ subst (λ x. f x ≡ true) (sym ((==_iff n k).0 same)) parts.0
      | inr other ↦ of_every_below k f n parts.1 (ground arith)
    ]

every_digit : every_below 62 (λ d. index_of (digit_at d) alphabet == d) ≡ true
every_digit = refl

every_byte :
    every_below 256 (λ b. text_eq (byte_hex b) (hex_digit (b / 16) ∷ hex_digit (b % 16) ∷ []))
    ≡ true
unfolding text_eq pad_start to_hex hex_digits hex_text repeat
every_byte = refl

pub index_of_digit : (d : ℕ) → d < 62 → index_of (digit_at d) alphabet ≡ d
index_of_digit d h =
    (==_iff _ _).0 (of_every_below 62 (λ d. index_of (digit_at d) alphabet == d) d every_digit h)

byte_hex_lem : (b : ℕ) → b < 256 → byte_hex b ≡ hex_digit (b / 16) ∷ hex_digit (b % 16) ∷ []
byte_hex_lem b h = (text_eq_iff _ _).0 (
    of_every_below 256 (λ b. text_eq (byte_hex b) (hex_digit (b / 16) ∷ hex_digit (b % 16) ∷ [])) b
      every_byte h)

hex_code_of_digit : (d : ℕ) → d < 16 → hex_code (hex_digit d) ≡ d
hex_code_of_digit d h = ground arith

hex_number_of_byte :
    (acc x y : ℕ) (s : Text)
    → x < 16
    → y < 16
    → hex_number acc (hex_digit x ∷ hex_digit y ∷ s) ≡ hex_number (acc * 256 + (x * 16 + y)) s
unfolding hex_number
hex_number_of_byte acc x y s hx hy =
    ap (λ n. hex_number n s) (omega (arith, hex_code_of_digit x hx, hex_code_of_digit y hy))

pub hex_number-hex_of :
    (acc : ℕ) (buf : List ℕ)
    → are_bytes buf ≡ true
    → hex_number acc (hex_of buf) ≡ big_endian acc buf
unfolding hex_number hex_of big_endian are_bytes
hex_number-hex_of acc [] h = refl
hex_number-hex_of acc (b ∷ buf) h =
    let parts = both_true (ltb b 256) (are_bytes buf) h in
    let below = below_of_ltb b 256 parts.0 in
    ap (λ s. hex_number acc (s ++ hex_of buf)) (byte_hex_lem b below)
    ∙ hex_number_of_byte acc (b / 16) (b % 16) (hex_of buf) (omega arith) (omega arith)
    ∙ ap (λ n. hex_number (acc * 256 + n) (hex_of buf)) (omega arith)
    ∙ hex_number-hex_of (acc * 256 + b) buf parts.1

pub length-hex_of :
    (buf : List ℕ) → are_bytes buf ≡ true → length (hex_of buf) ≡ length buf + length buf
unfolding hex_of are_bytes
length-hex_of [] h = refl
length-hex_of (b ∷ buf) h =
    let parts = both_true (ltb b 256) (are_bytes buf) h in
    rw (byte_hex_lem b (below_of_ltb b 256 parts.0)) (omega (arith, length-hex_of buf parts.1))

pub big_endian_below :
    (acc bound : ℕ) (buf : List ℕ)
    → are_bytes buf ≡ true
    → acc < bound
    → big_endian acc buf < bound * power 256 (length buf)
unfolding big_endian are_bytes
big_endian_below acc bound [] h below = omega arith
big_endian_below acc bound (b ∷ buf) h below =
    let parts = both_true (ltb b 256) (are_bytes buf) h in
    let ih =
      big_endian_below (acc * 256 + b) (bound * 256) buf parts.1
        (omega (arith, below_of_ltb b 256 parts.0)) in
    subst (λ x. big_endian (acc * 256 + b) buf < x) (mul_assoc bound 256 (power 256 (length buf)))
      ih

-- Two digits of base 62 are enough for a byte.
pub power_of_bytes : (k m : ℕ) → m ≡ k + k → power 256 k ≤ power 62 m
power_of_bytes zero m h = rw h (omega arith)
power_of_bytes (suc k) zero h = omega arith
power_of_bytes (suc k) (suc zero) h = omega arith
power_of_bytes (suc k) (suc (suc m)) h = omega (arith, power_of_bytes k m (omega arith))
