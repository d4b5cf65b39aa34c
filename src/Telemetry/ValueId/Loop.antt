-- ===== src/Telemetry/ValueId/Loop.antt =====
-- The loop of `toBase62`: packages/shared/src/base62-encoder.ts
use js_sdks.Common.{
  ℕ, zero, suc, ◌+◌, ◌-◌, ◌/◌, ◌%◌, ◌≤◌, ◌<◌, ◌≡◌, refl, sym, ap, ◌∙◌, subst, true, false, some,
  List, [], ◌∷◌, ◌++◌, Text, length, ◌==◌, ==_iff, Bool-cases, inl, inr, repeat, pad_start, returns,
  ◌>>=◌, arith,
}
use js_sdks.Telemetry.ValueId.{
  digit_at, hex_of, hex_number, big_int, base62_loop, padded, to_base62,
}
use js_sdks.Telemetry.ValueId.Digits.{
  base62_value, big_endian, are_bytes, power, index_of_digit, hex_number-hex_of, length-hex_of,
}

base62_loop_of_zero : (fuel : ℕ) (result : Text) → base62_loop fuel 0 result ≡ some result
unfolding base62_loop
base62_loop_of_zero zero result = refl
base62_loop_of_zero (suc fuel) result = refl

base62_loop_of_positive :
    (fuel n : ℕ) (result : Text)
    → (n == 0) ≡ false
    → base62_loop (suc fuel) n result ≡ base62_loop fuel (n / 62) (digit_at (n % 62) ∷ result)
unfolding base62_loop
base62_loop_of_positive fuel n result h = rw h refl

Ends : ℕ → ℕ → ℕ → Text → Type 0
Ends k fuel n result =
    (r : Text) × (base62_loop fuel n result ≡ some r)
    × (base62_value 0 r ≡ base62_value n result)
    × (length r ≤ k + length result)

Ends-of_zero : (k fuel n : ℕ) (result : Text) → n ≡ 0 → Ends k fuel n result
unfolding Ends
Ends-of_zero k fuel n result h =
    subst (λ n. Ends k fuel n result) (sym h)
      (result, base62_loop_of_zero fuel result, refl, omega arith)

base62_value_step :
    (n : ℕ) (result : Text)
    → base62_value (n / 62) (digit_at (n % 62) ∷ result) ≡ base62_value n result
unfolding base62_value
base62_value_step n result =
    ap (λ x. base62_value x result) (omega (arith, index_of_digit (n % 62) (omega arith)))

-- The loop ends when there is fuel for the digits, and writes the number before the digits it starts with.
base62_loop-Ends : (k fuel n : ℕ) (result : Text) → n < power 62 k → k ≤ fuel → Ends k fuel n result
unfolding Ends
base62_loop-Ends zero fuel n result below enough = Ends-of_zero zero fuel n result (omega arith)
base62_loop-Ends (suc k) zero n result below enough =
    Ends-of_zero (suc k) zero n result (omega arith)
base62_loop-Ends (suc k) (suc fuel) n result below enough = elim (Bool-cases (n == 0)) [
  | inl none_left ↦ Ends-of_zero (suc k) (suc fuel) n result ((==_iff n 0).0 none_left)
  | inr more ↦
      (let ih =
          base62_loop-Ends k fuel (n / 62) (digit_at (n % 62) ∷ result) (omega arith)
            (omega arith) in
        (
          ih.0,
          base62_loop_of_positive fuel n result more ∙ ih.1,
          ih.2 ∙ base62_value_step n result,
          omega (arith, ih.3),
        ))
]

base62_value-repeat : (n : ℕ) (s : Text) → base62_value 0 (repeat n b'0' ++ s) ≡ base62_value 0 s
unfolding base62_value repeat
base62_value-repeat zero s = refl
base62_value-repeat (suc n) s = base62_value-repeat n s

base62_value-pad_start :
    (width : ℕ) (s : Text) → base62_value 0 (pad_start width b'0' s) ≡ base62_value 0 s
unfolding pad_start
base62_value-pad_start width s = base62_value-repeat (width - length s) s

big_int_of_some : (s : Text) → 0 < length s → big_int s ≡ returns (hex_number 0 s)
unfolding big_int
big_int_of_some [] h = ground arith
big_int_of_some (c ∷ s) h = refl

-- What `toBase62` returns of a number below a power of 62.
unfoldable pub Writes : ℕ → List ℕ → ℕ → Type 0
Writes k buf width =
    (r : Text) × (to_base62 buf width ≡ returns (some (pad_start width b'0' r)))
    × (base62_value 0 (pad_start width b'0' r) ≡ big_endian 0 buf)
    × (length r ≤ k)

pub to_base62-Writes :
    (k : ℕ) (buf : List ℕ) (width : ℕ)
    → 0 < length buf
    → are_bytes buf ≡ true
    → big_endian 0 buf < power 62 k
    → k ≤ length buf + length buf
    → Writes k buf width
unfolding to_base62 Writes Ends base62_value
to_base62-Writes k buf width filled bytes below enough =
    let hex = hex_of buf in
    let size = length-hex_of buf bytes in
    let same = hex_number-hex_of 0 buf bytes in
    let ends =
      base62_loop-Ends k (length hex) (hex_number 0 hex) []
        (subst (λ n. n < power 62 k) (sym same) below) (omega arith) in
    (
      ends.0,
      ap (λ m. m >>= λ n. returns (padded width (base62_loop (length hex) n [])))
            (big_int_of_some hex (omega arith))
          ∙ ap (λ o. returns (padded width o)) ends.1,
      base62_value-pad_start width ends.0 ∙ ends.2 ∙ same,
      omega (arith, ends.3),
    )
