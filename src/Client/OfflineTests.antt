-- ===== src/Client/OfflineTests.antt =====
-- Values of the offline mode on concrete inputs, with numbers that are decimals.
use js_sdks.Common.{
  ℕ, suc, ◌+◌, ◌-◌, ◌*◌, ◌≡◌, refl, sym, ap, ap₂, ◌∙◌, Bool, true, false, some, [], ◌∷◌, ◌++◌,
  append-nil, inl, inr, Text, codes, length, is_digit, ◌==◌, starts_with, drop, parse_decimal,
  repeat, is_decimal_characters, is_blank, is_space, if◌then◌else◌, arith,
}
use js_sdks.Evaluator.Value.{null, num}
use js_sdks.ConfigValue.{json, type_of, json_shape_of}
use js_sdks.Client.Offline.{
  Writing, split_exponent, until_point, to_plain_decimal, encode_native_value, encode,
  encode_number,
}
use js_sdks.Client.Offline.Plain.{
  Scientific, IsScientific, are_digits, sign, after_point, scientific_text,
}
use js_sdks.Client.Offline.ReadBack.{
  IsWritten, IsPositional, IsRead, parse_config_value-encode_native_value,
}

-- A decimal number: digits, and how many of them are behind the point.
record Decimal : Type 0 where
  negative : Bool
  digits : ℕ
  shift : ℕ

-- The digits and the places of a decimal from a text, after `acc` and `shift`.
unfoldable scan : ℕ → ℕ → Bool → Text → ℕ × ℕ
scan acc shift pointed [] = (acc, shift)
scan acc shift pointed (c ∷ s) =
    let behind = scan acc shift true s in
    let rest = scan (acc * 10 + (c - b'0')) (if pointed then suc shift else shift) pointed s in
    if c == b'.'
    then behind
    else if c == b'e'
    then (acc, shift + parse_decimal 0 (drop 1 s))
    else rest

abbrev unsigned_decimal : Bool → ℕ × ℕ → Decimal
unsigned_decimal negative (digits, shift) = record {
  negative = negative;
  digits = digits;
  shift = shift;
}

unfoldable read_decimal : Text → Decimal
unfolding scan starts_with
read_decimal s =
    if starts_with (codes "-") s
    then unsigned_decimal true (scan 0 0 false (drop 1 s))
    else unsigned_decimal false (scan 0 0 false s)

-- One digit.
scan_digit :
    (acc shift : ℕ) (pointed : Bool) (c : ℕ) (s : Text)
    → is_digit c ≡ true
    → scan acc shift pointed (c ∷ s)
      ≡ scan (acc * 10 + (c - b'0')) (if pointed then suc shift else shift) pointed s
unfolding scan
scan_digit acc shift pointed c s h =
    let no_point : (c == b'.') ≡ false = ground arith in
    let no_e : (c == b'e') ≡ false = ground arith in rw (no_point, no_e) refl

scan-append :
    (acc shift : ℕ) (s t : Text)
    → are_digits s ≡ true
    → scan acc shift true (s ++ t) ≡ scan (parse_decimal acc s) (shift + length s) true t
unfolding are_digits parse_decimal
scan-append acc shift [] t h = ap (λ n. scan acc n true t) (omega arith)
scan-append acc shift (c ∷ s) t h =
    let first : is_digit c ≡ true = ground arith in
    let others : are_digits s ≡ true = ground arith in
    scan_digit acc shift true c (s ++ t) first
    ∙ scan-append (acc * 10 + (c - b'0')) (suc shift) s t others
    ∙ ap (λ n. scan (parse_decimal (acc * 10 + (c - b'0')) s) n true t) (omega arith)

scan_of_fraction :
    (acc : ℕ) (fraction exponent : Text)
    → are_digits fraction ≡ true
    → scan acc 0 false (after_point fraction ++ b'e' ∷ b'-' ∷ exponent)
      ≡ (parse_decimal acc fraction, length fraction + parse_decimal 0 exponent)
unfolding scan parse_decimal
scan_of_fraction acc [] exponent h = refl
scan_of_fraction acc (c ∷ s) exponent h =
    scan-append acc 0 (c ∷ s) (b'e' ∷ b'-' ∷ exponent) h
    ∙ ap (λ n. (parse_decimal acc (c ∷ s), n)) (omega arith)

scan_of_plain :
    (fraction : Text)
    → are_digits fraction ≡ true
    → scan 0 0 false (codes "0." ++ fraction) ≡ (parse_decimal 0 fraction, length fraction)
unfolding scan
scan_of_plain fraction h =
    ap (scan 0 0 true) (sym (append-nil fraction))
    ∙ scan-append 0 0 fraction [] h
    ∙ ap (λ n. (parse_decimal 0 fraction, n)) (omega arith)

read_decimal_of_sign :
    (negative : Bool) (c : ℕ) (s : Text)
    → is_digit c ≡ true
    → read_decimal (sign negative ++ c ∷ s) ≡ unsigned_decimal negative (scan 0 0 false (c ∷ s))
unfolding read_decimal
read_decimal_of_sign true c s h = refl
read_decimal_of_sign false c s h = let other : (b'-' == c) ≡ false = ground arith in rw other refl

read_decimal_of_plain :
    (negative : Bool) (fraction : Text)
    → are_digits fraction ≡ true
    → read_decimal (sign negative ++ codes "0." ++ fraction)
      ≡ unsigned_decimal negative (parse_decimal 0 fraction, length fraction)
read_decimal_of_plain true fraction h =
    read_decimal_of_sign true b'0' (b'.' ∷ fraction) refl
    ∙ ap (unsigned_decimal true) (scan_of_plain fraction h)
read_decimal_of_plain false fraction h =
    read_decimal_of_sign false b'0' (b'.' ∷ fraction) refl
    ∙ ap (unsigned_decimal false) (scan_of_plain fraction h)

read_decimal_of_scientific :
    (r : Scientific)
    → IsScientific r
    → read_decimal (scientific_text r)
      ≡ unsigned_decimal r.negative
          (parse_decimal 0 (r.lead ∷ r.fraction), length r.fraction + parse_decimal 0 r.exponent)
unfolding parse_decimal
read_decimal_of_scientific r h =
    let behind = after_point r.fraction ++ b'e' ∷ b'-' ∷ r.exponent in
    read_decimal_of_sign r.negative r.lead behind h.lead_digit
    ∙ ap (unsigned_decimal r.negative) (
        scan_digit 0 0 false r.lead behind h.lead_digit
        ∙ scan_of_fraction (0 * 10 + (r.lead - b'0')) r.fraction r.exponent h.fraction_digits)

-- A writer of the number 0.00000015.
abbrev small_writing : Writing Decimal
small_writing = record {
  parsing = record {
    number_of = read_decimal;
    is_finite = λ n. true;
    trunc = λ n. n;
    parse_json = λ s. some null;
  };
  is_integer = λ n. n.shift == 0;
  is_safe_integer = λ n. true;
  text_of = λ n. codes "1.5e-7";
  stringify = λ v. codes "{}";
}

abbrev small : Decimal
small = record { negative = false; digits = 15; shift = 8 }

abbrev small_parts : Scientific
small_parts = record { negative = false; lead = b'1'; fraction = codes "5"; exponent = codes "7" }

read_decimal-IsPositional : IsPositional small_writing
read_decimal-IsPositional r fraction h same =
    read_decimal_of_plain r.negative fraction same.all_digits
    ∙ ap₂ (λ a b. unsigned_decimal r.negative (a, b)) same.same_digits same.shifted
    ∙ sym (read_decimal_of_scientific r h)

small-IsScientific : IsScientific small_parts
unfolding are_digits parse_decimal
small-IsScientific = record {
  lead_digit = refl;
  fraction_digits = refl;
  exponent_digits = refl;
  small = omega arith;
}

small-IsWritten : IsWritten small_writing small
unfolding read_decimal parse_decimal is_decimal_characters
small-IsWritten = record {
  read_back = refl;
  decimal = refl;
  form = inr (small_parts, small-IsScientific, refl);
  whole = inl refl;
}

parse_config_value-encode_native_value_example :
    IsRead small_writing
      (json (num small))
      (num small)
      (record { type = codes "float"; value = codes "0.00000015" })
unfolding encode_native_value encode encode_number is_blank is_space type_of json_shape_of
    to_plain_decimal split_exponent until_point parse_decimal starts_with repeat
parse_config_value-encode_native_value_example =
    parse_config_value-encode_native_value small_writing (codes "k") (num small) (json (num small))
      (codes "float") b'0' (codes ".00000015") refl refl refl read_decimal-IsPositional
      small-IsWritten
