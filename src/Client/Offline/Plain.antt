-- ===== src/Client/Offline/Plain.antt =====
-- A number without its exponent: `toPlainDecimal` of packages/shared/src/native-values.ts
use js_sdks.Common.{
  ℕ, zero, suc, ◌+◌, ◌-◌, ◌≤◌, ◌≡◌, refl, sym, ap, ap₂, ◌∙◌, Bool, true, false, not, ◌&&◌, none,
  some, [], ◌∷◌, ◌++◌, append_assoc, Text, codes, length, is_digit, ◌==◌, starts_with, repeat,
  parse_decimal, is_decimal_characters, arith,
}
use js_sdks.Client.Offline.{
  split_exponent, until_point, plain_decimal, unsigned, sign_of, without_exponent, to_plain_decimal,
}

unfoldable pub are_digits : Text → Bool
are_digits [] = true
are_digits (c ∷ s) = is_digit c && are_digits s

-- No unit is the letter e.
unfoldable pub lacks_e : Text → Bool
lacks_e [] = true
lacks_e (c ∷ s) = not (c == b'e') && lacks_e s

-- The number -d.ddd × 10 ^ -N by its digits, with or without the sign.
pub record Scientific : Type 0 where
  pub negative : Bool
  pub lead : ℕ
  pub fraction : Text
  pub exponent : Text

abbrev pub sign : Bool → Text
sign true = codes "-"
sign false = []

abbrev pub after_point : Text → Text
after_point [] = []
after_point (c ∷ s) = b'.' ∷ c ∷ s

-- The text that JavaScript writes of it: the point is left out if there are no digits behind it.
abbrev pub scientific_text : Scientific → Text
scientific_text r = sign r.negative ++ (r.lead ∷ after_point r.fraction ++ b'e' ∷ b'-' ∷ r.exponent)

-- Its parts are digits, and the exponent is not zero.
pub record IsScientific (r : Scientific) : Type 0 where
  pub lead_digit : is_digit r.lead ≡ true
  pub fraction_digits : are_digits r.fraction ≡ true
  pub exponent_digits : are_digits r.exponent ≡ true
  pub small : 1 ≤ parse_decimal 0 r.exponent

-- The digits behind the point of the plain text.
abbrev pub places : Scientific → Text
places r = repeat (parse_decimal 0 r.exponent - 1) b'0' ++ r.lead ∷ r.fraction

lacks_e-cons :
    (c : ℕ) (s : Text) → lacks_e (c ∷ s) ≡ true → ((b'e' == c) ≡ false) × (lacks_e s ≡ true)
unfolding lacks_e
lacks_e-cons c s h = ground arith

split_exponent-append :
    (s t : Text) → lacks_e s ≡ true → split_exponent (s ++ b'e' ∷ b'-' ∷ t) ≡ some (s, t)
unfolding split_exponent starts_with
split_exponent-append [] t h = refl
split_exponent-append (c ∷ s) t h =
    let parts = lacks_e-cons c s h in rw (parts.0, split_exponent-append s t parts.1) refl

split_exponent_of_lacking : (s : Text) → lacks_e s ≡ true → split_exponent s ≡ none
unfolding split_exponent starts_with
split_exponent_of_lacking [] h = refl
split_exponent_of_lacking (c ∷ s) h =
    let parts = lacks_e-cons c s h in rw (parts.0, split_exponent_of_lacking s parts.1) refl

until_point-after_point :
    (c : ℕ) (s : Text) → is_digit c ≡ true → until_point (c ∷ after_point s) ≡ (c ∷ [], s)
unfolding until_point
until_point-after_point c [] h = let other : (c == b'.') ≡ false = ground arith in rw other refl
until_point-after_point c (d ∷ s) h =
    let other : (c == b'.') ≡ false = ground arith in rw other refl

are_digits-lacks_e : (s : Text) → are_digits s ≡ true → lacks_e s ≡ true
unfolding are_digits lacks_e
are_digits-lacks_e [] h = refl
are_digits-lacks_e (c ∷ s) h = ground (arith, are_digits-lacks_e s)

after_point-lacks_e : (s : Text) → are_digits s ≡ true → lacks_e (after_point s) ≡ true
unfolding are_digits lacks_e
after_point-lacks_e [] h = refl
after_point-lacks_e (c ∷ s) h = are_digits-lacks_e (c ∷ s) h

mantissa-lacks_e :
    (negative : Bool) (c : ℕ) (s : Text)
    → is_digit c ≡ true
    → are_digits s ≡ true
    → lacks_e (sign negative ++ c ∷ after_point s) ≡ true
unfolding lacks_e
mantissa-lacks_e true c s h hs = ground (arith, after_point-lacks_e s hs)
mantissa-lacks_e false c s h hs = ground (arith, after_point-lacks_e s hs)

plain_decimal_of_digit :
    (start : Text) (c : ℕ) (s exponent : Text)
    → plain_decimal start (c ∷ [], s) exponent
      ≡ start ++ codes "0." ++ (repeat (parse_decimal 0 exponent - 1) b'0' ++ c ∷ s)
plain_decimal_of_digit start c s exponent =
    let zeros = repeat (parse_decimal 0 exponent - 1) b'0' in
    append_assoc (start ++ codes "0." ++ zeros) (c ∷ []) s
    ∙ append_assoc (start ++ codes "0.") zeros (c ∷ s)

-- The sign of the text of a number, and what stands behind it.
parts_of_mantissa :
    (negative : Bool) (c : ℕ) (s : Text)
    → is_digit c ≡ true
    → (sign_of (sign negative ++ c ∷ s) ≡ sign negative)
      × (unsigned (sign negative ++ c ∷ s) ≡ c ∷ s)
unfolding starts_with
parts_of_mantissa true c s h = (refl, refl)
parts_of_mantissa false c s h =
    let other : (b'-' == c) ≡ false = ground arith in rw other (refl, refl)

plain_of_mantissa :
    (negative : Bool) (c : ℕ) (s exponent : Text)
    → is_digit c ≡ true
    → plain_decimal
        (sign_of (sign negative ++ c ∷ after_point s))
        (until_point (unsigned (sign negative ++ c ∷ after_point s)))
        exponent
      ≡ sign negative ++ codes "0." ++ (repeat (parse_decimal 0 exponent - 1) b'0' ++ c ∷ s)
plain_of_mantissa negative c s exponent h =
    let parts = parts_of_mantissa negative c (after_point s) h in
    ap₂ (λ start rest. plain_decimal start rest exponent) parts.0
      (ap until_point parts.1 ∙ until_point-after_point c s h)
    ∙ plain_decimal_of_digit (sign negative) c s exponent

-- The plain text of a number that is written with an exponent.
pub to_plain_decimal-scientific_text :
    (r : Scientific)
    → IsScientific r
    → to_plain_decimal (scientific_text r) ≡ sign r.negative ++ codes "0." ++ places r
unfolding to_plain_decimal
to_plain_decimal-scientific_text r h =
    let mantissa = sign r.negative ++ r.lead ∷ after_point r.fraction in
    let split =
      ap split_exponent (
        sym (
          append_assoc (sign r.negative) (r.lead ∷ after_point r.fraction)
            (b'e' ∷ b'-' ∷ r.exponent)))
      ∙ split_exponent-append mantissa r.exponent
          (mantissa-lacks_e r.negative r.lead r.fraction h.lead_digit h.fraction_digits) in
    ap (without_exponent (scientific_text r)) split
    ∙ plain_of_mantissa r.negative r.lead r.fraction r.exponent h.lead_digit

-- A text without an exponent is left as it is.
pub to_plain_decimal_of_lacking : (s : Text) → lacks_e s ≡ true → to_plain_decimal s ≡ s
unfolding to_plain_decimal
to_plain_decimal_of_lacking s h = ap (without_exponent s) (split_exponent_of_lacking s h)

are_digits-zeros : (n : ℕ) (s : Text) → are_digits s ≡ true → are_digits (repeat n b'0' ++ s) ≡ true
unfolding are_digits repeat
are_digits-zeros zero s h = h
are_digits-zeros (suc n) s h = are_digits-zeros n s h

parse_decimal-zeros : (n : ℕ) (s : Text) → parse_decimal 0 (repeat n b'0' ++ s) ≡ parse_decimal 0 s
unfolding parse_decimal repeat
parse_decimal-zeros zero s = refl
parse_decimal-zeros (suc n) s = parse_decimal-zeros n s

length-zeros : (n : ℕ) (s : Text) → length (repeat n b'0' ++ s) ≡ n + length s
unfolding repeat
length-zeros zero s = omega arith
length-zeros (suc n) s = omega (arith, length-zeros n s)

are_digits-is_decimal_characters : (s : Text) → are_digits s ≡ true → is_decimal_characters s ≡ true
unfolding are_digits is_decimal_characters
are_digits-is_decimal_characters [] h = refl
are_digits-is_decimal_characters (c ∷ s) h = ground (arith, are_digits-is_decimal_characters s)

-- The digits behind the point are those of the number behind zeros, as many as its exponent asks for.
pub record ArePlaces (r : Scientific) (fraction : Text) : Type 0 where
  pub all_digits : are_digits fraction ≡ true
  pub same_digits : parse_decimal 0 fraction ≡ parse_decimal 0 (r.lead ∷ r.fraction)
  pub shifted : length fraction ≡ length r.fraction + parse_decimal 0 r.exponent

pub places-ArePlaces : (r : Scientific) → IsScientific r → ArePlaces r (places r)
unfolding are_digits
places-ArePlaces r h =
    let zeros = parse_decimal 0 r.exponent - 1 in
    record {
      all_digits =
          are_digits-zeros zeros (r.lead ∷ r.fraction) (rw (h.lead_digit, h.fraction_digits) refl);
      same_digits = parse_decimal-zeros zeros (r.lead ∷ r.fraction);
      shifted = omega (arith, length-zeros zeros (r.lead ∷ r.fraction), h.small);
    }

plain_text-is_decimal_characters :
    (negative : Bool) (fraction : Text)
    → are_digits fraction ≡ true
    → is_decimal_characters (sign negative ++ codes "0." ++ fraction) ≡ true
unfolding is_decimal_characters
plain_text-is_decimal_characters true s h = are_digits-is_decimal_characters s h
plain_text-is_decimal_characters false s h = are_digits-is_decimal_characters s h

pub to_plain_decimal-is_decimal_characters :
    (r : Scientific)
    → IsScientific r
    → is_decimal_characters (to_plain_decimal (scientific_text r)) ≡ true
to_plain_decimal-is_decimal_characters r h =
    ap is_decimal_characters (to_plain_decimal-scientific_text r h)
    ∙ plain_text-is_decimal_characters r.negative (places r) (places-ArePlaces r h).all_digits
