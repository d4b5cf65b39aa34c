-- ===== src/Common/Utf16.antt =====
-- A JavaScript string as the list of its UTF-16 code units, with the operations of
-- `String.prototype` that the SDKs use.
use Prim.Native.Nat.{ℕ, ◌+◌, ◌-◌, ◌*◌}
use Prim.Native.Char.{code}
use Prim.Native.String.{String}
use mathlib.Core.Path.{◌≡◌, refl}
use mathlib.Core.Logic.{◌↔◌}
use mathlib.Core.Bool.{Bool, true, false, ◌&&◌, ◌||◌}
use mathlib.Core.List.{List, [], ◌∷◌}
use native.Mathlib.Omega.{arith}
use js_sdks.Common.Tests.{◌==◌, leb, if◌then◌else◌}

abbrev pub Text : Type 0
Text = List ℕ

-- The code units of a literal, whose characters all lie in the basic plane.
abbrev pub codes : String → Text
codes String.[] = []
codes (String.◌∷◌ c s) = code c ∷ codes s

-- `a === b`.
unfoldable pub text_eq : Text → Text → Bool
text_eq [] [] = true
text_eq (c ∷ s) (d ∷ t) = (c == d) && text_eq s t
text_eq _ _ = false

pub text_eq_iff : (s t : Text) → (text_eq s t ≡ true) ↔ (s ≡ t)
unfolding text_eq
text_eq_iff [] [] = ground arith
text_eq_iff (c ∷ s) (d ∷ t) = ground (arith, text_eq_iff s t)
text_eq_iff [] (d ∷ t) = ground arith
text_eq_iff (c ∷ s) [] = ground arith

pub text_eq_refl : (s : Text) → text_eq s s ≡ true
text_eq_refl s = (text_eq_iff s s).1 refl

-- `list.includes(s)`.
unfoldable pub includes : List Text → Text → Bool
includes [] s = false
includes (t ∷ ts) s = text_eq t s || includes ts s

-- `s.startsWith(prefix)`, the prefix first.
unfoldable pub starts_with : Text → Text → Bool
starts_with [] s = true
starts_with (c ∷ prefix) [] = false
starts_with (c ∷ prefix) (d ∷ s) = (c == d) && starts_with prefix s

abbrev pub is_digit : ℕ → Bool
is_digit c = leb b'0' c && leb c b'9'

-- `Number.parseInt(value, 10)` of digits that follow digits of value `acc`, exact below 2 ^ 53.
unfoldable pub parse_decimal : ℕ → Text → ℕ
parse_decimal acc [] = acc
parse_decimal acc (c ∷ s) = parse_decimal (acc * 10 + (c - b'0')) s

-- `s.endsWith(suffix)`, the suffix first: some rest of the text is the suffix.
unfoldable pub ends_with : Text → Text → Bool
unfolding text_eq
ends_with suffix [] = text_eq suffix []
ends_with suffix (c ∷ s) = text_eq suffix (c ∷ s) || ends_with suffix s

-- `s.toLowerCase()`, on the letters A to Z. No other character becomes one of the letters of the
-- words that the SDKs compare the result with, but the Kelvin sign, which becomes a k.
unfoldable pub lower : Text → Text
lower [] = []
lower (c ∷ s) = (if leb b'A' c && leb c b'Z' then c + 32 else c) ∷ lower s

-- The white space and line ends that `trim` removes.
unfoldable pub is_space : ℕ → Bool
is_space c =
    (leb 9 c && leb c 13)
    || (c == 32)
    || (c == 160)
    || (c == 0x1680)
    || (leb 0x2000 c && leb c 0x200a)
    || (c == 0x2028)
    || (c == 0x2029)
    || (c == 0x202f)
    || (c == 0x205f)
    || (c == 0x3000)
    || (c == 0xfeff)

-- `s.trim().length === 0`.
unfoldable pub is_blank : Text → Bool
unfolding is_space
is_blank [] = true
is_blank (c ∷ s) = is_space c && is_blank s

-- The test of `isDecimalCharacters`: digits and `+-.eE` only.
unfoldable pub is_decimal_characters : Text → Bool
is_decimal_characters [] = true
is_decimal_characters (c ∷ s) =
    (is_digit c || (c == b'+') || (c == b'-') || (c == b'.') || (c == b'e') || (c == b'E'))
    && is_decimal_characters s
