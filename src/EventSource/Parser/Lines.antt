-- ===== src/EventSource/Parser/Lines.antt =====
-- Splitting text into lines: what is left over holds no line end, and a text may be split in two.
use js_sdks.Common.{
  ℕ, ◌≡◌, refl, ap, ◌∙◌, Bool, false, ◌&&◌, ◌||◌, List, [], ◌∷◌, ◌++◌, Text, ◌==◌, arith,
  append_assoc, Bool-cases, inl, inr, append-nil,
}
use js_sdks.EventSource.Parser.{cr, lf, is_terminator, scan_from}

unfoldable pub has_terminator : Text → Bool
has_terminator [] = false
has_terminator (c ∷ s) = is_terminator c || has_terminator s

pub has_terminator-nil : has_terminator [] ≡ false
unfolding has_terminator
has_terminator-nil = refl

has_terminator-snoc :
    (s : Text) (c : ℕ)
    → is_terminator c ≡ false
    → has_terminator s ≡ false
    → has_terminator (s ++ c ∷ []) ≡ false
unfolding has_terminator
has_terminator-snoc [] c h k = ground arith
has_terminator-snoc (d ∷ s) c h k = ground (arith, has_terminator-snoc s c h)

-- The split falls between a carriage return and the line feed that belongs to it.
abbrev pub splits_pair : Text → Text → Bool
splits_pair [] b = false
splits_pair (c ∷ []) [] = false
splits_pair (c ∷ []) (d ∷ b) = (c == cr) && (d == lf)
splits_pair (c ∷ d ∷ a) b = splits_pair (d ∷ a) b

-- More text, read after what a first part has left.
abbrev pub resume : List Text × Text → Text → List Text × Text
resume scanned b = (scanned.0 ++ (scan_from scanned.1 b).0, (scan_from scanned.1 b).1)

pub splits_pair-tail :
    (c : ℕ) (a b : Text) → splits_pair (c ∷ a) b ≡ false → splits_pair a b ≡ false
splits_pair-tail c [] b h = refl
splits_pair-tail c (d ∷ a) b h = h

pub has_terminator-scan_from :
    (line text : Text)
    → has_terminator line ≡ false
    → has_terminator (scan_from line text).1 ≡ false
unfolding scan_from
has_terminator-scan_from line [] h = h
has_terminator-scan_from line (c ∷ []) h =
    ground (arith, has_terminator-snoc line c, has_terminator-nil)
has_terminator-scan_from line (c ∷ d ∷ text) h = ground (
  arith,
  has_terminator-nil,
  has_terminator-scan_from [] text,
  has_terminator-scan_from [] (d ∷ text),
  has_terminator-scan_from (line ++ c ∷ []) (d ∷ text),
  has_terminator-snoc line c,
)

pub scan_from_plain :
    (line : Text) (c : ℕ) (text : Text)
    → is_terminator c ≡ false
    → scan_from line (c ∷ text) ≡ scan_from (line ++ c ∷ []) text
unfolding scan_from
scan_from_plain line c [] h = rw h
scan_from_plain line c (d ∷ text) h = rw h

-- Text without a line end only lengthens the current line.
pub scan_from-append_plain :
    (line s text : Text)
    → has_terminator s ≡ false
    → scan_from line (s ++ text) ≡ scan_from (line ++ s) text
unfolding has_terminator
scan_from-append_plain line [] text h = rw append-nil
scan_from-append_plain line (c ∷ s) text h =
    scan_from_plain line c (s ++ text) (ground arith)
    ∙ scan_from-append_plain (line ++ c ∷ []) s text (ground arith)
    ∙ ap (λ l. scan_from l text) (append_assoc line (c ∷ []) s)

-- A text is scanned in two parts, unless the split falls inside a CRLF.
pub scan_from-append :
    (line a b : Text)
    → splits_pair a b ≡ false
    → scan_from line (a ++ b) ≡ resume (scan_from line a) b
unfolding scan_from
scan_from-append line [] b h = refl
scan_from-append line (c ∷ []) [] h = elim (Bool-cases (is_terminator c)) [
  | inl e ↦ rw e
  | inr e ↦ rw e
]
scan_from-append line (c ∷ []) (d ∷ b) h = elim (Bool-cases (is_terminator c)) [
  | inl e ↦ rw (e, h)
  | inr e ↦ rw e
]
scan_from-append line (c ∷ d ∷ a) b h = ground (
  arith,
  scan_from-append [] a b (splits_pair-tail d a b h),
  scan_from-append [] (d ∷ a) b h,
  scan_from-append (line ++ c ∷ []) (d ∷ a) b h,
)
