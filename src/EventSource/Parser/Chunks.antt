-- ===== src/EventSource/Parser/Chunks.antt =====
-- How a stream is cut into chunks does not matter, except inside a CRLF.
use js_sdks.Common.{
  ◌≤◌, ◌≡◌, refl, sym, ap, ◌∙◌, false, List, [], ◌∷◌, ◌++◌, Text, arith, if◌then◌else◌,
  append_assoc, append-nil, length, starts_with, ◌≡⟨◌⟩◌, ◌∎, ◌⊎◌, inl, inr, Bool-cases, flatten,
}
use js_sdks.EventSource.Parser.{
  Parser, Callback, cr, lf, and_then, parse, parse_all, scan_lines, scan_from, dispatch_line,
  dispatch_lines, apply_field, parse_field, emit_event, ParsedField, strip_bom,
}
use js_sdks.EventSource.Parser.Lines.{
  has_terminator, has_terminator-scan_from, scan_from-append_plain, scan_from-append, splits_pair,
  splits_pair-tail, resume,
}

-- A parser that has scanned its input, with the text that it has left over.
abbrev pub with_rest : Parser → Text → Parser
with_rest p rest = record p { is_first_chunk = false; buffered_input = rest }

abbrev with_rest_of : Parser × List Callback → Text → Parser × List Callback
with_rest_of (p, calls) rest = (with_rest p rest, calls)

apply_field-with_rest :
    (p : Parser) (rest : Text) (parsed : ParsedField)
    → apply_field (with_rest p rest) parsed ≡ with_rest_of (apply_field p parsed) rest
unfolding apply_field
apply_field-with_rest p rest parsed = ground arith

dispatch_line-with_rest :
    (p : Parser) (rest line : Text)
    → dispatch_line (with_rest p rest) line ≡ with_rest_of (dispatch_line p line) rest
unfolding dispatch_line emit_event
dispatch_line-with_rest p rest [] = refl
dispatch_line-with_rest p rest (c ∷ line) =
    ground (arith, apply_field-with_rest p rest (parse_field (c ∷ line)))

pub dispatch_lines-with_rest :
    (p : Parser) (rest : Text) (lines : List Text)
    → dispatch_lines (with_rest p rest) lines ≡ with_rest_of (dispatch_lines p lines) rest
unfolding dispatch_lines
dispatch_lines-with_rest p rest [] = refl
dispatch_lines-with_rest p rest (line ∷ lines) =
    rw (dispatch_line-with_rest p rest line)
      (rw (dispatch_lines-with_rest (dispatch_line p line).0 rest lines))

and_then_assoc :
    (r : Parser × List Callback) (f g : Parser → Parser × List Callback)
    → and_then (and_then r f) g ≡ and_then r (λ p. and_then (f p) g)
and_then_assoc (p, calls) f g = rw (append_assoc calls (f p).1 (g (f p).0).1)

pub dispatch_lines-append :
    (p : Parser) (ls ms : List Text)
    → dispatch_lines p (ls ++ ms) ≡ and_then (dispatch_lines p ls) (λ q. dispatch_lines q ms)
unfolding dispatch_lines
dispatch_lines-append p [] ms = refl
dispatch_lines-append p (l ∷ ls) ms =
    rw (dispatch_lines-append (dispatch_line p l).0 ls ms) (
      sym
        (and_then_assoc (dispatch_line p l) (λ q. dispatch_lines q ls) (λ q. dispatch_lines q ms)))

-- What a parser reads of a chunk.
abbrev pub input_of : Parser → Text → Text
input_of p chunk = if p.is_first_chunk then strip_bom chunk else chunk

abbrev settle : Parser → List Text × Text → Parser × List Callback
settle p scanned = with_rest_of (dispatch_lines p scanned.0) scanned.1

parse_lem :
    (p : Parser) (chunk : Text)
    → has_terminator p.buffered_input ≡ false
    → parse p chunk ≡ settle p (scan_from p.buffered_input (input_of p chunk))
unfolding parse scan_lines
parse_lem p chunk h = rw (scan_from-append_plain [] p.buffered_input (input_of p chunk) h) (
    dispatch_lines-with_rest p (scan_from p.buffered_input (input_of p chunk)).1
      (scan_from p.buffered_input (input_of p chunk)).0)

pub has_terminator-parse :
    (p : Parser) (chunk : Text)
    → has_terminator p.buffered_input ≡ false
    → has_terminator (parse p chunk).0.buffered_input ≡ false
has_terminator-parse p chunk h =
    rw (parse_lem p chunk h) (has_terminator-scan_from p.buffered_input (input_of p chunk) h)

pub is_first_chunk-parse :
    (p : Parser) (chunk : Text)
    → has_terminator p.buffered_input ≡ false
    → (parse p chunk).0.is_first_chunk ≡ false
is_first_chunk-parse p chunk h = rw (parse_lem p chunk h)

settle-resume :
    (p : Parser) (scanned : List Text × Text) (b : Text)
    → settle p (resume scanned b)
      ≡ and_then (settle p scanned) (λ q. settle q (scan_from scanned.1 b))
settle-resume p (lines, rest) b =
    rw (dispatch_lines-append p lines (scan_from rest b).0)
      (rw (dispatch_lines-with_rest (dispatch_lines p lines).0 rest (scan_from rest b).0))

parse_input-append :
    (p : Parser) (a b : Text)
    → has_terminator p.buffered_input ≡ false
    → input_of p (a ++ b) ≡ input_of p a ++ b
    → splits_pair (input_of p a) b ≡ false
    → parse p (a ++ b) ≡ and_then (parse p a) (λ q. parse q b)
parse_input-append p a b h same joined =
    let scanned = scan_from p.buffered_input (input_of p a) in
    parse p (a ++ b)
    ≡⟨ parse_lem p (a ++ b) h ⟩ settle p (scan_from p.buffered_input (input_of p (a ++ b)))
    ≡⟨ ap (λ t. settle p (scan_from p.buffered_input t)) same ⟩
      settle p (scan_from p.buffered_input (input_of p a ++ b))
    ≡⟨ ap (settle p) (scan_from-append p.buffered_input (input_of p a) b joined) ⟩
      settle p (resume scanned b)
    ≡⟨ settle-resume p scanned b ⟩
      and_then (settle p scanned) (λ q. settle q (scan_from scanned.1 b))
    ≡⟨ rw
        (parse_lem (settle p scanned).0 b
          (has_terminator-scan_from p.buffered_input (input_of p a) h))
        refl ⟩
      and_then (settle p scanned) (λ q. parse q b)
    ≡⟨ ap (λ r. and_then r (λ q. parse q b)) (sym (parse_lem p a h)) ⟩
      and_then (parse p a) (λ q. parse q b) ∎

strip_bom-append : (a b : Text) → 3 ≤ length a → strip_bom (a ++ b) ≡ strip_bom a ++ b
unfolding strip_bom starts_with
strip_bom-append [] b h = absurd (omega arith)
strip_bom-append (x ∷ []) b h = absurd (omega arith)
strip_bom-append (x ∷ y ∷ []) b h = absurd (omega arith)
strip_bom-append (x ∷ y ∷ z ∷ a) b h = ground arith

splits_pair-strip_bom : (a b : Text) → splits_pair a b ≡ false → splits_pair (strip_bom a) b ≡ false
unfolding strip_bom starts_with
splits_pair-strip_bom [] b h = refl
splits_pair-strip_bom (x ∷ []) b h = ground arith
splits_pair-strip_bom (x ∷ y ∷ []) b h = ground arith
splits_pair-strip_bom (x ∷ y ∷ z ∷ a) b h = ground (arith, splits_pair-tail z a b)

-- A chunk that may be joined with what follows: it is not the first one, or it is long enough to
-- show a byte order mark.
abbrev pub IsJoinable : Parser → Text → Type 0
IsJoinable p a = (p.is_first_chunk ≡ false) ⊎ (3 ≤ length a)

input_of-append :
    (p : Parser) (a b : Text) → IsJoinable p a → input_of p (a ++ b) ≡ input_of p a ++ b
input_of-append p a b (inl later) = rw later
input_of-append p a b (inr long) = elim (Bool-cases p.is_first_chunk) [
  | inl first ↦ rw first (strip_bom-append a b long)
  | inr later ↦ rw later
]

splits_pair-input_of :
    (p : Parser) (a b : Text) → splits_pair a b ≡ false → splits_pair (input_of p a) b ≡ false
splits_pair-input_of p a b h = elim (Bool-cases p.is_first_chunk) [
  | inl first ↦ rw first (splits_pair-strip_bom a b h)
  | inr later ↦ rw later h
]

-- Reading a text in two chunks is reading it in one.
pub parse-append :
    (p : Parser) (a b : Text)
    → has_terminator p.buffered_input ≡ false
    → IsJoinable p a
    → splits_pair a b ≡ false
    → parse p (a ++ b) ≡ and_then (parse p a) (λ q. parse q b)
parse-append p a b h joinable joined =
    parse_input-append p a b h (input_of-append p a b joinable) (splits_pair-input_of p a b joined)

with_rest_self : (p : Parser) → p.is_first_chunk ≡ false → with_rest p p.buffered_input ≡ p
with_rest_self p later = ground arith

parse-nil :
    (p : Parser)
    → has_terminator p.buffered_input ≡ false
    → p.is_first_chunk ≡ false
    → parse p [] ≡ (p, [])
unfolding scan_from dispatch_lines
parse-nil p h later = parse_lem p [] h ∙ rw later (rw (with_rest_self p later))

-- No cut falls between a carriage return and a line feed.
abbrev pub KeepsPairs : List Text → Type 0
KeepsPairs [] = Unit
KeepsPairs (c ∷ cs) = (splits_pair c (flatten cs) ≡ false) × KeepsPairs cs

parse_all_later :
    (p : Parser) (chunks : List Text)
    → has_terminator p.buffered_input ≡ false
    → p.is_first_chunk ≡ false
    → KeepsPairs chunks
    → parse_all p chunks ≡ parse p (flatten chunks)
unfolding parse_all flatten
parse_all_later p [] h later keeps = sym (parse-nil p h later)
parse_all_later p (c ∷ cs) h later (here, keeps) =
    rw
      (parse_all_later (parse p c).0 cs (has_terminator-parse p c h) (is_first_chunk-parse p c h)
        keeps)
      (sym (parse-append p c (flatten cs) h (inl later) here))

-- However a stream is cut into chunks, the parser ends in the same state and makes the same calls
-- in the same order as if it had read the whole text at once, provided that no line end is left in
-- its buffer, that the first chunk is not the first of the stream or has three characters, and
-- that no cut falls between a carriage return and a line feed.
pub parse_all-flatten :
    (p : Parser) (c : Text) (cs : List Text)
    → has_terminator p.buffered_input ≡ false
    → IsJoinable p c
    → KeepsPairs (c ∷ cs)
    → parse_all p (c ∷ cs) ≡ parse p (flatten (c ∷ cs))
unfolding parse_all flatten
parse_all-flatten p c cs h joinable (here, keeps) =
    rw
      (parse_all_later (parse p c).0 cs (has_terminator-parse p c h) (is_first_chunk-parse p c h)
        keeps)
      (sym (parse-append p c (flatten cs) h joinable here))

splits_pair-cr : (a b : Text) → splits_pair a (cr ∷ b) ≡ false
splits_pair-cr [] b = refl
splits_pair-cr (c ∷ []) b = ground arith
splits_pair-cr (c ∷ d ∷ a) b = splits_pair-cr (d ∷ a) b

splits_pair_after_crlf : (a b : Text) → splits_pair (a ++ cr ∷ lf ∷ []) b ≡ false
splits_pair_after_crlf [] [] = refl
splits_pair_after_crlf [] (c ∷ b) = refl
splits_pair_after_crlf (c ∷ []) b = splits_pair_after_crlf [] b
splits_pair_after_crlf (c ∷ d ∷ a) b = splits_pair_after_crlf (d ∷ a) b

parse_crlf_only :
    (p : Parser)
    → has_terminator p.buffered_input ≡ false
    → p.is_first_chunk ≡ false
    → parse p (cr ∷ lf ∷ []) ≡ parse p (cr ∷ [])
unfolding scan_from
parse_crlf_only p h later =
    parse_lem p (cr ∷ lf ∷ []) h ∙ (rw later) ∙ sym (parse_lem p (cr ∷ []) h)

parse_crlf_end :
    (p : Parser) (a : Text)
    → has_terminator p.buffered_input ≡ false
    → p.is_first_chunk ≡ false
    → parse p (a ++ cr ∷ lf ∷ []) ≡ parse p (a ++ cr ∷ [])
parse_crlf_end p a h later =
    parse-append p a (cr ∷ lf ∷ []) h (inl later) (splits_pair-cr a (lf ∷ []))
    ∙ ap (λ r. (r.0, (parse p a).1 ++ r.1))
        (parse_crlf_only (parse p a).0 (has_terminator-parse p a h) (is_first_chunk-parse p a h))
    ∙ sym (parse-append p a (cr ∷ []) h (inl later) (splits_pair-cr a []))

-- A stream cut between a carriage return and its line feed is read as if it had a second line feed
-- there: the parser sees an empty line that the sender did not write, for every text before and
-- after the cut, if no line end is left in the buffer and the stream has begun.
pub parse_crlf_cut :
    (p : Parser) (a b : Text)
    → has_terminator p.buffered_input ≡ false
    → p.is_first_chunk ≡ false
    → parse_all p ((a ++ cr ∷ []) ∷ (lf ∷ b) ∷ []) ≡ parse p ((a ++ cr ∷ lf ∷ []) ++ lf ∷ b)
unfolding parse_all
parse_crlf_cut p a b h later =
    rw (append-nil, ← (parse_crlf_end p a h later))
      (sym (
        parse-append p (a ++ cr ∷ lf ∷ []) (lf ∷ b) h (inl later)
          (splits_pair_after_crlf a (lf ∷ b))))
