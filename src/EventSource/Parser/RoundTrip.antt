-- ===== src/EventSource/Parser/RoundTrip.antt =====
-- Writing an event in the stream's format and reading it back.
use js_sdks.Common.{
  ◌≡◌, ◌≢◌, refl, sym, ap, ap₂, ◌∙◌, false, ◌||◌, List, [], ◌∷◌, ◌++◌, Text, text_eq, text_eq_iff,
  codes, arith, append_assoc, append-nil, Option, some, none, All, map,
}
use js_sdks.EventSource.Parser.{
  Parser, on_event, lf, cons_line, parse, scan_lines, scan_from, dispatch_line, dispatch_lines,
  apply_field, parse_field, emit_event, without_last_lf, contains_null,
}
use js_sdks.EventSource.Parser.Lines.{has_terminator, scan_from_plain}

pub record Message : Type 0 where
  pub id : Option Text
  pub type : Option Text
  pub first_line : Text
  pub more_lines : List Text

-- One line `name: value`.
abbrev line_of : Text → Text → Text
line_of name value = name ++ b':' ∷ b' ' ∷ value

abbrev pub optional_lines : Text → Option Text → List Text
optional_lines name none = []
optional_lines name (some value) = line_of name value ∷ []

abbrev data_lines : List Text → List Text
data_lines = map (line_of (codes "data"))

-- The lines of a message; the last one is empty.
pub lines_of : Message → List Text
lines_of m =
    optional_lines (codes "id") m.id
    ++ (optional_lines (codes "event") m.type
        ++ (data_lines (m.first_line ∷ m.more_lines) ++ [] ∷ []))

pub end_lines : List Text → Text
end_lines [] = []
end_lines (l ∷ ls) = l ++ lf ∷ end_lines ls

-- The text of a message, each line ended by a line feed.
unfoldable pub encode : Message → Text
unfolding end_lines lines_of
encode m = end_lines (lines_of m)

-- The lines of the data, with a line feed between two of them.
abbrev pub joined : Text → List Text → Text
joined l [] = l
joined l (k ∷ ks) = l ++ lf ∷ joined k ks

abbrev IsLine : Text → Type 0
IsLine l = has_terminator l ≡ false

abbrev OptionAll : (Text → Type 0) → Option Text → Type 0
OptionAll P none = Unit
OptionAll P (some t) = P t

-- No part of the message holds a line end, its id no null character, and its data is not empty.
pub record IsEncodable (m : Message) : Type 0 where
  pub id_line : OptionAll (λ t. IsLine t × (contains_null t ≡ false)) m.id
  pub type_line : OptionAll IsLine m.type
  pub data_lines : All IsLine (m.first_line ∷ m.more_lines)
  pub some_data : joined m.first_line m.more_lines ≢ []

scan_from-lf : (line rest : Text) → scan_from line (lf ∷ rest) ≡ cons_line line (scan_from [] rest)
unfolding scan_from
scan_from-lf line [] = refl
scan_from-lf line (c ∷ rest) = refl

scan_from_line :
    (line s rest : Text)
    → IsLine s
    → scan_from line (s ++ lf ∷ rest) ≡ cons_line (line ++ s) (scan_from [] rest)
unfolding has_terminator
scan_from_line line [] rest h = rw append-nil (scan_from-lf line rest)
scan_from_line line (c ∷ s) rest h =
    scan_from_plain line c (s ++ lf ∷ rest) (ground arith)
    ∙ scan_from_line (line ++ c ∷ []) s rest (ground arith)
    ∙ rw (append_assoc line (c ∷ []) s)

scan_from-end_lines : (ls : List Text) → All IsLine ls → scan_from [] (end_lines ls) ≡ (ls, [])
unfolding end_lines scan_from
scan_from-end_lines [] h = refl
scan_from-end_lines (l ∷ ls) (h, hs) =
    scan_from_line [] l (end_lines ls) h ∙ rw (scan_from-end_lines ls hs)

dispatch_data :
    (p : Parser) (value : Text)
    → dispatch_line p (line_of (codes "data") value)
      ≡ (record p { current_data = p.current_data ++ (value ++ lf ∷ []) }, [])
unfolding dispatch_line apply_field parse_field text_eq
dispatch_data p value = refl

dispatch_type :
    (p : Parser) (value : Text)
    → dispatch_line p (line_of (codes "event") value) ≡ (record p { current_type = some value }, [])
unfolding dispatch_line apply_field parse_field text_eq
dispatch_type p value = refl

dispatch_id :
    (p : Parser) (value : Text)
    → contains_null value ≡ false
    → dispatch_line p (line_of (codes "id") value) ≡ (record p { last_event_id = some value }, [])
unfolding dispatch_line apply_field parse_field text_eq
dispatch_id p value h = rw h

-- The parser after the lines of a message's data.
abbrev with_data : Parser → Text → Parser
with_data p s = record p { current_data = p.current_data ++ s }

dispatch_data_lines :
    (p : Parser) (l : Text) (ls : List Text) (rest : List Text)
    → dispatch_lines p (data_lines (l ∷ ls) ++ rest)
      ≡ dispatch_lines (with_data p (joined l ls ++ lf ∷ [])) rest
unfolding dispatch_lines
dispatch_data_lines p l [] rest = rw (dispatch_data p l)
dispatch_data_lines p l (k ∷ ks) rest = rw (dispatch_data p l) (
    dispatch_data_lines (with_data p (l ++ lf ∷ [])) k ks rest
    ∙ ap (λ d. dispatch_lines (record p { current_data = d }) rest) (simp append_assoc))

without_last_lf-snoc : (s : Text) → without_last_lf (s ++ lf ∷ []) ≡ s
unfolding without_last_lf
without_last_lf-snoc [] = refl
without_last_lf-snoc (c ∷ []) = refl
without_last_lf-snoc (c ∷ d ∷ s) = ap (λ t. c ∷ t) (without_last_lf-snoc (d ∷ s))

text_eq_nil : (s : Text) → s ≢ [] → text_eq s [] ≡ false
text_eq_nil s h = ground (arith, text_eq_iff s [])

dispatch_blank :
    (p : Parser) (s : Text)
    → p.current_data ≡ s ++ lf ∷ []
    → s ≢ []
    → dispatch_lines p ([] ∷ []) ≡ (
      record p { current_type = none; current_data = [] },
      on_event p.last_event_id p.current_type s ∷ [],
    )
unfolding dispatch_lines dispatch_line emit_event
dispatch_blank p s e h = rw (ap without_last_lf e ∙ without_last_lf-snoc s, text_eq_nil s h)

-- The parser at the start of an event, between two lines, after the first chunk of the stream.
pub record IsIdle (p : Parser) : Type 0 where
  pub begun : p.is_first_chunk ≡ false
  pub no_input : p.buffered_input ≡ []
  pub no_type : p.current_type ≡ none
  pub no_data : p.current_data ≡ []

abbrev latest : Option Text → Option Text → Option Text
latest old none = old
latest old (some i) = some i

-- The id that stands after a message.
abbrev pub id_after : Parser → Message → Option Text
id_after p m = latest p.last_event_id m.id

dispatch_id_lines :
    (p : Parser) (i : Option Text) (rest : List Text)
    → OptionAll (λ t. IsLine t × (contains_null t ≡ false)) i
    → dispatch_lines p (optional_lines (codes "id") i ++ rest)
      ≡ dispatch_lines (record p { last_event_id = latest p.last_event_id i }) rest
unfolding dispatch_lines
dispatch_id_lines p none rest h = refl
dispatch_id_lines p (some i) rest (_, h) = rw (dispatch_id p i h)

dispatch_type_lines :
    (p : Parser) (t : Option Text) (rest : List Text)
    → p.current_type ≡ none
    → dispatch_lines p (optional_lines (codes "event") t ++ rest)
      ≡ dispatch_lines (record p { current_type = t }) rest
unfolding dispatch_lines
dispatch_type_lines p none rest h = ap (λ c. dispatch_lines (record p { current_type = c }) rest) h
dispatch_type_lines p (some t) rest h = rw (dispatch_type p t)

dispatch-lines_of :
    (p : Parser) (m : Message)
    → IsIdle p
    → IsEncodable m
    → dispatch_lines p (lines_of m) ≡ (
      record p { last_event_id = id_after p m },
      on_event (id_after p m) m.type (joined m.first_line m.more_lines) ∷ [],
    )
unfolding lines_of
dispatch-lines_of p m idle fine =
    let q = record p { last_event_id = id_after p m; current_type = m.type } in
    let text = joined m.first_line m.more_lines in
    dispatch_id_lines p m.id (optional_lines (codes "event") m.type ++ body) fine.id_line
    ∙ dispatch_type_lines (record p { last_event_id = id_after p m }) m.type body idle.no_type
    ∙ dispatch_data_lines q m.first_line m.more_lines ([] ∷ [])
    ∙ dispatch_blank (with_data q (text ++ lf ∷ [])) text (rw idle.no_data) fine.some_data
    ∙ ap₂
        (λ c d. (
          record p { last_event_id = id_after p m; current_type = c; current_data = d },
          on_event (id_after p m) m.type text ∷ [],
        ))
        (sym idle.no_type) (sym idle.no_data)
  where
    body : List Text
    body = data_lines (m.first_line ∷ m.more_lines) ++ [] ∷ []

has_terminator-append :
    (s t : Text) → has_terminator (s ++ t) ≡ (has_terminator s || has_terminator t)
unfolding has_terminator
has_terminator-append [] t = refl
has_terminator-append (c ∷ s) t = ground (arith, has_terminator-append s t)

All-data_lines : (ls : List Text) → All IsLine ls → All IsLine (data_lines ls ++ [] ∷ [])
unfolding has_terminator
All-data_lines [] h = (refl, tt)
All-data_lines (l ∷ ls) (h, hs) = (h, All-data_lines ls hs)

All-optional_lines :
    (name : Text) (t : Option Text) (ls : List Text)
    → IsLine name
    → OptionAll IsLine t
    → All IsLine ls
    → All IsLine (optional_lines name t ++ ls)
unfolding has_terminator
All-optional_lines name none ls n h hs = hs
All-optional_lines name (some t) ls n h hs =
    (rw (has_terminator-append name (b':' ∷ b' ' ∷ t), n) h, hs)

id_line :
    (t : Option Text) → OptionAll (λ s. IsLine s × (contains_null s ≡ false)) t → OptionAll IsLine t
id_line none h = tt
id_line (some t) h = h.0

All-lines_of : (m : Message) → IsEncodable m → All IsLine (lines_of m)
unfolding lines_of has_terminator
All-lines_of m fine = All-optional_lines (codes "id") m.id _ refl (id_line m.id fine.id_line) (
    All-optional_lines (codes "event") m.type _ refl fine.type_line
      (All-data_lines (m.first_line ∷ m.more_lines) fine.data_lines))

-- An event written in the stream's format is read back as one call of the handler with its id, its
-- type and its data lines joined, and the parser is ready for the next event, having kept the id;
-- if the parser has read the first chunk of its stream and stands at the start of an event, no part of
-- the event holds a line end, its id has no null character and its data is not empty.
pub parse-encode :
    (p : Parser) (m : Message)
    → IsIdle p
    → IsEncodable m
    → parse p (encode m) ≡ (
      record p { last_event_id = id_after p m },
      on_event (id_after p m) m.type (joined m.first_line m.more_lines) ∷ [],
    )
unfolding parse encode scan_lines
parse-encode p m idle fine =
    rw (idle.begun, idle.no_input)
      (rw (scan_from-end_lines (lines_of m) (All-lines_of m fine)) (
        dispatch-lines_of (record p { is_first_chunk = false; buffered_input = [] }) m
          (record { begun = refl; no_input = refl; no_type = idle.no_type; no_data = idle.no_data })
          fine))
