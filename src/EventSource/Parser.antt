-- ===== src/EventSource/Parser.antt =====
-- packages/eventsource/src/EventSourceParser.ts
pub mod Lines
pub mod Chunks
pub mod RoundTrip
pub mod Tests
use js_sdks.Common.{
  ℕ, suc, ◌+◌, ◌*◌, ◌-◌, Bool, true, false, ◌&&◌, ◌||◌, Option, none, some, List, [], ◌∷◌, ◌++◌,
  Text, codes, text_eq, starts_with, ◌==◌, is_digit, parse_decimal, all, if◌then◌else◌, drop,
}

-- The fields of `EventSourceParser`; `current_type` and `current_data` are `currentEvent`.
pub record Parser : Type 0 where
  pub is_first_chunk : Bool
  pub buffered_input : Text
  pub current_type : Option Text
  pub current_data : Text
  pub last_event_id : Option Text

-- The calls of the three callbacks.
pub data Callback : Type 0 where
  on_event : Option Text → Option Text → Text → Callback
  on_retry : ℕ → Callback
  on_comment : Text → Callback

pub record ParsedField : Type 0 where
  pub field : Text
  pub value : Text

abbrev pub init : Parser
init = record {
  is_first_chunk = true;
  buffered_input = [];
  current_type = none;
  current_data = [];
  last_event_id = none;
}

abbrev pub lf : ℕ
lf = 10

abbrev pub cr : ℕ
cr = 13

abbrev pub is_terminator : ℕ → Bool
is_terminator c = (c == cr) || (c == lf)

abbrev pub cons_line : Text → List Text × Text → List Text × Text
cons_line line (lines, rest) = (line ∷ lines, rest)

-- The loop of `scanLines`: `line` is `text.slice(lineStart, i)`, the other argument what follows
-- position `i`. The result is the list of lines and the text to buffer.
unfoldable pub scan_from : Text → Text → List Text × Text
scan_from line [] = ([], line)
scan_from line (c ∷ []) = if is_terminator c then (line ∷ [], []) else ([], line ++ c ∷ [])
scan_from line (c ∷ d ∷ text) =
    let after_pair = cons_line line (scan_from [] text) in
    let after_one = cons_line line (scan_from [] (d ∷ text)) in
    let longer = scan_from (line ++ c ∷ []) (d ∷ text) in
    if is_terminator c then if (c == cr) && (d == lf) then after_pair else after_one else longer

unfoldable pub scan_lines : Text → List Text × Text
unfolding scan_from
scan_lines text = scan_from [] text

-- `extractValue`, of the line from position `from` on.
unfoldable pub extract_value : Text → Text
extract_value [] = []
extract_value (c ∷ rest) = if c == b' ' then rest else c ∷ rest

abbrev put_before : ℕ → ParsedField → ParsedField
put_before c parsed = record { field = c ∷ parsed.field; value = parsed.value }

unfoldable pub parse_field : Text → ParsedField
unfolding extract_value
parse_field [] = record { field = []; value = [] }
parse_field (c ∷ line) =
    if c == b':'
    then record { field = []; value = extract_value line }
    else put_before c (parse_field line)

unfoldable pub contains_null : Text → Bool
contains_null [] = false
contains_null (c ∷ s) = (c == 0) || contains_null s

-- `/^\d+$/.test(value)`.
unfoldable pub is_digits : Text → Bool
is_digits [] = false
is_digits (c ∷ s) = all is_digit (c ∷ s)

unfoldable pub apply_field : Parser → ParsedField → Parser × List Callback
apply_field p parsed =
    if text_eq parsed.field (codes "event")
    then (record p { current_type = some parsed.value }, [])
    else if text_eq parsed.field (codes "data")
    then (record p { current_data = p.current_data ++ (parsed.value ++ lf ∷ []) }, [])
    else if text_eq parsed.field (codes "id")
    then (if contains_null parsed.value
        then (p, [])
        else (record p { last_event_id = some parsed.value }, []))
    else if text_eq parsed.field (codes "retry")
    then (if is_digits parsed.value
        then (p, on_retry (parse_decimal 0 parsed.value) ∷ [])
        else (p, []))
    else (p, [])

-- `data.endsWith("\n") ? data.slice(0, -1) : data`.
unfoldable pub without_last_lf : Text → Text
without_last_lf [] = []
without_last_lf (c ∷ []) = if c == lf then [] else c ∷ []
without_last_lf (c ∷ d ∷ s) = c ∷ without_last_lf (d ∷ s)

unfoldable pub emit_event : Parser → Parser × List Callback
emit_event p =
    let text = without_last_lf p.current_data in
    let calls = if text_eq text [] then [] else on_event p.last_event_id p.current_type text ∷ [] in
    (record p { current_type = none; current_data = [] }, calls)

unfoldable pub dispatch_line : Parser → Text → Parser × List Callback
unfolding emit_event apply_field parse_field extract_value
dispatch_line p [] = emit_event p
dispatch_line p (c ∷ line) =
    if c == b':'
    then (p, on_comment (extract_value line) ∷ [])
    else apply_field p (parse_field (c ∷ line))

abbrev pub and_then :
    Parser × List Callback → (Parser → Parser × List Callback) → Parser × List Callback
and_then (p, calls) next = let (q, more) = next p in (q, calls ++ more)

unfoldable pub dispatch_lines : Parser → List Text → Parser × List Callback
unfolding dispatch_line
dispatch_lines p [] = (p, [])
dispatch_lines p (line ∷ lines) = and_then (dispatch_line p line) (λ q. dispatch_lines q lines)

-- A byte order mark, decoded or as three characters, is taken off the first chunk.
unfoldable pub strip_bom : Text → Text
unfolding starts_with
strip_bom input =
    if starts_with (0xfeff ∷ []) input
    then drop 1 input
    else if starts_with (0xef ∷ 0xbb ∷ 0xbf ∷ []) input
    then drop 3 input
    else input

unfoldable pub parse : Parser → Text → Parser × List Callback
unfolding scan_lines dispatch_lines strip_bom
parse p chunk =
    let input = if p.is_first_chunk then strip_bom chunk else chunk in
    let (lines, rest) = scan_lines (p.buffered_input ++ input) in
    dispatch_lines (record p { is_first_chunk = false; buffered_input = rest }) lines

-- The calls that a sequence of chunks makes, in order.
unfoldable pub parse_all : Parser → List Text → Parser × List Callback
unfolding parse
parse_all p [] = (p, [])
parse_all p (chunk ∷ chunks) = and_then (parse p chunk) (λ q. parse_all q chunks)

unfoldable pub finish : Parser → Parser
finish p = record p { buffered_input = [] }
