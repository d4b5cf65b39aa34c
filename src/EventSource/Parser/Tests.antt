-- ===== src/EventSource/Parser/Tests.antt =====
-- The parser on concrete streams.
use js_sdks.Common.{
  ◌≡◌, refl, false, inr, [], ◌∷◌, ◌++◌, Text, text_eq, codes, parse_decimal, some, none, arith,
  flatten, starts_with,
}
use js_sdks.EventSource.Parser.{
  Parser, on_event, on_retry, on_comment, init, cr, lf, parse, parse_all, contains_null, is_digits,
  parse_decimal, without_last_lf,
}
use js_sdks.EventSource.Parser.Lines.{has_terminator}
use js_sdks.EventSource.Parser.Chunks.{parse_all-flatten, parse_crlf_cut}
use js_sdks.EventSource.Parser.RoundTrip.{Message, encode, parse-encode}

abbrev begun : Parser
begun = record init { is_first_chunk = false }

-- One line, ended by a line feed.
abbrev line : Text → Text
line s = s ++ lf ∷ []

stream_calls :
    (parse init (
      line (codes ": hi")
      ++ line (codes "retry: 150")
      ++ line (codes "id:7")
      ++ line (codes "data: a")
      ++ line (codes "data:b")
      ++ lf ∷ [])).1
    ≡ on_comment (codes "hi")
      ∷ on_retry 150
      ∷ on_event (some (codes "7")) none (codes "a" ++ lf ∷ codes "b")
      ∷ []
unfolding parse text_eq starts_with contains_null is_digits parse_decimal without_last_lf
stream_calls = refl

bom_calls :
    (parse init (0xfeff ∷ codes "data:x" ++ cr ∷ lf ∷ cr ∷ lf ∷ [])).1
    ≡ on_event none none (codes "x") ∷ []
unfolding parse text_eq starts_with contains_null is_digits parse_decimal without_last_lf
bom_calls = refl

-- Two data lines that a cut inside a CRLF tears into two events.
torn_event :
    (parse_all begun ((codes "data:a" ++ cr ∷ []) ∷ (lf ∷ codes "data:b" ++ lf ∷ lf ∷ []) ∷ [])).1
    ≡ on_event none none (codes "a") ∷ on_event none none (codes "b") ∷ []
unfolding parse_all text_eq starts_with contains_null is_digits parse_decimal without_last_lf
torn_event = refl

parse_all-flatten_example :
    parse_all init (codes "data: x" ∷ (cr ∷ lf ∷ []) ∷ (lf ∷ []) ∷ [])
    ≡ parse init (flatten (codes "data: x" ∷ (cr ∷ lf ∷ []) ∷ (lf ∷ []) ∷ []))
unfolding has_terminator flatten
parse_all-flatten_example =
    parse_all-flatten init (codes "data: x") ((cr ∷ lf ∷ []) ∷ (lf ∷ []) ∷ []) refl
      (inr (omega arith)) (refl, (refl, (refl, tt)))

parse_crlf_cut_example :
    parse_all begun ((codes "data:a" ++ cr ∷ []) ∷ (lf ∷ codes "data:b") ∷ [])
    ≡ parse begun ((codes "data:a" ++ cr ∷ lf ∷ []) ++ lf ∷ codes "data:b")
unfolding has_terminator
parse_crlf_cut_example = parse_crlf_cut begun (codes "data:a") (codes "data:b") refl refl

abbrev update : Message
update = record {
  id = some (codes "9");
  type = none;
  first_line = codes "x";
  more_lines = codes "y" ∷ [];
}

parse-encode_example : parse begun (encode update) ≡ (
  record begun { last_event_id = some (codes "9") },
  on_event (some (codes "9")) none (codes "x" ++ lf ∷ codes "y") ∷ [],
)
unfolding has_terminator contains_null
parse-encode_example =
    parse-encode begun update
      (record { begun = refl; no_input = refl; no_type = refl; no_data = refl })
      (record {
        id_line = (refl, refl);
        type_line = tt;
        data_lines = (refl, (refl, tt));
        some_data = λ e. cc;
      })
