-- ===== src/Client/PartTests.antt =====
-- The parts of the client on concrete inputs.
use js_sdks.Common.{
  true, hex_of_int, pos, ℕ, ◌≡◌, refl, false, Option, none, some, List, [], ◌∷◌, ◌++◌, Text, codes,
  length, ◌==◌, Fallible, throws, lookup, text_eq,
}
use js_sdks.Evaluator.Value.{Value, Fields, num, str, obj, end, field}
use js_sdks.Client.CachedValues.{CachedValues, context_id}
use js_sdks.Telemetry.Utf8.{utf8_byte_length}
use js_sdks.Client.CachedEntry.{Json, unreadable}
use js_sdks.Client.CachedStore.{Store, replaces, finishes, removes, replace, finish}
use js_sdks.Client.CachedStore
use js_sdks.Client.CachedStore.Queueing.{IsKept}
use js_sdks.Client.CachedStore.Settling.{only_finish_well, settles}
use js_sdks.Client.Emitter.{
  Listener, direct, once_of, listeners, emit, off_call, clear_call, ClientHandlers, register_hooks,
  remove_all,
}
use js_sdks.Client.Emitter
use js_sdks.Client.Emitter.Snapshot.{calls_of, has_failing, emit-calls}
use js_sdks.Client.Session.{Numbers, fnv1a, checksum_for, record_of}
use js_sdks.Client.Session
use js_sdks.Client.Session.Checksum.{word_text, low_hash, high_hash, checksum_for-fnv1a_of_words}
use js_sdks.Client.Polling.{
  Transport, set_of, status, connects, ticks, first_fetch_ended, fetch_ended, close, session_known,
  connect, is_status_fatal,
}
use js_sdks.Client.Polling
use js_sdks.Client.Polling.Fatal.{requests, requests_after_fatal}
use js_sdks.Client.Polling.Stale.{timer_of_stale}

abbrev numbers : Json ℕ
numbers = record {
  parse = λ text. none;
  stringify = λ v. codes "?";
  num_eq = λ a b. a == b;
  number_of = λ n. n;
}

abbrev configs_of_a : Fields ℕ
configs_of_a =
    field (codes "a")
      (obj (field (codes "id") (str (codes "1")) (field (codes "key") (str (codes "a")) end))) end

abbrev values_of_a : CachedValues (Fields ℕ)
values_of_a = record {
  context_tag = context_id (codes "user") (codes "1");
  environment_id = codes "e";
  project_id = codes "p";
  configs = configs_of_a;
  received_at = 7;
}

-- A store that waits for the removal of an unreadable entry.
abbrev idle : Store ℕ (Fields ℕ)
idle = record {
  queued = none;
  writing = none;
  warned = [];
  pending_read = CachedStore.removing unreadable;
  device = some (codes "?");
}

abbrev newer_values : CachedValues (Fields ℕ)
newer_values = record values_of_a { received_at = 9 }

-- A first write that fails while the entry is removed.
abbrev first_steps : List (CachedStore.StoreStep (Fields ℕ))
first_steps = replaces values_of_a ∷ removes true ∷ finishes false ∷ []

settles_example :
    IsKept
      (λ values. codes "text")
      100
      newer_values
      (finish
        (λ values. codes "text")
        100
        true
        (finish
          (λ values. codes "text")
          100
          true
          (CachedStore.run numbers
            (codes "d")
            (λ values. codes "text")
            100
            (first_steps ++ replaces newer_values ∷ finishes true ∷ [])
            idle)))
unfolding CachedStore.run CachedStore.step replace finish CachedStore.removed only_finish_well
    CachedStore.write_entry CachedStore.warn_once CachedStore.has_warned utf8_byte_length
settles_example =
    settles numbers (codes "d") (λ values. codes "text") 100 first_steps (finishes true ∷ [])
      newer_values idle refl refl

-- The first handler removes the second and clears the emitter.
abbrev removing : ℕ → List Emitter.Call
removing h = off_call (codes "e") (some 2) ∷ clear_call ∷ []

abbrev two_handlers : Emitter.Emitter ℕ
two_handlers = record {
  handlers = (codes "e", direct 1 ∷ once_of 9 2 ∷ direct 3 ∷ []) ∷ [];
  calls = [];
}

-- Payloads that are primitives.
abbrev no_list : ℕ → Fallible (List ℕ)
no_list n = throws

emit-calls_example :
    ((emit no_list removing (codes "e") 5 two_handlers).0.calls
      ≡ [] ++ calls_of 5 throws (listeners (codes "e") two_handlers.handlers))
    × ((emit no_list removing (codes "e") 5 two_handlers).1
        ≡ has_failing {P = ℕ} throws (listeners (codes "e") two_handlers.handlers))
emit-calls_example = emit-calls no_list removing (codes "e") 5 two_handlers

-- The second handler throws, and the third one is not called.
calls_of_primitive :
    ((emit no_list removing (codes "e") 5 two_handlers).0.calls ≡ (1, 5 ∷ []) ∷ [])
    × ((emit no_list removing (codes "e") 5 two_handlers).1 ≡ true)
unfolding emit Emitter.call_all Emitter.call_listener Emitter.perform_all Emitter.perform
    Emitter.off Emitter.remove_listener lookup text_eq
calls_of_primitive = (refl, refl)

checksum_for-fnv1a_of_words_example :
    (checksum_for hex_of_int (codes "id") 5
      ≡ word_text (high_hash hex_of_int (codes "id") 5)
        ++ word_text (low_hash hex_of_int (codes "id") 5))
    × (length (checksum_for hex_of_int (codes "id") 5) ≡ 16)
checksum_for-fnv1a_of_words_example = checksum_for-fnv1a_of_words hex_of_int (codes "id") 5

-- The value that is documented for the text `foobar`.
fnv1a_of_foobar : fnv1a (codes "foobar") (pos 0x811c9dc5) ≡ pos 0xbf9cf968
unfolding fnv1a Session.mix
fnv1a_of_foobar = refl

abbrev new_id : Text
new_id = codes "01234567-89ab-4def-8123-456789abcdef"

abbrev unread : Numbers ℕ
unread = record { json = numbers; whole = λ n. some n; decimal = hex_of_int }

-- JSON whose texts are those of the records of `new_id`: the one unit is the time.
abbrev read_record_of : Text → Option (Value ℕ)
read_record_of [] = none
read_record_of (c ∷ s) = some (record_of unread new_id c)

abbrev time_of : Value ℕ → Text
time_of (obj (field v version (field i id (field t (num created_at) rest)))) = created_at ∷ []
time_of v = []

abbrev one_record : Numbers ℕ
one_record = record unread { json = record numbers { parse = read_record_of; stringify = time_of } }

abbrev polling : Transport Text Text
polling = record {
  fatal_error = false;
  timer = none;
  has_handle = false;
  interval_seconds = 60;
  last_update = none;
  generation = 0;
  outputs = [];
}

requests_after_fatal_example :
    requests (Polling.run (connects ∷ ticks ∷ []) (fetch_ended (status 403) polling)).outputs
    ≡ requests polling.outputs
unfolding is_status_fatal
requests_after_fatal_example =
    requests_after_fatal (status 403) (connects ∷ ticks ∷ []) polling refl

timer_of_stale_example :
    ((first_fetch_ended (codes "old") (set_of (codes "s") (codes "1")) (close polling)).timer
      ≡ some (codes "old"))
    × ((first_fetch_ended (codes "old") (set_of (codes "s") (codes "1")) (
          first_fetch_ended
            (codes "new")
            (set_of (codes "t") (codes "2"))
            (session_known 1 (codes "new") (connect polling)))).timer
        ≡ some (codes "old"))
timer_of_stale_example =
    timer_of_stale (codes "old") (codes "new") (codes "t") (codes "s") (codes "2") (codes "1")
      polling refl refl
