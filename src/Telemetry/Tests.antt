-- ===== src/Telemetry/Tests.antt =====
-- The telemetry queues on concrete calls.
use js_sdks.Common.{
  ℕ, suc, true, ◌≤◌, ◌≡◌, refl, none, some, List, [], ◌∷◌, Text, codes, text_eq, length, take,
  arith,
}
use js_sdks.Telemetry.EventQueue.{EventQueue, Snapshot, push_all, take_snapshot}
use js_sdks.Telemetry.EventQueue
use js_sdks.Telemetry.EventQueue.Window.{take_snapshot-push_all}
use js_sdks.Telemetry.TrackedEvents.{
  Warning, details_not_reportable, Admission, admitted, dropped, events_per_batch,
  TrackedEventQueue, add_all, has,
}
use js_sdks.Telemetry.TrackedEvents
use js_sdks.Telemetry.TrackedEvents.Batch.{IsFresh, entries_of, deserved, add_all_of_clear}
use js_sdks.Telemetry.InvalidContexts.{recorded, absorbed, Call, run, empty, sample_limit}
use js_sdks.Telemetry.InvalidContexts
use js_sdks.Telemetry.InvalidContexts.Counts.{total_of_entries, submitted, take_snapshot-run}
use js_sdks.Telemetry.Aggregation.{aggregate}
use js_sdks.Telemetry.Aggregation.Counts.{reported, occurrences, reported-aggregate}
use js_sdks.Telemetry.Collector.{
  Collector, tracks, flush_ends, successful, close_started, close_ended,
}
use js_sdks.Telemetry.Collector
use js_sdks.Telemetry.Collector.Closed.{IsClosed, run_of_closed_collector}
use js_sdks.Telemetry.LimitedMap.{LimitedMap, get, set}
use js_sdks.Telemetry.LimitedMap.Set.{set-new}
use js_sdks.Telemetry.Utf8
use js_sdks.Telemetry.Utf8.{encode_manually, utf8_byte_length}
use js_sdks.Telemetry.Utf8.Length.{length-encode_manually}

abbrev queue : EventQueue ℕ
queue = record { limit = 2; start_time = none; events = 9 ∷ []; dropped_count = 4 }

take_snapshot-push_all_example :
    let taken =
      take_snapshot 30 (push_all (EventQueue.clear queue) ((10, 1 ∷ 2 ∷ []) ∷ (20, 3 ∷ []) ∷ [])) in
    (taken.0.events ≡ 2 ∷ 3 ∷ []) × (taken.0.dropped_count ≡ 1) × (taken.1 ≡ EventQueue.clear queue)
take_snapshot-push_all_example =
    take_snapshot-push_all 30 queue ((10, 1 ∷ 2 ∷ []) ∷ (20, 3 ∷ []) ∷ [])

abbrev tracked : TrackedEventQueue ℕ
tracked = record { entries = 5 ∷ []; raised = [] }

abbrev tracked_calls : List (Admission ℕ)
tracked_calls =
    admitted 1 (details_not_reportable ∷ []) ∷ dropped (details_not_reportable ∷ []) ∷ []

add_all_of_clear_example :
    ((add_all (TrackedEvents.clear tracked) tracked_calls).0.entries
      ≡ take events_per_batch (entries_of tracked_calls))
    × IsFresh [] (add_all (TrackedEvents.clear tracked) tracked_calls).1
    × ((w : Warning)
        → has (add_all (TrackedEvents.clear tracked) tracked_calls).1 w
          ≡ has (deserved 0 tracked_calls) w)
add_all_of_clear_example = add_all_of_clear tracked tracked_calls

abbrev calls : List Call
calls = recorded 1 (codes "A") ∷ recorded 2 (codes "B") ∷ recorded 3 (codes "A") ∷ []

take_snapshot-run_example :
    (total_of_entries (InvalidContexts.take_snapshot 9 (run calls empty)).0 ≡ 3)
    × (length (InvalidContexts.take_snapshot 9 (run calls empty)).0 ≤ suc sample_limit)
    × ((InvalidContexts.take_snapshot 9 (run calls empty)).1 ≡ empty)
unfolding submitted
take_snapshot-run_example = take_snapshot-run 9 calls

abbrev full : LimitedMap Text ℕ
full = record { limit = 1; entries = (codes "a", 1) ∷ []; dropped_count = 0 }

a_missing : get text_eq (codes "b") full.entries ≡ none
unfolding get text_eq
a_missing = refl

set-new_example :
    ((set text_eq (codes "b") 2 full).entries ≡ (codes "b", 2) ∷ [])
    × ((set text_eq (codes "b") 2 full).dropped_count ≡ 1)
set-new_example = set-new text_eq (codes "b") 2 full a_missing

a_known : get text_eq (codes "a") full.entries ≡ some 1
unfolding get text_eq
a_known = refl

-- Texts that are their own serialization.
abbrev evaluations : Snapshot Text
evaluations = record {
  start_time = 1;
  end_time = 2;
  events = codes "x" ∷ codes "y" ∷ codes "x" ∷ [];
  dropped_count = 0;
}

abbrev written : Text → Text
written s = s

reported-aggregate_example :
    reported written (codes "x") (aggregate written evaluations)
    ≡ occurrences written (codes "x") evaluations.events
reported-aggregate_example = reported-aggregate written (codes "x") evaluations

abbrev collector : Collector ℕ ℕ
collector = record {
  evaluation_queue = queue;
  tracked_queue = tracked;
  flush_interval_delay = 30000;
  initial_flush_interval_delay = 5000;
  flush_timeout = some 30000;
  collect_events = true;
  started = true;
  flushes = 1;
  warnings = [];
}

run_of_closed_collector_example : IsClosed (
    Collector.run
      (tracks (admitted 1 []) ∷ flush_ends successful ∷ [])
      (close_ended (close_started collector)))
run_of_closed_collector_example =
    run_of_closed_collector (tracks (admitted 1 []) ∷ flush_ends successful ∷ []) collector

-- An A, an e with an acute accent, and a pair of surrogates.
length-encode_manually_example :
    length (encode_manually (0x41 ∷ 0xe9 ∷ 0xd83d ∷ 0xde00 ∷ []))
    ≡ utf8_byte_length (0x41 ∷ 0xe9 ∷ 0xd83d ∷ 0xde00 ∷ [])
length-encode_manually_example =
    length-encode_manually (0x41 ∷ 0xe9 ∷ 0xd83d ∷ 0xde00 ∷ [])
      (omega arith, (omega arith, (omega arith, (omega arith, tt))))

bytes : encode_manually (0xe9 ∷ 0xd83d ∷ 0xde00 ∷ []) ≡ 0xc3 ∷ 0xa9 ∷ 0xf0 ∷ 0x9f ∷ 0x98 ∷ 0x80 ∷ []
unfolding encode_manually Utf8.bytes_of Utf8.recombine
bytes = refl
