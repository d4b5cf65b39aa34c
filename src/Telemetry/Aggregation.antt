-- ===== src/Telemetry/Aggregation.antt =====
-- packages/shared/src/telemetry/EventAggregator.ts
pub mod Counts
use js_sdks.Common.{ℕ, suc, Bool, true, false, List, [], ◌∷◌, map, Text, text_eq, if◌then◌else◌}
use js_sdks.Telemetry.EventQueue.{Snapshot}

-- An entry of the map: a serialized event, the last event that it was made of, and their number.
pub record Entry (E : Type 0) : Type 0 where
  pub serialized : Text
  pub event : E
  pub count : ℕ

pub record AggregatedEvent (E : Type 0) : Type 0 where
  pub start_time : ℕ
  pub end_time : ℕ
  pub count : ℕ
  pub event : E

-- `serialize` is `JSON.stringify`.
module _ {E : Type 0} (serialize : E → Text) where
  -- One pass of the loop: a known text keeps its place in the map, and a new one comes last.
  unfoldable pub count_event : E → List (Entry E) → List (Entry E)
  count_event event [] = record { serialized = serialize event; event = event; count = 1 } ∷ []
  count_event event (e ∷ es) =
      if text_eq e.serialized (serialize event)
      then record e { event = event; count = suc e.count } ∷ es
      else e ∷ count_event event es

  unfoldable pub count_events : List E → List (Entry E) → List (Entry E)
  unfolding count_event
  count_events [] es = es
  count_events (event ∷ events) es = count_events events (count_event event es)

  abbrev pub aggregated : Snapshot E → Entry E → AggregatedEvent E
  aggregated snapshot e = record {
    start_time = snapshot.start_time;
    end_time = snapshot.end_time;
    count = e.count;
    event = e.event;
  }

  -- With no events the map is empty, as the early return is.
  unfoldable pub aggregate : Snapshot E → List (AggregatedEvent E)
  aggregate snapshot = map (aggregated snapshot) (count_events snapshot.events [])
