-- ===== src/Telemetry/EventQueue.antt =====
-- packages/shared/src/telemetry/EventQueue.ts
pub mod Window
use js_sdks.Common.{
  ℕ, ◌+◌, ◌-◌, Option, none, some, List, [], ◌∷◌, ◌++◌, length, drop, or_else, if◌then◌else◌, ltb,
}

-- The fields of `EventQueue`; times are in milliseconds.
pub record EventQueue {ℓ} (E : Type ℓ) : Type ℓ where
  pub limit : ℕ
  pub start_time : Option ℕ
  pub events : List E
  pub dropped_count : ℕ

pub record Snapshot {ℓ} (E : Type ℓ) : Type ℓ where
  pub start_time : ℕ
  pub end_time : ℕ
  pub events : List E
  pub dropped_count : ℕ

-- The first `if` of `push`, at the time `now`.
unfoldable pub start_at : ℕ → Option ℕ → Option ℕ
start_at now none = some now
start_at now (some time) = some time

module _ {ℓ} {E : Type ℓ} where
  unfoldable pub init : Option ℕ → EventQueue E
  init limit = record {
    limit = or_else limit 1000;
    start_time = none;
    events = [];
    dropped_count = 0;
  }

  -- The second one: the oldest events make room for the new ones.
  unfoldable pub make_room : ℕ → EventQueue E → EventQueue E
  make_room added q =
      if ltb q.limit (length q.events + added)
      then record q {
        events = drop (length q.events + added - q.limit) q.events;
        dropped_count = q.dropped_count + (length q.events + added - q.limit);
      }
      else q

  abbrev pub append : EventQueue E → List E → EventQueue E
  append q es = record q { events = q.events ++ es }

  -- The queue afterwards, and its new length.
  unfoldable pub push : ℕ → EventQueue E → List E → EventQueue E × ℕ
  unfolding make_room start_at
  push now q new_events =
      let to_drop = length new_events - q.limit in
      let to_push = drop to_drop new_events in
      let started = record q {
        start_time = start_at now q.start_time;
        dropped_count = q.dropped_count + to_drop;
      } in
      let pushed = append (make_room (length to_push) started) to_push in
      (pushed, length pushed.events)

  unfoldable pub clear : EventQueue E → EventQueue E
  clear q = record q { events = []; start_time = none; dropped_count = 0 }

  unfoldable pub take_snapshot : ℕ → EventQueue E → Snapshot E × EventQueue E
  take_snapshot now q = (
    record {
      start_time = or_else q.start_time now;
      end_time = now;
      events = q.events;
      dropped_count = q.dropped_count;
    },
    record q { events = []; start_time = none; dropped_count = 0 },
  )

  -- Pushes, each with its time and its events.
  unfoldable pub push_all : EventQueue E → List (ℕ × List E) → EventQueue E
  unfolding push
  push_all q [] = q
  push_all q ((now, es) ∷ pushes) = push_all (push now q es).0 pushes
