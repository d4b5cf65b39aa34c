-- ===== src/Telemetry/Collector.antt =====
-- packages/shared/src/telemetry/TelemetryEventCollector.ts, without the `flush` that its subclasses
-- define: each part of a method up to an `await` and after it is a step of its own.
pub mod Closed
use js_sdks.Common.{
  ℕ, suc, Bool, true, false, not, ◌||◌, Option, none, some, List, [], ◌∷◌, ◌++◌, if◌then◌else◌,
}
use js_sdks.Telemetry.EventQueue.{EventQueue}
use js_sdks.Telemetry.EventQueue
use js_sdks.Telemetry.TrackedEvents.{TrackedEventQueue, Admission, Warning}
use js_sdks.Telemetry.TrackedEvents

-- The fields of `TelemetryEventCollector`; `flush_timeout` is the delay of a pending timer, `flushes`
-- the number of calls of `flush`, and `warnings` those logged of tracked events.
pub record Collector (E T : Type 0) : Type 0 where
  pub evaluation_queue : EventQueue E
  pub tracked_queue : TrackedEventQueue T
  pub flush_interval_delay : ℕ
  pub initial_flush_interval_delay : ℕ
  pub flush_timeout : Option ℕ
  pub collect_events : Bool
  pub started : Bool
  pub flushes : ℕ
  pub warnings : List Warning

-- What `flush` comes to, an error being caught as a response that is not fatal.
pub data Response : Type 0 where
  successful unsuccessful fatal thrown : Response

abbrev pub is_fatal : Response → Bool
is_fatal fatal = true
is_fatal _ = false

module _ {E T : Type 0} where
  abbrev pub call_flush : Collector E T → Collector E T
  call_flush c = record c { flushes = suc c.flushes }

  unfoldable pub start : Collector E T → Collector E T
  start c =
      if c.started || not c.collect_events
      then c
      else record c { started = true; flush_timeout = some c.initial_flush_interval_delay }

  unfoldable pub tracked_event : Admission T → Collector E T → Collector E T
  tracked_event admission c =
      if c.collect_events
      then (let (queue, first) = TrackedEvents.add c.tracked_queue admission in
          record c { tracked_queue = queue; warnings = c.warnings ++ first })
      else c

  -- `flushAndScheduleNext` when the timer fires, up to the `await`.
  unfoldable pub flush_started : Collector E T → Collector E T
  flush_started c = if c.collect_events then call_flush c else c

  -- `close` up to the `await`.
  unfoldable pub close_started : Collector E T → Collector E T
  close_started c = call_flush (record c { collect_events = false; flush_timeout = none })

  -- `flushAndScheduleNext` after the `await`.
  unfoldable pub flush_ended : Response → Collector E T → Collector E T
  unfolding close_started
  flush_ended response c =
      if is_fatal response
      then close_started (record c { collect_events = false })
      else if c.collect_events
      then record c { flush_timeout = some c.flush_interval_delay }
      else c

  -- `close` after the `await`, whether `flush` threw or not.
  unfoldable pub close_ended : Collector E T → Collector E T
  close_ended c = record c {
    evaluation_queue = EventQueue.clear c.evaluation_queue;
    tracked_queue = TrackedEvents.clear c.tracked_queue;
  }

-- What may happen to a collector, in any order.
pub data Step (T : Type 0) : Type 0 where
  starts : Step T
  tracks : Admission T → Step T
  flush_starts : Step T
  flush_ends : Response → Step T
  close_starts : Step T
  close_ends : Step T

module _ {E T : Type 0} where
  unfoldable pub step : Step T → Collector E T → Collector E T
  step starts c = start c
  step (tracks admission) c = tracked_event admission c
  step flush_starts c = flush_started c
  step (flush_ends response) c = flush_ended response c
  step close_starts c = close_started c
  step close_ends c = close_ended c

  unfoldable pub run : List (Step T) → Collector E T → Collector E T
  run [] c = c
  run (s ∷ steps) c = run steps (step s c)
