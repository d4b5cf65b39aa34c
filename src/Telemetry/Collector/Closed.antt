-- ===== src/Telemetry/Collector/Closed.antt =====
-- A collector that was closed neither collects nor schedules.
use js_sdks.Common.{
  ◌≡◌, refl, Bool, true, false, not, ◌||◌, none, List, [], ◌∷◌, if_true, if_false, arith,
  Bool-cases, inl, inr,
}
use js_sdks.Telemetry.TrackedEvents.{Admission}
use js_sdks.Telemetry.TrackedEvents
use js_sdks.Telemetry.Collector.{
  Collector, Response, is_fatal, start, tracked_event, flush_started, flush_ended, close_started,
  close_ended, Step, starts, tracks, flush_starts, flush_ends, close_starts, close_ends, step, run,
}

or_not-false : (a b : Bool) → b ≡ false → (a || not b) ≡ true
or_not-false a b h = ground arith

module _ {E T : Type 0} where
  -- It collects nothing, has no timer, and holds no tracked event.
  pub record IsClosed (c : Collector E T) : Type 0 where
    pub idle : c.collect_events ≡ false
    pub no_timer : c.flush_timeout ≡ none
    pub no_events : c.tracked_queue.entries ≡ []

  start-IsClosed : (c : Collector E T) → IsClosed c → start c ≡ c
  unfolding start
  start-IsClosed c h = if_true _ _ _ (or_not-false c.started c.collect_events h.idle)

  tracked_event_of_closed :
      (a : Admission T) (c : Collector E T) → IsClosed c → tracked_event a c ≡ c
  unfolding tracked_event
  tracked_event_of_closed a c h = if_false _ _ _ h.idle

  flush_started_of_closed : (c : Collector E T) → IsClosed c → flush_started c ≡ c
  unfolding flush_started
  flush_started_of_closed c h = if_false _ _ _ h.idle

  close_started-IsClosed :
      (c : Collector E T) → c.tracked_queue.entries ≡ [] → IsClosed (close_started c)
  unfolding close_started
  close_started-IsClosed c h = record { idle = refl; no_timer = refl; no_events = h }

  flush_ended-IsClosed :
      (response : Response) (c : Collector E T) → IsClosed c → IsClosed (flush_ended response c)
  unfolding flush_ended
  flush_ended-IsClosed response c h = elim (Bool-cases (is_fatal response)) [
    | inl e ↦ rw e (close_started-IsClosed (record c { collect_events = false }) h.no_events)
    | inr e ↦ rw (e, if_false c.collect_events _ c h.idle) h
  ]

  close_ended-IsClosed : (c : Collector E T) → IsClosed c → IsClosed (close_ended c)
  unfolding close_ended TrackedEvents.clear
  close_ended-IsClosed c h = record { idle = h.idle; no_timer = h.no_timer; no_events = refl }

  step-IsClosed : (s : Step T) (c : Collector E T) → IsClosed c → IsClosed (step s c)
  unfolding step
  step-IsClosed starts c h = rw (start-IsClosed c h) h
  step-IsClosed (tracks a) c h = rw (tracked_event_of_closed a c h) h
  step-IsClosed flush_starts c h = rw (flush_started_of_closed c h) h
  step-IsClosed (flush_ends response) c h = flush_ended-IsClosed response c h
  step-IsClosed close_starts c h = close_started-IsClosed c h.no_events
  step-IsClosed close_ends c h = close_ended-IsClosed c h

  run-IsClosed : (steps : List (Step T)) (c : Collector E T) → IsClosed c → IsClosed (run steps c)
  unfolding run
  run-IsClosed [] c h = h
  run-IsClosed (s ∷ steps) c h = run-IsClosed steps (step s c) (step-IsClosed s c h)

  closed : (c : Collector E T) → IsClosed (close_ended (close_started c))
  unfolding close_ended close_started TrackedEvents.clear
  closed c = record { idle = refl; no_timer = refl; no_events = refl }

  -- After a collector was closed, and the flush that closing it makes has ended, it collects no
  -- tracked event and has no timer for a flush, whatever calls and ends of earlier flushes follow.
  pub run_of_closed_collector :
      (steps : List (Step T)) (c : Collector E T)
      → IsClosed (run steps (close_ended (close_started c)))
  run_of_closed_collector steps c = run-IsClosed steps (close_ended (close_started c)) (closed c)
