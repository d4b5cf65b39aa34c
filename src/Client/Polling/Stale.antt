-- ===== src/Client/Polling/Stale.antt =====
-- First requests that end after their connection was closed or replaced.
use js_sdks.Common.{
  ℕ, suc, ◌≤◌, ◌≡◌, refl, false, Option, none, some, Text, ◌==◌, if_both, not, arith,
}
use js_sdks.Client.Polling.{
  set_of, Transport, resolve_polling_interval, end_current_connection, close,
  schedule_polling_interval, fetch_ended, schedule_after, connect, session_known, first_fetch_ended,
  fetch_configs,
}

-- A configured interval is used from the least one on, and another is not below it; the default is used
-- where none is configured. With a default and a minimum above zero, the timer always runs.
pub resolve_polling_interval-bounds :
    (default minimum : ℕ) (configured : Option ℕ)
    → minimum ≤ default
    → minimum ≤ (resolve_polling_interval default minimum configured).seconds
unfolding resolve_polling_interval
resolve_polling_interval-bounds default minimum none h = h
resolve_polling_interval-bounds default minimum (some n) h = ground arith

module _ {C S : Type 0} where
  -- No unrecoverable error yet, and an interval above zero.
  abbrev pub IsSound : Transport C S → Type 0
  IsSound t = (t.fatal_error ≡ false) × ((t.interval_seconds == 0) ≡ false)

  schedule_after-timer :
      (context : C) (t : Transport C S)
      → IsSound t
      → ((schedule_after context t).timer ≡ some context) × IsSound (schedule_after context t)
  unfolding schedule_after schedule_polling_interval
  schedule_after-timer context t (sound, positive) = rw (sound, positive) (refl, (refl, positive))

  session_known-IsSound :
      (generation : ℕ) (context : C) (t : Transport C S)
      → IsSound t
      → IsSound (session_known generation context t)
  unfolding session_known fetch_configs
  session_known-IsSound generation context t h =
      if_both IsSound (not (generation == t.generation)) t _ h
        (if_both IsSound t.fatal_error t _ h h)

  first_fetch_ended-timer :
      (context : C) (set : S) (timestamp : Text) (t : Transport C S)
      → IsSound t
      → ((first_fetch_ended context (set_of set timestamp) t).timer ≡ some context)
        × IsSound (first_fetch_ended context (set_of set timestamp) t)
  unfolding first_fetch_ended fetch_ended
  first_fetch_ended-timer context set timestamp t h =
      schedule_after-timer context (fetch_ended (set_of set timestamp) t) h

  -- A first request that is under way when its connection ends still decides what is polled. When the
  -- transport is closed before a first request brings a set, the timer runs again afterwards. When the
  -- transport is connected for a new context, whose first request brings a set before the one of the
  -- old context does, the timer polls for the old context from then on. The transport has an interval
  -- and no unrecoverable error.
  pub timer_of_stale :
      (old new : C) (new_set old_set : S) (new_time old_time : Text) (t : Transport C S)
      → t.fatal_error ≡ false
      → (t.interval_seconds == 0) ≡ false
      → ((first_fetch_ended old (set_of old_set old_time) (close t)).timer ≡ some old)
        × ((first_fetch_ended old (set_of old_set old_time) (
              first_fetch_ended new
                (set_of new_set new_time)
                (session_known (suc t.generation) new (connect t)))).timer
            ≡ some old)
  unfolding connect close end_current_connection
  timer_of_stale old new new_set old_set new_time old_time t sound positive =
      let known = session_known-IsSound (suc t.generation) new (connect t) (sound, positive) in
      let replaced = session_known (suc t.generation) new (connect t) in
      (
        (first_fetch_ended-timer old old_set old_time (close t) (sound, positive)).0,
        (first_fetch_ended-timer old old_set old_time _
            (first_fetch_ended-timer new new_set new_time replaced known).1).0,
      )
