-- ===== src/EventSource/Client/Tests.antt =====
-- The client on concrete inputs.
use js_sdks.Common.{◌≡◌, refl, true, false, none, some, [], ◌∷◌, ◌++◌, codes, ◌⊎◌}
use js_sdks.EventSource.Parser
use js_sdks.EventSource.Client.{
  closed, connecting, opened, failed, abort_error, fetch, call_on_error, call_on_connect, Call,
  Client, Options, Reaction, nothing, call_close, connect, close, schedule_reconnect, responded,
  read, ended, time_passed, connect_called, run, step, initiate_connection, notify,
  handle_fetch_response, handle_opened, stream_ended, start_timer, timer_fired,
}
use js_sdks.EventSource.Client.Closing.{IsQuiet, run_of_closed}
use js_sdks.EventSource.Client.Reconnecting.{
  IsWaiting, IsEnded, schedule_reconnect-cases, schedule_reconnect_in_close,
}
use js_sdks.EventSource.Client.Restarting.{run_of_restarted}

abbrev fresh : Client
fresh = record {
  ready_state = closed;
  last_event_id = none;
  reconnect_attempt = 0;
  aborted = false;
  timer = none;
  server_reconnection_time = 2000;
  connections = 0;
  parser = Parser.init;
  calls = [];
}

abbrev patient : Options
patient = record {
  should_reconnect = λ state. true;
  calculate_reconnect_delay = λ state. some 50;
  react = λ call. nothing;
}

abbrev closes_on_error : Call → Reaction
closes_on_error (call_on_error error) = call_close
closes_on_error _ = nothing

abbrev nervous : Options
nervous = record {
  should_reconnect = λ state. true;
  calculate_reconnect_delay = λ state. none;
  react = closes_on_error;
}

reconnects :
    (run patient (connect_called ∷ responded 200 true ∷ ended 200 ∷ time_passed ∷ []) fresh).calls
    ≡ fetch 0 none ∷ call_on_connect ∷ fetch 1 none ∷ []
unfolding run step connect initiate_connection handle_fetch_response handle_opened notify
    stream_ended schedule_reconnect start_timer timer_fired
reconnects = refl

run_of_closed_example :
    IsQuiet patient 0
      (run patient (responded 200 true ∷ read (codes "data: x") ∷ time_passed ∷ []) (close fresh))
run_of_closed_example =
    run_of_closed patient (λ call e. cc)
      (responded 200 true ∷ read (codes "data: x") ∷ time_passed ∷ []) fresh
      ((λ e. cc), ((λ e. cc), ((λ e. cc), tt)))

schedule_reconnect-cases_example :
    ((true ≡ true)
      × IsWaiting patient (some 50) 1 2000 (schedule_reconnect patient (some 500) none fresh))
    ⊎ ((true ≡ false) × IsEnded patient fresh (schedule_reconnect patient (some 500) none fresh))
schedule_reconnect-cases_example =
    schedule_reconnect-cases patient (λ call. refl) (some 500) none fresh refl

schedule_reconnect_in_close_example :
    ((schedule_reconnect nervous (some 500) none fresh).ready_state ≡ closed)
    × ((schedule_reconnect nervous (some 500) none fresh).timer ≡ some 2000)
schedule_reconnect_in_close_example =
    schedule_reconnect_in_close nervous (some 500) none fresh refl refl refl refl

-- A client whose stream is open.
abbrev streaming : Client
streaming = record fresh { ready_state = opened; connections = 1; calls = fetch 0 none ∷ [] }

run_of_restarted_example :
    ((connect (close streaming)).ready_state ≡ connecting)
    × ((connect (close streaming)).aborted ≡ false)
    × ((connect (close streaming)).calls ≡ (fetch 0 none ∷ []) ++ fetch 1 none ∷ [])
    × ((step patient (failed 0 abort_error) (connect (close streaming))).ready_state ≡ closed)
    × IsQuiet patient 2 (
        run patient
          (failed 0 abort_error ∷ responded 200 true ∷ time_passed ∷ [])
          (connect (close streaming)))
run_of_restarted_example =
    run_of_restarted patient (λ call e. cc) 0 (responded 200 true ∷ time_passed ∷ []) streaming refl
      ((λ e. cc), ((λ e. cc), tt))
