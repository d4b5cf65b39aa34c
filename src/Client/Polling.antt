-- ===== src/Client/Polling.antt =====
-- The transport that polls: packages/js-client-core/src/PollingTransport.ts,
-- packages/shared/src/transport/AbstractPollingTransport.ts and
-- packages/shared/src/transport/pollingInterval.ts
-- A part of a method up to an `await`, and after it, is a step of its own.
pub mod Fatal
pub mod Stale
use js_sdks.Common.{
  ℕ, zero, suc, ◌≤◌, Bool, true, false, not, ◌&&◌, Option, none, some, List, [], ◌∷◌, ◌++◌, Text,
  ltb, leb, ◌==◌, if◌then◌else◌,
}

-- What a request comes to: a set with its timestamp, another good status, a bad status, a fetch that
-- is not allowed, or another error.
pub data Response (S : Type 0) : Type 0 where
  set_of : S → Text → Response S
  no_news : Response S
  status : ℕ → Response S
  not_allowed : Response S
  failed : Response S

-- `C` is the type of contexts, and `S` the one of sets of configs.
pub data Output (C S : Type 0) : Type 0 where
  requested : C → Option Text → Output C S
  received : S → Output C S
  connection_error : Output C S

-- The fields of the transport: `timer` is the context that the interval's callback fetches for, while
-- it runs, and `has_handle` tells if `pollingInterval` is set.
pub record Transport (C S : Type 0) : Type 0 where
  pub fatal_error : Bool
  pub timer : Option C
  pub has_handle : Bool
  pub interval_seconds : ℕ
  pub last_update : Option Text
  pub generation : ℕ
  pub outputs : List (Output C S)

pub record ResolvedInterval : Type 0 where
  pub seconds : ℕ
  pub warns : Bool

-- `resolvePollingInterval`, with the default seconds first and the least ones next.
unfoldable pub resolve_polling_interval : ℕ → ℕ → Option ℕ → ResolvedInterval
resolve_polling_interval default minimum none = record { seconds = default; warns = false }
resolve_polling_interval default minimum (some configured) =
    if leb minimum configured
    then record { seconds = configured; warns = false }
    else record { seconds = minimum; warns = true }

-- `isStatusFatal`; a status is ok from 200 to 299.
unfoldable pub is_status_fatal : ℕ → Bool
is_status_fatal code = leb 400 code && ltb code 500 && not (code == 429)

module _ {C S : Type 0} where
  abbrev pub put : Output C S → Transport C S → Transport C S
  put output t = record t { outputs = t.outputs ++ output ∷ [] }

  unfoldable pub end_current_connection : Transport C S → Transport C S
  end_current_connection t = record t {
    generation = suc t.generation;
    timer = none;
    last_update = none;
  }

  unfoldable pub close : Transport C S → Transport C S
  unfolding end_current_connection
  close t = record (end_current_connection t) { timer = none; has_handle = false }

  unfoldable pub schedule_polling_interval : C → Transport C S → Transport C S
  schedule_polling_interval context t =
      if t.interval_seconds == 0
      then record t { timer = none }
      else record t { timer = some context; has_handle = true }

  -- `fetchConfigs` up to its request; a transport with an unrecoverable error sends none.
  unfoldable pub fetch_configs : C → Transport C S → Transport C S
  fetch_configs context t = if t.fatal_error then t else put (requested context t.last_update) t

  -- The handling of an error, which throws: a fatal one closes the transport.
  abbrev pub fail : Bool → Transport C S → Transport C S
  fail true t = put connection_error (close (record t { fatal_error = true }))
  fail false t = if t.fatal_error then put connection_error t else t

  -- `fetchConfigs` once its request has come to something.
  unfoldable pub fetch_ended : Response S → Transport C S → Transport C S
  unfolding close is_status_fatal
  fetch_ended (set_of set timestamp) t =
      put (received set) (record t { last_update = some timestamp })
  fetch_ended no_news t = t
  fetch_ended (status code) t = fail (is_status_fatal code) t
  fetch_ended not_allowed t = fail true t
  fetch_ended failed t = fail false t

  -- The `finally` of `connect`.
  unfoldable pub schedule_after : C → Transport C S → Transport C S
  unfolding schedule_polling_interval
  schedule_after context t = if t.fatal_error then t else schedule_polling_interval context t

  -- `connect` up to the `await` of the session, with the generation that it keeps.
  unfoldable pub connect : Transport C S → Transport C S
  unfolding end_current_connection
  connect t = end_current_connection t

  -- `connect` once the session is known; with an unrecoverable error nothing is awaited.
  unfoldable pub session_known : ℕ → C → Transport C S → Transport C S
  unfolding fetch_configs
  session_known generation context t =
      if not (generation == t.generation) then t else fetch_configs context t

  -- `connect` once its first request has come to something.
  unfoldable pub first_fetch_ended : C → Response S → Transport C S → Transport C S
  unfolding fetch_ended schedule_after
  first_fetch_ended context response t = schedule_after context (fetch_ended response t)

  abbrev pub fetch_for : Option C → Transport C S → Transport C S
  fetch_for none t = t
  fetch_for (some context) t = fetch_configs context t

  -- The timer fires.
  unfoldable pub tick : Transport C S → Transport C S
  unfolding fetch_configs
  tick t = fetch_for t.timer t

pub data Step (C S : Type 0) : Type 0 where
  connects closes ticks : Step C S
  knows_session : ℕ → C → Step C S
  ends_first : C → Response S → Step C S
  ends_poll : Response S → Step C S

module _ {C S : Type 0} where
  unfoldable pub step : Step C S → Transport C S → Transport C S
  unfolding connect close tick session_known first_fetch_ended fetch_ended
  step connects t = connect t
  step closes t = close t
  step ticks t = tick t
  step (knows_session generation context) t = session_known generation context t
  step (ends_first context response) t = first_fetch_ended context response t
  step (ends_poll response) t = fetch_ended response t

  unfoldable pub run : List (Step C S) → Transport C S → Transport C S
  unfolding step
  run [] t = t
  run (s ∷ steps) t = run steps (step s t)
