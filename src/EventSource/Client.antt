-- ===== src/EventSource/Client.antt =====
-- The connection of packages/eventsource/src/EventSourceClient.ts, with the calls that its promises,
-- its timer and its user make, one at a time.
pub mod Closing
pub mod Reconnecting
pub mod Restarting
pub mod Tests
use js_sdks.Common.{
  ℕ, suc, ◌+◌, Bool, true, false, not, ◌&&◌, ◌||◌, Option, none, some, List, [], ◌∷◌, ◌++◌, Text,
  ltb, leb, ◌==◌, if◌then◌else◌,
}
use js_sdks.EventSource.Parser.{Parser, Callback, on_event, on_retry, on_comment, parse, finish}
use js_sdks.EventSource.Parser

pub data ReadyState : Type 0 where
  connecting opened closed : ReadyState

-- The errors that the client handles or makes.
pub data ClientError : Type 0 where
  abort_error : ClientError
  other_error : ClientError
  missing_response_body : ClientError
  stream_closed : ClientError
  value_out_of_range : ClientError

-- What the client does to the outside: a request with the number of the connection and its header
-- `Last-Event-ID`, and the calls of the callbacks.
pub data Call : Type 0 where
  fetch : ℕ → Option Text → Call
  call_on_error : ClientError → Call
  call_on_connect : Call
  call_on_disconnect : Call
  call_on_message : Option Text → Option Text → Text → Call
  call_on_comment : Text → Call

-- The fields of `EventSourceClient`. `aborted` is the signal of the last `AbortController`, `timer`
-- the delay of a pending `reconnectTimeout`, `parser` that of the last response, and `calls` what
-- the client did, in order.
pub record Client : Type 0 where
  pub ready_state : ReadyState
  pub last_event_id : Option Text
  pub reconnect_attempt : ℕ
  pub aborted : Bool
  pub timer : Option ℕ
  pub server_reconnection_time : ℕ
  pub connections : ℕ
  pub parser : Parser
  pub calls : List Call

pub record ReconnectionState : Type 0 where
  pub attempt : ℕ
  pub status : Option ℕ
  pub error : Option ClientError
  pub server_reconnection_time : ℕ

-- What a callback does to the client that calls it.
pub data Reaction : Type 0 where
  nothing call_close call_connect : Reaction

-- The options of a client. A delay that is not finite or below zero is `none`, and others are in
-- whole milliseconds. `react` is what the user's callbacks do.
pub record Options : Type 0 where
  pub should_reconnect : ReconnectionState → Bool
  pub calculate_reconnect_delay : ReconnectionState → Option ℕ
  pub react : Call → Reaction

abbrev pub is_closed : ReadyState → Bool
is_closed closed = true
is_closed _ = false

abbrev pub log : Call → Client → Client
log call c = record c { calls = c.calls ++ call ∷ [] }

abbrev pub non_empty : Option Text → Option Text
non_empty none = none
non_empty (some []) = none
non_empty (some (d ∷ s)) = some (d ∷ s)

unfoldable pub initiate_connection : Client → Client
initiate_connection c =
    log (fetch c.connections (non_empty c.last_event_id))
      (record c { aborted = false; ready_state = connecting; connections = suc c.connections })

unfoldable pub connect : Client → Client
unfolding initiate_connection
connect c =
    if is_closed c.ready_state then initiate_connection (record c { reconnect_attempt = 0 }) else c

unfoldable pub close : Client → Client
close c = record c { timer = none; ready_state = closed; aborted = true }

module _ (options : Options) where
  -- A call of a callback, which may call a method of the client in turn.
  unfoldable pub notify : Call → Client → Client
  notify call c = elim (options.react call) [
    | nothing ↦ log call c
    | call_close ↦ close (log call c)
    | call_connect ↦ connect (log call c)
  ]

  unfoldable pub disconnected : Client → Client
  disconnected c = notify call_on_disconnect (record c { timer = none; ready_state = closed })

  abbrev pub is_in_range : Option ℕ → Bool
  is_in_range none = false
  is_in_range (some delay) = leb 1 delay && leb delay 3600000

  abbrev pub delay_or : ℕ → Option ℕ → ℕ
  delay_or default none = default
  delay_or default (some delay) = delay

  -- The end of `scheduleReconnect`.
  unfoldable pub start_timer : Option ℕ → Client → Client
  start_timer delay c =
      if is_in_range delay
      then record c { timer = some (delay_or 0 delay) }
      else (let notified = notify (call_on_error value_out_of_range) c in
          record notified { timer = some notified.server_reconnection_time })

  abbrev pub reconnection_state : Option ℕ → Option ClientError → Client → ReconnectionState
  reconnection_state status error c = record {
    attempt = suc c.reconnect_attempt;
    status = status;
    error = error;
    server_reconnection_time = c.server_reconnection_time;
  }

  unfoldable pub schedule_reconnect : Option ℕ → Option ClientError → Client → Client
  schedule_reconnect status error c =
      if c.aborted
      then c
      else (let state = reconnection_state status error c in
          let counted = record c { timer = none; reconnect_attempt = suc c.reconnect_attempt } in
          if options.should_reconnect state
          then start_timer (options.calculate_reconnect_delay state)
              (record counted { ready_state = connecting })
          else disconnected counted)

  abbrev pub is_abort : ClientError → Bool
  is_abort abort_error = true
  is_abort _ = false

  -- The `catch` of `initiateConnection`.
  unfoldable pub fetch_failed : ClientError → Client → Client
  fetch_failed error c =
      if is_abort error || c.aborted
      then close c
      else schedule_reconnect none (some error) (notify (call_on_error error) c)

  unfoldable pub handle_opened : Client → Client
  handle_opened c =
      let notified = notify call_on_connect (record c { ready_state = opened }) in
      record notified { reconnect_attempt = 0; parser = Parser.init }

  -- `handleFetchResponse` up to the stream.
  unfoldable pub handle_fetch_response : ℕ → Bool → Client → Client
  handle_fetch_response status has_body c =
      if status == 204
      then disconnected c
      else if leb 400 status
      then schedule_reconnect (some status) none c
      else if not has_body
      then fetch_failed missing_response_body c
      else handle_opened c

  -- The handlers that the client gives to its parser.
  unfoldable pub handle_callback : Callback → Client → Client
  handle_callback (on_event none type data_text) c = notify (call_on_message none type data_text) c
  handle_callback (on_event (some id) type data_text) c =
      notify (call_on_message (some id) type data_text) (record c { last_event_id = some id })
  handle_callback (on_retry delay) c = record c { server_reconnection_time = delay }
  handle_callback (on_comment comment) c = notify (call_on_comment comment) c

  unfoldable pub handle_callbacks : List Callback → Client → Client
  handle_callbacks [] c = c
  handle_callbacks (callback ∷ callbacks) c =
      handle_callbacks callbacks (handle_callback callback c)

  -- A chunk that `readResponseStream` reads.
  unfoldable pub chunk_read : Text → Client → Client
  chunk_read chunk c =
      let (parser, callbacks) = parse c.parser chunk in
      handle_callbacks callbacks (record c { parser = parser })

  -- The end of the stream.
  unfoldable pub stream_ended : ℕ → Client → Client
  stream_ended status c =
      schedule_reconnect (some status) (some stream_closed) (record c { parser = finish c.parser })

  abbrev pub fire : Client → Option ℕ → Client
  fire c none = c
  fire c (some delay) = initiate_connection (record c { timer = none })

  unfoldable pub timer_fired : Client → Client
  timer_fired c = fire c c.timer

  -- What may happen to a client. A request that fails is given by its number, which the `catch` does not
  -- know.
  pub data Input : Type 0 where
    connect_called : Input
    close_called : Input
    responded : ℕ → Bool → Input
    failed : ℕ → ClientError → Input
    read : Text → Input
    ended : ℕ → Input
    time_passed : Input

  unfoldable pub step : Input → Client → Client
  step connect_called c = connect c
  step close_called c = close c
  step (responded status has_body) c = handle_fetch_response status has_body c
  step (failed request error) c = fetch_failed error c
  step (read chunk) c = chunk_read chunk c
  step (ended status) c = stream_ended status c
  step time_passed c = timer_fired c

  unfoldable pub run : List Input → Client → Client
  run [] c = c
  run (input ∷ inputs) c = run inputs (step input c)
