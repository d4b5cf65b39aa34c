-- ===== src/EventSource/Client/Closing.antt =====
-- A client that was closed stays quiet until it is connected again.
use js_sdks.Common.{
  ℕ, ◌≡◌, ◌≢◌, refl, ap, Bool, true, not, ◌||◌, Option, none, some, List, [], ◌∷◌, Text, All, leb,
  ◌==◌, Bool-cases, if_true, inl, inr, arith,
}
use js_sdks.EventSource.Parser.{Callback, on_event, on_retry, on_comment, parse, finish}
use js_sdks.EventSource.Client.{
  opened, fire, handle_opened, ClientError, missing_response_body, stream_closed, Call,
  call_on_connect, call_on_disconnect, call_on_message, Client, Options, Reaction, nothing,
  call_close, call_connect, close, notify, disconnected, schedule_reconnect, fetch_failed,
  handle_fetch_response, handle_callback, handle_callbacks, chunk_read, stream_ended, timer_fired,
  Input, connect_called, close_called, responded, failed, read, ended, time_passed, step, run,
  is_abort,
}

or_true : (a b : Bool) → b ≡ true → (a || b) ≡ true
or_true a b h = ground arith

module _ (options : Options) where
  -- The user's callbacks do not connect the client.
  abbrev pub NeverConnects : Type 0
  NeverConnects = (call : Call) → options.react call ≢ call_connect

  -- The client is aborted, has no timer and has made this many connections.
  pub record IsQuiet (n : ℕ) (c : Client) : Type 0 where
    pub aborted : c.aborted ≡ true
    pub no_timer : c.timer ≡ none
    pub connections : c.connections ≡ n

  abbrev pub IsOther : Input options → Type 0
  IsOther input = input ≢ connect_called

  notify-IsQuiet :
      NeverConnects
      → (n : ℕ) (call : Call) (c : Client) (r : Reaction) → options.react call ≡ r
      → IsQuiet n c
      → IsQuiet n (notify options call c)
  unfolding notify close
  notify-IsQuiet never n call c nothing e q =
      rw (e, notify)
        (record { aborted = q.aborted; no_timer = q.no_timer; connections = q.connections })
  notify-IsQuiet never n call c call_close e q =
      rw (e, notify) (record { aborted = refl; no_timer = refl; connections = q.connections })
  notify-IsQuiet never n call c call_connect e q = absurd (never call e)

  disconnected-IsQuiet :
      NeverConnects → (n : ℕ) (c : Client) → IsQuiet n c → IsQuiet n (disconnected options c)
  unfolding disconnected
  disconnected-IsQuiet never n c q =
      notify-IsQuiet never n call_on_disconnect _ _ refl
        (record { aborted = q.aborted; no_timer = refl; connections = q.connections })

  schedule_reconnect_of_quiet :
      (n : ℕ) (status : Option ℕ) (error : Option ClientError) (c : Client)
      → IsQuiet n c
      → schedule_reconnect options status error c ≡ c
  unfolding schedule_reconnect
  schedule_reconnect_of_quiet n status error c q = if_true _ _ _ q.aborted

  pub close-IsQuiet : (n : ℕ) (c : Client) → c.connections ≡ n → IsQuiet n (close c)
  unfolding close
  close-IsQuiet n c e = record { aborted = refl; no_timer = refl; connections = e }

  fetch_failed_of_quiet :
      (n : ℕ) (error : ClientError) (c : Client)
      → IsQuiet n c
      → fetch_failed options error c ≡ close c
  unfolding fetch_failed
  fetch_failed_of_quiet n error c q =
      if_true _ _ _ (or_true (is_abort options error) c.aborted q.aborted)

  fetch_failed-IsQuiet :
      (n : ℕ) (error : ClientError) (c : Client)
      → IsQuiet n c
      → IsQuiet n (fetch_failed options error c)
  fetch_failed-IsQuiet n error c q =
      rw (fetch_failed_of_quiet n error c q) (close-IsQuiet n c q.connections)

  schedule_reconnect-IsQuiet :
      (n : ℕ) (status : Option ℕ) (error : Option ClientError) (c : Client)
      → IsQuiet n c
      → IsQuiet n (schedule_reconnect options status error c)
  schedule_reconnect-IsQuiet n status error c q =
      rw (schedule_reconnect_of_quiet n status error c q) q

  opened-IsQuiet :
      NeverConnects → (n : ℕ) (c : Client) → IsQuiet n c → IsQuiet n (handle_opened options c)
  unfolding handle_opened
  opened-IsQuiet never n c q =
      let notified =
        notify-IsQuiet never n call_on_connect (record c { ready_state = opened }) _ refl
          (record { aborted = q.aborted; no_timer = q.no_timer; connections = q.connections }) in
      record {
        aborted = notified.aborted;
        no_timer = notified.no_timer;
        connections = notified.connections;
      }

  handle_fetch_response-IsQuiet :
      NeverConnects
      → (n status : ℕ) (has_body : Bool) (c : Client) → IsQuiet n c
      → IsQuiet n (handle_fetch_response options status has_body c)
  unfolding handle_fetch_response
  handle_fetch_response-IsQuiet never n status has_body c q = elim (Bool-cases (status == 204)) [
    | inl e ↦ rw e (disconnected-IsQuiet never n c q)
    | inr e ↦ rw e (elim (Bool-cases (leb 400 status)) [
      | inl f ↦ rw f (schedule_reconnect-IsQuiet n (some status) none c q)
      | inr f ↦ rw f (elim (Bool-cases (not has_body)) [
        | inl g ↦ rw g (fetch_failed-IsQuiet n missing_response_body c q)
        | inr g ↦ rw g (opened-IsQuiet never n c q)
      ])
    ])
  ]

  handle_callback-IsQuiet :
      NeverConnects
      → (n : ℕ) (callback : Callback) (c : Client) → IsQuiet n c
      → IsQuiet n (handle_callback options callback c)
  unfolding handle_callback
  handle_callback-IsQuiet never n (on_event none type text) c q =
      notify-IsQuiet never n _ c _ refl q
  handle_callback-IsQuiet never n (on_event (some id) type text) c q =
      notify-IsQuiet never n (call_on_message (some id) type text)
        (record c { last_event_id = some id }) _ refl
        (record { aborted = q.aborted; no_timer = q.no_timer; connections = q.connections })
  handle_callback-IsQuiet never n (on_retry delay) c q = record {
    aborted = q.aborted;
    no_timer = q.no_timer;
    connections = q.connections;
  }
  handle_callback-IsQuiet never n (on_comment comment) c q = notify-IsQuiet never n _ c _ refl q

  handle_callbacks-IsQuiet :
      NeverConnects
      → (n : ℕ) (callbacks : List Callback) (c : Client) → IsQuiet n c
      → IsQuiet n (handle_callbacks options callbacks c)
  unfolding handle_callbacks
  handle_callbacks-IsQuiet never n [] c q = q
  handle_callbacks-IsQuiet never n (callback ∷ callbacks) c q =
      handle_callbacks-IsQuiet never n callbacks (handle_callback options callback c)
        (handle_callback-IsQuiet never n callback c q)

  chunk_read-IsQuiet :
      NeverConnects
      → (n : ℕ) (chunk : Text) (c : Client) → IsQuiet n c
      → IsQuiet n (chunk_read options chunk c)
  unfolding chunk_read
  chunk_read-IsQuiet never n chunk c q =
      handle_callbacks-IsQuiet never n (parse c.parser chunk).1
        (record c { parser = (parse c.parser chunk).0 })
        (record { aborted = q.aborted; no_timer = q.no_timer; connections = q.connections })

  stream_ended-IsQuiet :
      (n status : ℕ) (c : Client) → IsQuiet n c → IsQuiet n (stream_ended options status c)
  unfolding stream_ended
  stream_ended-IsQuiet n status c q =
      schedule_reconnect-IsQuiet n (some status) (some stream_closed)
        (record c { parser = finish c.parser })
        (record { aborted = q.aborted; no_timer = q.no_timer; connections = q.connections })

  timer_fired_of_none : (c : Client) → c.timer ≡ none → timer_fired options c ≡ c
  unfolding timer_fired
  timer_fired_of_none c h = ap (fire options c) h

  step-IsQuiet :
      NeverConnects
      → (n : ℕ) (input : Input options) (c : Client) → IsOther input
      → IsQuiet n c
      → IsQuiet n (step options input c)
  unfolding step
  step-IsQuiet never n connect_called c other q = absurd (other refl)
  step-IsQuiet never n close_called c other q = close-IsQuiet n c q.connections
  step-IsQuiet never n (responded status has_body) c other q =
      handle_fetch_response-IsQuiet never n status has_body c q
  step-IsQuiet never n (failed request error) c other q = fetch_failed-IsQuiet n error c q
  step-IsQuiet never n (read chunk) c other q = chunk_read-IsQuiet never n chunk c q
  step-IsQuiet never n (ended status) c other q = stream_ended-IsQuiet n status c q
  step-IsQuiet never n time_passed c other q = rw (timer_fired_of_none c q.no_timer) q

  pub run-IsQuiet :
      NeverConnects
      → (n : ℕ) (inputs : List (Input options)) (c : Client) → All IsOther inputs
      → IsQuiet n c
      → IsQuiet n (run options inputs c)
  unfolding run
  run-IsQuiet never n [] c others q = q
  run-IsQuiet never n (input ∷ inputs) c (other, others) q =
      run-IsQuiet never n inputs (step options input c) others
        (step-IsQuiet never n input c other q)

  -- After a client is closed, whatever still happens to it but a call of `connect`, late responses,
  -- errors and chunks included, it makes no further connection, has no timer for one, and stays
  -- aborted; if none of the user's callbacks calls `connect`.
  pub run_of_closed :
      NeverConnects
      → (inputs : List (Input options)) (c : Client) → All IsOther inputs
      → IsQuiet c.connections (run options inputs (close c))
  run_of_closed never inputs c others =
      run-IsQuiet never c.connections inputs (close c) others (close-IsQuiet c.connections c refl)
