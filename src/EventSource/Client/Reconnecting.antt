-- ===== src/EventSource/Client/Reconnecting.antt =====
-- Whether and when a client connects again.
use js_sdks.Common.{
  ℕ, suc, ◌≤◌, ◌<◌, ◌≡◌, refl, ap, ◌∙◌, true, false, ◌&&◌, Option, none, some, [], ◌∷◌, ◌++◌, leb,
  if◌then◌else◌, Bool-cases, if_true, if_false, inl, inr, ◌⊎◌, arith,
}
use js_sdks.EventSource.Client.{
  closed, connecting, ClientError, value_out_of_range, Call, call_on_error, call_on_disconnect,
  Client, Options, nothing, call_close, log, close, notify, disconnected, start_timer,
  reconnection_state, schedule_reconnect,
}

module _ (options : Options) where
  -- The user's callbacks do nothing to the client.
  abbrev pub IsPassive : Type 0
  IsPassive = (call : Call) → options.react call ≡ nothing

  notify_of_passive : IsPassive → (call : Call) (c : Client) → notify options call c ≡ log call c
  unfolding notify
  notify_of_passive passive call c = rw (passive call, notify) refl

  -- No delay from a millisecond to an hour was asked for.
  abbrev pub IsOutOfRange : Option ℕ → Type 0
  IsOutOfRange none = Unit
  IsOutOfRange (some delay) = (delay < 1) ⊎ (3600000 < delay)

  -- The delay that was asked for, if that is from a millisecond to an hour, and that of the server
  -- if it is not.
  abbrev pub IsDelay : Option ℕ → ℕ → ℕ → Type 0
  IsDelay asked server delay =
      ((asked ≡ some delay) × (1 ≤ delay) × (delay ≤ 3600000))
      ⊎ (IsOutOfRange asked × (delay ≡ server))

  -- The client waits for its next connection.
  pub record IsWaiting (asked : Option ℕ) (attempt server : ℕ) (c : Client) : Type 0 where
    pub state : c.ready_state ≡ connecting
    pub not_aborted : c.aborted ≡ false
    pub delay : ℕ
    pub timer : c.timer ≡ some delay
    pub allowed : IsDelay asked server delay
    pub attempts : c.reconnect_attempt ≡ attempt

  out_of_range : (d : ℕ) → (leb 1 d && leb d 3600000) ≡ false → IsOutOfRange (some d)
  out_of_range d h = ground arith

  start_timer-IsWaiting :
      IsPassive
      → (asked : Option ℕ) (c : Client) → c.ready_state ≡ connecting
      → c.aborted ≡ false
      → IsWaiting asked c.reconnect_attempt c.server_reconnection_time (start_timer options asked c)
  unfolding start_timer
  start_timer-IsWaiting passive none c s a =
      rw (notify_of_passive passive (call_on_error value_out_of_range) c) (record {
        state = s;
        not_aborted = a;
        delay = c.server_reconnection_time;
        timer = refl;
        allowed = inr (tt, refl);
        attempts = refl;
      })
  start_timer-IsWaiting passive (some d) c s a = elim (Bool-cases (leb 1 d && leb d 3600000)) [
    | inl good ↦ rw good (record {
      state = s;
      not_aborted = a;
      delay = d;
      timer = refl;
      allowed = inl (refl, ground arith, ground arith);
      attempts = refl;
    })
    | inr bad ↦
        rw (bad, notify_of_passive passive (call_on_error value_out_of_range) c)
          (record {
            state = s;
            not_aborted = a;
            delay = c.server_reconnection_time;
            timer = refl;
            allowed = inr (out_of_range d bad, refl);
            attempts = refl;
          })
  ]

  schedule_reconnect_of_live :
      (status : Option ℕ) (error : Option ClientError) (c : Client)
      → c.aborted ≡ false
      → schedule_reconnect options status error c ≡ (
          if options.should_reconnect (reconnection_state options status error c)
          then start_timer options
              (options.calculate_reconnect_delay (reconnection_state options status error c))
              (record c {
                timer = none;
                reconnect_attempt = suc c.reconnect_attempt;
                ready_state = connecting;
              })
          else disconnected options
              (record c { timer = none; reconnect_attempt = suc c.reconnect_attempt }))
  unfolding schedule_reconnect
  schedule_reconnect_of_live status error c h = if_false _ _ _ h

  -- The client has ended, and has called `onDisconnect` last.
  pub record IsEnded (before c : Client) : Type 0 where
    pub state : c.ready_state ≡ closed
    pub no_timer : c.timer ≡ none
    pub called : c.calls ≡ before.calls ++ call_on_disconnect ∷ []

  disconnected-IsEnded :
      IsPassive
      → (before c : Client) → c.calls ≡ before.calls
      → IsEnded before (disconnected options c)
  unfolding disconnected
  disconnected-IsEnded passive before c h =
      rw
        (notify_of_passive passive call_on_disconnect
          (record c { timer = none; ready_state = closed }))
        (record {
          state = refl;
          no_timer = refl;
          called = ap (λ l. l ++ call_on_disconnect ∷ []) h;
        })

  -- A client that is not aborted and loses its connection counts the attempt and asks whether to
  -- reconnect. If so it waits, with a timer, for the delay that was calculated if that is from a
  -- millisecond to an hour, and else for the server's; if not it is closed without a timer and calls
  -- `onDisconnect`. It is assumed that the user's callbacks do nothing to the client.
  pub schedule_reconnect-cases :
      IsPassive
      → (status : Option ℕ) (error : Option ClientError) (c : Client) → c.aborted ≡ false
      → let state = reconnection_state options status error c in
        ((options.should_reconnect state ≡ true)
          × IsWaiting
              (options.calculate_reconnect_delay state)
              (suc c.reconnect_attempt)
              c.server_reconnection_time
              (schedule_reconnect options status error c))
        ⊎ ((options.should_reconnect state ≡ false)
            × IsEnded c (schedule_reconnect options status error c))
  schedule_reconnect-cases passive status error c h =
      elim (Bool-cases (options.should_reconnect (reconnection_state options status error c))) [
        | inl again ↦ inl (
          again,
          rw (schedule_reconnect_of_live status error c h ∙ if_true _ _ _ again) (
              start_timer-IsWaiting passive
                (options.calculate_reconnect_delay (reconnection_state options status error c))
                (record c {
                  timer = none;
                  reconnect_attempt = suc c.reconnect_attempt;
                  ready_state = connecting;
                })
                refl h),
        )
        | inr enough ↦ inr (
          enough,
          rw (schedule_reconnect_of_live status error c h ∙ if_false _ _ _ enough)
              (disconnected-IsEnded passive c _ refl),
        )
      ]

  notify_of_close :
      (call : Call) (c : Client)
      → options.react call ≡ call_close
      → notify options call c ≡ close (log call c)
  unfolding notify
  notify_of_close call c h = rw (h, notify) refl

  start_timer_of_close :
      (c : Client)
      → options.react (call_on_error value_out_of_range) ≡ call_close
      → ((start_timer options none c).ready_state ≡ closed)
        × ((start_timer options none c).timer ≡ some c.server_reconnection_time)
  unfolding start_timer close
  start_timer_of_close c h =
      rw (notify_of_close (call_on_error value_out_of_range) c h) (refl, refl)

  -- A client whose calculated delay is negative or not a finite number calls `onError`. If that callback closes
  -- the client, the client is closed and yet has a timer for its next connection; if it is not
  -- aborted before and the user asks to reconnect.
  pub schedule_reconnect_in_close :
      (status : Option ℕ) (error : Option ClientError) (c : Client)
      → c.aborted ≡ false
      → options.should_reconnect (reconnection_state options status error c) ≡ true
      → options.calculate_reconnect_delay (reconnection_state options status error c) ≡ none
      → options.react (call_on_error value_out_of_range) ≡ call_close
      → ((schedule_reconnect options status error c).ready_state ≡ closed)
        × ((schedule_reconnect options status error c).timer ≡ some c.server_reconnection_time)
  schedule_reconnect_in_close status error c h again no_delay closes =
      rw (schedule_reconnect_of_live status error c h ∙ if_true _ _ _ again, no_delay)
        (start_timer_of_close _ closes)
