-- ===== src/EventSource/Client/Restarting.antt =====
-- A client that is connected again while the error of its aborted request is on its way.
use js_sdks.Common.{ℕ, suc, ◌≡◌, refl, ap, false, List, [], ◌∷◌, ◌++◌, All}
use js_sdks.EventSource.Client.{
  connecting, closed, abort_error, fetch, Client, Options, non_empty, connect, close,
  initiate_connection, fetch_failed, Input, failed, step, run,
}
use js_sdks.EventSource.Client.Closing.{NeverConnects, IsQuiet, IsOther, run-IsQuiet}

module _ (options : Options) where
  restarted_ends :
      (k : ℕ) (c : Client)
      → c.connections ≡ suc k
      → IsQuiet options (suc (suc k)) (step options (failed k abort_error) (connect (close c)))
  unfolding step fetch_failed connect initiate_connection close
  restarted_ends k c h = record { aborted = refl; no_timer = refl; connections = ap suc h }

  -- A client whose last request is number k, and that is closed and at once connected again, has sent the
  -- request after k and is connecting. The error of request k, which was aborted, then closes the client, and
  -- whatever happens to it later but a call of `connect`, it stays aborted, without a timer, and sends no
  -- further request; if none of the user's callbacks calls `connect`.
  pub run_of_restarted :
      NeverConnects options
      → (k : ℕ) (inputs : List (Input options)) (c : Client) → c.connections ≡ suc k
      → All (IsOther options) inputs
      → ((connect (close c)).ready_state ≡ connecting)
        × ((connect (close c)).aborted ≡ false)
        × ((connect (close c)).calls ≡ c.calls ++ fetch (suc k) (non_empty c.last_event_id) ∷ [])
        × ((step options (failed k abort_error) (connect (close c))).ready_state ≡ closed)
        × IsQuiet options
            (suc (suc k))
            (run options (failed k abort_error ∷ inputs) (connect (close c)))
  unfolding run step fetch_failed connect initiate_connection close
  run_of_restarted never k inputs c h others = (
    refl,
    refl,
    ap (λ n. c.calls ++ fetch n (non_empty c.last_event_id) ∷ []) h,
    refl,
    run-IsQuiet options never (suc (suc k)) inputs
        (step options (failed k abort_error) (connect (close c))) others (restarted_ends k c h),
  )
