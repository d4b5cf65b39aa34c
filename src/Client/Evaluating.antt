-- ===== src/Client/Evaluating.antt =====
-- Reading a config: `evaluate`, `evaluationOf` and the calls of handlers of
-- packages/js-client-core/src/DefaultConfigDirectorClient.ts
use js_sdks.Common.{
  ℕ, zero, suc, Bool, true, false, Option, none, some, List, [], ◌∷◌, ◌++◌, Text, lookup, get_elem?,
  length, if◌then◌else◌,
}
use js_sdks.ConfigValue.{JsValue, ConfigState, Parsing, parse_config_value}
use js_sdks.Client.Types.{Evaluation, Event}
use js_sdks.Client.Watchers.{Watcher, Watchers, no_watchers, array_at}
use js_sdks.Client.Watchers
use js_sdks.Client.State.{
  Client, emitted, called, scheduled, reported, transport_closed, telemetry_closed, Call,
  watch_call, unwatch_call, evaluate_call, unwatch_all_call, clear_call, pause_call, close_call,
  Reactions, Deferred, put, config_state, is_valid_default, missing_evaluation, missing_report,
  found_evaluation, found_report, served_reason,
}

module _ {F : Type 0} where
  -- `readyResolve?.(cancelled)`: the first call settles the promise.
  abbrev pub settle : Bool → Client F → Option Deferred → Client F
  settle cancelled c none = c
  settle cancelled c (some deferred) = if deferred.settled then c else record c {
    ready_resolve = some (record deferred { settled = true });
    tasks = c.tasks ++ (deferred.caller, cancelled) ∷ [];
  }

  unfoldable pub resolve_ready : Bool → Client F → Client F
  resolve_ready cancelled c = settle cancelled c c.ready_resolve

  unfoldable pub close : Client F → Client F
  unfolding resolve_ready
  close c = record (put transport_closed (put telemetry_closed (resolve_ready true c))) {
    ready = false;
    initializing = false;
  }

  unfoldable pub pause_network : Client F → Client F
  pause_network c = if c.connects then record (put transport_closed c) { ready = false } else c

  -- `clear`, without the event handlers, and `unwatchAll`.
  unfoldable pub unwatch_all : Client F → Client F
  unwatch_all c = record c { watchers = Watchers.unwatch_all c.watchers }

  -- A default value that is refused throws, and nothing changes.
  unfoldable pub watch : Text → JsValue F → ℕ → Client F → Client F
  unfolding is_valid_default
  watch key default callback c =
      if is_valid_default default
      then record c { watchers = Watchers.watch key default callback c.watchers }
      else c

  unfoldable pub unwatch : Text → Option ℕ → Client F → Client F
  unwatch key callback c = record c { watchers = Watchers.unwatch key callback c.watchers }

module _ {F : Type 0} (env : Parsing F) where
  -- `evaluationOf`: the evaluation, and the client after its telemetry and its timer.
  unfoldable pub evaluation_of :
      Text → Option ConfigState → JsValue F → Client F → Evaluation F × Client F
  unfolding served_reason
  evaluation_of key none default c =
      let evaluation = missing_evaluation key default c in
      (evaluation, put (scheduled evaluation) (put (reported (missing_report key default c)) c))
  evaluation_of key (some state) default c =
      let result = parse_config_value env state default in
      let evaluation = found_evaluation key result c in
      (
        evaluation,
        put (scheduled evaluation) (put (reported (found_report key default state result c)) c),
      )

  -- `evaluate`; a default value that is refused throws.
  unfoldable pub evaluate : Text → JsValue F → Client F → Option (Evaluation F) × Client F
  unfolding is_valid_default evaluation_of
  evaluate key default c =
      if is_valid_default default
      then (let (evaluation, next) = evaluation_of key (config_state c.config_set key) default c in
          (some evaluation, next))
      else (none, c)

  unfoldable pub perform : Call F → Client F → Client F
  unfolding watch unwatch evaluate unwatch_all pause_network close
  perform (watch_call key default callback) c = watch key default callback c
  perform (unwatch_call key callback) c = unwatch key callback c
  perform (evaluate_call key default) c = (evaluate key default c).1
  perform unwatch_all_call c = unwatch_all c
  perform clear_call c = unwatch_all c
  perform pause_call c = pause_network c
  perform close_call c = close c

  unfoldable pub perform_all : List (Call F) → Client F → Client F
  unfolding perform
  perform_all [] c = c
  perform_all (call ∷ calls) c = perform_all calls (perform call c)

  module _ (reactions : Reactions F) where
    unfoldable pub emit : Event F → Client F → Client F
    unfolding perform_all
    emit event c = perform_all (reactions.on_event event) (put (emitted event) c)

    -- One pass of the `forEach` of `updateWatchersForConfig`.
    unfoldable pub call_watcher :
        Text → Option ConfigState → Option (Watcher (JsValue F)) → Client F → Client F
    unfolding evaluation_of perform_all
    call_watcher key state none c = c
    call_watcher key state (some h) c =
        let (evaluation, next) = evaluation_of key state h.default_value c in
        perform_all (reactions.on_value h.handler evaluation.value)
          (put (called h.handler evaluation.value) next)

    -- `forEach` visits the indices below the length at its start that are still in the array.
    unfoldable pub call_watchers : Text → Option ConfigState → ℕ → ℕ → ℕ → Client F → Client F
    unfolding call_watcher array_at
    call_watchers key state array zero i c = c
    call_watchers key state array (suc n) i c =
        call_watchers key state array n (suc i)
          (call_watcher key state (get_elem? (array_at array c.watchers) i) c)

    abbrev pub call_array : Text → Option ConfigState → Option ℕ → Client F → Client F
    call_array key state none c = c
    call_array key state (some array) c =
        call_watchers key state array (length (array_at array c.watchers)) 0 c

    unfoldable pub update_watchers_for_config : Text → Client F → Client F
    unfolding call_watchers
    update_watchers_for_config key c =
        call_array key (config_state c.config_set key) (lookup key c.watchers.by_key) c

    unfoldable pub update_watchers : List Text → Client F → Client F
    unfolding update_watchers_for_config
    update_watchers [] c = c
    update_watchers (key ∷ rest) c = update_watchers rest (update_watchers_for_config key c)
