-- ===== src/Client/Ready.antt =====
-- When the client is ready: `readyPromise` of
-- packages/js-client-core/src/DefaultConfigDirectorClient.ts
use js_sdks.Common.{
  ◌≡◌, refl, sym, ap, subst, ◌∙◌, Bool, true, false, Option, none, some, List, [], ◌∷◌, ◌++◌, Text,
  keys, if◌then◌else◌, lookup, ℕ, zero, suc,
}
use js_sdks.ConfigValue.{JsValue, ConfigState, Parsing}
use js_sdks.Client.Types.{
  Context, ConfigSet, ConnectAction, initialization, context_update, network_resume, Event,
  configs_updated,
}
use js_sdks.Client.Watchers.{Watcher}
use js_sdks.Client.State.{Client, put, emitted, Reactions, Call, close_call, config_state}
use js_sdks.Client.Evaluating.{
  settle, resolve_ready, evaluation_of, close, perform, emit, perform_all, call_watcher,
  call_watchers, call_array, update_watchers_for_config, update_watchers,
}
use js_sdks.Client.Handling.{
  config_set_received, keep_values_on_the_device, merge_config_set, find_keys_removed_by,
  connect_to_transport, start_cached_values_adoption, run_task, run_first_task,
}
use js_sdks.Client.Notify.{silent}

-- The promise that is waited on, its continuations that are due, and the watchers.
pub record SameReady {F : Type 0} (c d : Client F) : Type 0 where
  pub resolve : d.ready_resolve ≡ c.ready_resolve
  pub tasks : d.tasks ≡ c.tasks
  pub watchers : d.watchers ≡ c.watchers

module _ {F : Type 0} where
  same_ready : (c : Client F) → SameReady c c
  same_ready c = record { resolve = refl; tasks = refl; watchers = refl }

  SameReady-trans : (b c d : Client F) → SameReady b c → SameReady c d → SameReady b d
  SameReady-trans b c d h k = record {
    resolve = k.resolve ∙ h.resolve;
    tasks = k.tasks ∙ h.tasks;
    watchers = k.watchers ∙ h.watchers;
  }

  if_SameReady :
      (b : Bool) (c d e : Client F)
      → SameReady c d
      → SameReady c e
      → SameReady c (if b then d else e)
  if_SameReady true c d e h k = h
  if_SameReady false c d e h k = k

  keep_values-SameReady :
      (set : ConfigSet) (c : Client F) → SameReady c (keep_values_on_the_device set c)
  unfolding keep_values_on_the_device
  keep_values-SameReady set c =
      if_SameReady c.stores c _ c (record { resolve = refl; tasks = refl; watchers = refl })
        (same_ready c)

  start_adoption-SameReady : (c : Client F) → SameReady c (start_cached_values_adoption c)
  unfolding start_cached_values_adoption
  start_adoption-SameReady c =
      if_SameReady c.stores c _ c
        (if_SameReady c.cached_values_adoption_started c c _ (same_ready c)
          (record { resolve = refl; tasks = refl; watchers = refl }))
        (same_ready c)

module _ {F : Type 0} (env : Parsing F) where
  call_watcher-SameReady :
      (key : Text) (state : Option ConfigState) (h : Option (Watcher (JsValue F))) (c : Client F)
      → SameReady c (call_watcher env silent key state h c)
  unfolding call_watcher evaluation_of perform_all
  call_watcher-SameReady key state none c = same_ready c
  call_watcher-SameReady key none (some h) c = record {
    resolve = refl;
    tasks = refl;
    watchers = refl;
  }
  call_watcher-SameReady key (some state) (some h) c = record {
    resolve = refl;
    tasks = refl;
    watchers = refl;
  }

  call_watchers-SameReady :
      (key : Text) (state : Option ConfigState) (array n i : ℕ) (c : Client F)
      → SameReady c (call_watchers env silent key state array n i c)
  unfolding call_watchers
  call_watchers-SameReady key state array zero i c = same_ready c
  call_watchers-SameReady key state array (suc n) i c =
      SameReady-trans c _ _ (call_watcher-SameReady key state _ c)
        (call_watchers-SameReady key state array n (suc i) _)

  call_array-SameReady :
      (key : Text) (state : Option ConfigState) (array : Option ℕ) (c : Client F)
      → SameReady c (call_array env silent key state array c)
  call_array-SameReady key state none c = same_ready c
  call_array-SameReady key state (some array) c = call_watchers-SameReady key state array _ 0 c

  update_watchers-SameReady :
      (config_keys : List Text) (c : Client F)
      → SameReady c (update_watchers env silent config_keys c)
  unfolding update_watchers update_watchers_for_config
  update_watchers-SameReady [] c = same_ready c
  update_watchers-SameReady (key ∷ rest) c =
      SameReady-trans c (update_watchers_for_config env silent key c) _
        (call_array-SameReady key (config_state c.config_set key) (lookup key c.watchers.by_key) c)
        (update_watchers-SameReady rest (update_watchers_for_config env silent key c))

  -- The state after a set is received, before the handlers run.
  abbrev settled_client : ConfigSet → Client F → Client F
  settled_client set c =
      record (resolve_ready false
        (record c { has_received_config_set = true; serving_cached_values = false })) {
          config_set = some (merge_config_set c.config_set set);
        }

  config_set_received-SameReady :
      (set : ConfigSet) (c : Client F)
      → SameReady (settled_client set c) (config_set_received env silent set c)
  unfolding config_set_received emit perform_all
  config_set_received-SameReady set c =
      let mid = settled_client set c in
      let kept = keep_values_on_the_device (merge_config_set c.config_set set) mid in
      let updated = keys set.configs in
      let removed = find_keys_removed_by c.config_set set in
      SameReady-trans mid kept _ (keep_values-SameReady (merge_config_set c.config_set set) mid) (
        SameReady-trans kept (put (emitted (configs_updated updated removed)) kept) _
          (record { resolve = refl; tasks = refl; watchers = refl })
          (update_watchers-SameReady (updated ++ removed) _))

  connect_to_transport-kept :
      (context : Option (Context F)) (caller : ConnectAction) (c : Client F)
      → ((connect_to_transport context caller c).tasks ≡ c.tasks)
        × ((connect_to_transport context caller c).watchers ≡ c.watchers)
  unfolding connect_to_transport
  connect_to_transport-kept context initialization c =
      let started = start_adoption-SameReady (record c { submitted_context = context }) in
      (started.tasks, started.watchers)
  connect_to_transport-kept context context_update c = (refl, refl)
  connect_to_transport-kept context network_resume c = (refl, refl)

-- The client is ready, is not initializing, and no task is due.
abbrev pub IsSettled : {F : Type 0} → Client F → Type 0
IsSettled c = (c.ready ≡ true) × (c.initializing ≡ false) × (c.tasks ≡ [])

module _ {F : Type 0} (env : Parsing F) where
  -- When the handlers make no calls: a client that no task is due for, that connects and then receives
  -- a set, is ready once its task has run, and no longer initializing, whatever it connected for, and
  -- no other task is left.
  pub ready_of_received :
      (context : Option (Context F)) (caller : ConnectAction) (set : ConfigSet) (c : Client F)
      → c.tasks ≡ []
      → IsSettled (
          run_task env silent
            (config_set_received env silent set (connect_to_transport context caller c)))
  unfolding run_task emit perform_all connect_to_transport resolve_ready
  ready_of_received context caller set c h =
      let connected = connect_to_transport context caller c in
      let received = config_set_received env silent set connected in
      let due : received.tasks ≡ (caller, false) ∷ [] =
        (config_set_received-SameReady env set connected).tasks
        ∙ ap (λ tasks. tasks ++ (caller, false) ∷ [])
            ((connect_to_transport-kept env context caller c).0 ∙ h) in
      subst (λ tasks. IsSettled (run_first_task env silent tasks received)) (sym due)
        (refl, refl, refl)

module _ {F : Type 0} where
  -- Handlers of `configsUpdated` that close the client; the others make no calls.
  abbrev pub closes_on : Event F → List (Call F)
  closes_on (configs_updated updated removed) = close_call ∷ []
  closes_on event = []

  abbrev pub closing : Reactions F
  closing = record { on_value = λ h v. []; on_event = closes_on }

  resolve_ready_again :
      (cancelled : Bool) (caller : ConnectAction) (c : Client F)
      → c.ready_resolve ≡ some (record { caller = caller; settled = true })
      → resolve_ready cancelled c ≡ c
  unfolding resolve_ready
  resolve_ready_again cancelled caller c h = ap (settle cancelled c) h

module _ {F : Type 0} (env : Parsing F) where
  update_watchers_of_none :
      (reactions : Reactions F) (config_keys : List Text) (c : Client F)
      → c.watchers.by_key ≡ []
      → update_watchers env reactions config_keys c ≡ c
  unfolding update_watchers update_watchers_for_config lookup
  update_watchers_of_none reactions [] c h = refl
  update_watchers_of_none reactions (key ∷ rest) c h =
      let none_called : update_watchers_for_config env reactions key c ≡ c =
        ap
          (λ by_key.
            call_array env reactions key (config_state c.config_set key) (lookup key by_key) c)
          h in
      ap (update_watchers env reactions rest) none_called
      ∙ update_watchers_of_none reactions rest c h

  -- A handler of `configsUpdated` that closes the client, which has no handlers of `watch`, does so
  -- before the task runs that the set made due: afterwards the closed client is ready again.
  pub ready_of_closed :
      (context : Option (Context F)) (caller : ConnectAction) (set : ConfigSet) (c : Client F)
      → c.tasks ≡ []
      → c.watchers.by_key ≡ []
      → ((config_set_received env closing set (connect_to_transport context caller c)).ready
          ≡ false)
        × ((run_task env closing
              (config_set_received env closing set (connect_to_transport context caller c))).ready
            ≡ true)
  unfolding config_set_received run_task emit perform_all perform connect_to_transport close
      resolve_ready
  ready_of_closed context caller set c h none_watched =
      let connected = connect_to_transport context caller c in
      let mid = settled_client env set connected in
      let kept = keep_values_on_the_device (merge_config_set connected.config_set set) mid in
      let removed = find_keys_removed_by connected.config_set set in
      let told = put (emitted (configs_updated (keys set.configs) removed)) kept in
      let from_mid = keep_values-SameReady (merge_config_set connected.config_set set) mid in
      let again : resolve_ready true told ≡ told =
        resolve_ready_again true caller told from_mid.resolve in
      let from_c = connect_to_transport-kept env context caller c in
      let closed = close told in
      let unwatched : closed.watchers.by_key ≡ [] =
        ap (λ d. d.watchers.by_key) again
        ∙ ap (λ w. w.by_key) (from_mid.watchers ∙ from_c.1)
        ∙ none_watched in
      let due : closed.tasks ≡ (caller, false) ∷ [] =
        ap (λ d. d.tasks) again
        ∙ from_mid.tasks
        ∙ ap (λ tasks. tasks ++ (caller, false) ∷ []) (from_c.0 ∙ h) in
      let received : config_set_received env closing set connected ≡ closed =
        update_watchers_of_none closing (keys set.configs ++ removed) closed unwatched in
      (
        ap (λ d. d.ready) received,
        ap (λ d. (run_task env closing d).ready) received
            ∙ ap (λ tasks. (run_first_task env closing tasks closed).ready) due,
      )
