-- ===== src/Client/Handling.antt =====
-- What the client does with the sets of configs, the cached values and the contexts:
-- packages/js-client-core/src/DefaultConfigDirectorClient.ts
use js_sdks.Common.{
  Bool, true, false, Option, none, some, List, [], ◌∷◌, ◌++◌, Text, Entries, spread, keys, has_own,
  if◌then◌else◌,
}
use js_sdks.ConfigValue.{ConfigState, Parsing}
use js_sdks.ContextKind.{ContextAdmission, admitted, ignored, admit_context}
use js_sdks.Client.Types.{
  Context, ConfigSet, SetKind, full, delta, ConnectAction, initialization, context_update,
  network_resume, Evaluation, configs_updated, client_ready, context_updated, config_evaluated,
  connection_error, cached_values_loaded,
}
use js_sdks.Client.CachedValues.{
  CachedValues, Adoption, adopt, context_tag_for, decide_cached_values_adoption,
}
use js_sdks.Client.State.{
  Client, Reactions, put, invalid_context, telemetry_context, transport_connect, adoption_started,
  keep_values,
}
use js_sdks.Client.Evaluating.{emit, update_watchers, resolve_ready}

-- `filter` for the keys that the entries do not have.
unfoldable pub keys_missing_in : Entries ConfigState → List Text → List Text
unfolding has_own
keys_missing_in entries [] = []
keys_missing_in entries (key ∷ rest) =
    let others = keys_missing_in entries rest in
    if has_own key entries then others else key ∷ others

abbrev pub removed_by : SetKind → Entries ConfigState → Option ConfigSet → List Text
removed_by full configs (some old) = keys_missing_in configs (keys old.configs)
removed_by kind configs old = []

unfoldable pub find_keys_removed_by : Option ConfigSet → ConfigSet → List Text
unfolding keys_missing_in
find_keys_removed_by old set = removed_by set.kind set.configs old

abbrev pub merged_into : SetKind → ConfigSet → Option ConfigSet → ConfigSet
merged_into delta set (some old) = record old { configs = spread old.configs set.configs }
merged_into kind set old = set

-- The set that the client holds after one is received.
unfoldable pub merge_config_set : Option ConfigSet → ConfigSet → ConfigSet
merge_config_set old set = merged_into set.kind set old

module _ {F : Type 0} where
  unfoldable pub keep_values_on_the_device : ConfigSet → Client F → Client F
  keep_values_on_the_device set c =
      if c.stores then put (keep_values c.submitted_context set) c else c

  unfoldable pub start_cached_values_adoption : Client F → Client F
  start_cached_values_adoption c =
      if c.stores
      then (if c.cached_values_adoption_started
          then c
          else put adoption_started (record c { cached_values_adoption_started = true }))
      else c

  -- `admittedContextFor`.
  abbrev pub admitted_context :
      Option (Context F) → ContextAdmission → Client F → Option (Context F) × Client F
  admitted_context context admitted c = (context, c)
  admitted_context context (ignored sample) c = (none, put (invalid_context sample) c)

  unfoldable pub admitted_context_for :
      Option (Context F) → Client F → Option (Context F) × Client F
  admitted_context_for none c = (none, c)
  admitted_context_for (some context) c =
      admitted_context (some context) (admit_context context.kind) c

  -- `connectToTransport` up to the `await` of the transport.
  abbrev pub start_adoption_for : ConnectAction → Client F → Client F
  start_adoption_for initialization c = start_cached_values_adoption c
  start_adoption_for caller c = c

  unfoldable pub connect_to_transport : Option (Context F) → ConnectAction → Client F → Client F
  unfolding start_cached_values_adoption
  connect_to_transport context caller c =
      put (transport_connect context caller)
        (record (start_adoption_for caller (record c { submitted_context = context })) {
          ready = false;
          ready_resolve = some (record { caller = caller; settled = false });
        })

  unfoldable pub submit_context : Option (Context F) → ConnectAction → Client F → Client F
  unfolding connect_to_transport admitted_context_for
  submit_context context submission c =
      let (admitted_one, next) = admitted_context_for context c in
      connect_to_transport admitted_one submission next

  unfoldable pub initialize : Option (Context F) → Client F → Client F
  unfolding submit_context
  initialize context c =
      submit_context context initialization
        (if c.has_received_config_set then c else record c { initializing = true })

  -- `connectToTransport` when the transport throws: an initialization error, or another.
  unfoldable pub connect_failed : Bool → Client F → Client F
  connect_failed is_initialization_error c =
      if is_initialization_error then record c { initializing = false } else c

  unfoldable pub resume_network : Client F → Client F
  unfolding connect_to_transport
  resume_network c =
      if c.connects then connect_to_transport c.current_context network_resume c else c

module _ {F : Type 0} (env : Parsing F) (reactions : Reactions F) where
  abbrev pub store_context : Option (Context F) → Client F → Client F
  store_context context c =
      emit env reactions (context_updated context) (record c { current_context = context })

  unfoldable pub update_context : Context F → Client F → Client F
  unfolding submit_context emit
  update_context context c =
      if c.connects
      then submit_context (some context) context_update c
      else (let (admitted_one, next) = admitted_context_for (some context) c in
          store_context admitted_one next)

  -- `connectToTransport` after the transport has connected.
  unfoldable pub transport_connected : Option (Context F) → Client F → Client F
  unfolding emit
  transport_connected context c =
      emit env reactions (context_updated context)
        (put (telemetry_context context) (record c { current_context = context }))

  -- The continuation of the oldest ready promise that has been resolved.
  abbrev pub continue_ready : ConnectAction × Bool → Client F → Client F
  continue_ready (caller, true) c = c
  continue_ready (caller, false) c =
      emit env reactions (client_ready caller) (record c { ready = true; initializing = false })

  abbrev pub run_first_task : List (ConnectAction × Bool) → Client F → Client F
  run_first_task [] c = c
  run_first_task (task ∷ tasks) c = continue_ready task (record c { tasks = tasks })

  unfoldable pub run_task : Client F → Client F
  unfolding emit
  run_task c = run_first_task c.tasks c

  unfoldable pub connection_failed : Text → Client F → Client F
  unfolding emit
  connection_failed error c =
      emit env reactions (connection_error error) (record c { initializing = false })

  -- The timer of `dispatchEvaluationEvent`.
  unfoldable pub dispatch_evaluation : Evaluation F → Client F → Client F
  unfolding emit
  dispatch_evaluation evaluation c = emit env reactions (config_evaluated evaluation) c

  -- The handler of `configSetReceived`.
  abbrev pub announce : List Text → List Text → Client F → Client F
  announce updated removed c =
      update_watchers env reactions (updated ++ removed)
        (emit env reactions (configs_updated updated removed) c)

  unfoldable pub config_set_received : ConfigSet → Client F → Client F
  unfolding emit update_watchers resolve_ready keep_values_on_the_device merge_config_set
      find_keys_removed_by
  config_set_received set c =
      let started = record c { has_received_config_set = true; serving_cached_values = false } in
      let next = merge_config_set c.config_set set in
      announce (keys set.configs) (find_keys_removed_by c.config_set set) (
        keep_values_on_the_device next
          (record (resolve_ready false started) { config_set = some next }))

  unfoldable pub serve_cached_values : CachedValues (Entries ConfigState) → Client F → Client F
  unfolding emit update_watchers
  serve_cached_values values c =
      let serving = record c {
        config_set = some (record {
          environment_id = values.environment_id;
          project_id = values.project_id;
          configs = values.configs;
          kind = full;
        });
        serving_cached_values = true;
      } in
      announce (keys values.configs) [] (emit env reactions cached_values_loaded serving)

  abbrev pub adopt_decided : Adoption → CachedValues (Entries ConfigState) → Client F → Client F
  adopt_decided adopt values c = serve_cached_values values c
  adopt_decided refused values c = c

  -- `adoptCachedValues` once the values have been read and the instance id is known.
  unfoldable pub adopt_cached_values :
      CachedValues (Entries ConfigState) → Text → Client F → Client F
  unfolding serve_cached_values decide_cached_values_adoption context_tag_for
  adopt_cached_values values instance_id c =
      adopt_decided
        (decide_cached_values_adoption values (context_tag_for c.submitted_context instance_id)
          c.has_received_config_set)
        values c
