-- ===== src/Client/History.antt =====
-- What a client reads after any steps: the newest entry that was delivered to it.
pub mod Cases
pub mod Newest
pub mod Live
use js_sdks.Common.{
  ◌≡◌, refl, sym, ap, ◌∙◌, ◌⊎◌, inl, inr, Bool, true, false, Option, none, some, List, [], ◌∷◌,
  Text, Entries, All, Distinct, keys, lookup, spread, or_option, or_option-none, lookup-spread,
  if◌then◌else◌,
}
use js_sdks.ConfigValue.{ConfigState, Parsing}
use js_sdks.Client.Types.{
  Context, ConfigSet, SetKind, full, delta, cached_values_loaded, context_updated, client_ready,
  connection_error, config_evaluated, network_resume, context_update, ConnectAction,
}
use js_sdks.Client.CachedValues.{
  CachedValues, ContextTag, same_context_tag, Adoption, adopt, live_values_already_arrived,
  context_mismatch, context_tag_for, decide_cached_values_adoption,
}
use js_sdks.Client.State.{Client, Reactions, put, config_state, telemetry_context}
use js_sdks.Client.Evaluating.{emit, resolve_ready}
use js_sdks.Client.Handling.{
  merged_into, merge_config_set, find_keys_removed_by, keep_values_on_the_device, connect_failed,
  connect_to_transport, resume_network, update_context, transport_connected, continue_ready,
  run_first_task, run_task, connection_failed, dispatch_evaluation, announce, config_set_received,
  serve_cached_values, adopt_decided, adopt_cached_values, admitted_context_for, submit_context,
}
use js_sdks.Client.Steps.{
  Step, application, initializes, updates_context, resumes, receives, fails, reads_cache, connects,
  refuses, runs_task, dispatches, step, run,
}
use js_sdks.Client.Frame.{
  SameConfigs, unchanged, SameConfigs-trans, if_SameConfigs, resolve_ready-SameConfigs,
  perform-SameConfigs, emit-SameConfigs,
}
use js_sdks.Client.Frame.Contexts.{
  initialize-SameConfigs, submit_context-SameConfigs, connect_to_transport-SameConfigs,
  admitted_context_for-SameConfigs, store_context-SameConfigs, announce-SameConfigs,
  keep_values-SameConfigs,
}

abbrev pub newer : SetKind → Option ConfigState → Option ConfigState → Option ConfigState
newer full found older = found
newer delta found older = or_option found older

-- The newest entry of a key in the sets, the last one first: a full set hides those before it.
unfoldable pub newest : List ConfigSet → Text → Option ConfigState
newest [] key = none
newest (set ∷ older) key = newer set.kind (lookup key set.configs) (newest older key)

abbrev pub cached_set : CachedValues (Entries ConfigState) → ConfigSet
cached_set values = record {
  environment_id = values.environment_id;
  project_id = values.project_id;
  configs = values.configs;
  kind = full;
}

abbrev pub with_cached :
    Adoption → CachedValues (Entries ConfigState) → List ConfigSet → List ConfigSet
with_cached adopt values sets = cached_set values ∷ sets
with_cached refused values sets = sets

module _ {F : Type 0} where
  abbrev pub adoption_in : Client F → CachedValues (Entries ConfigState) → Text → Adoption
  adoption_in c values instance_id =
      decide_cached_values_adoption values (context_tag_for c.submitted_context instance_id)
        c.has_received_config_set

  -- The sets delivered up to the end of a step: those received, and cached values that are adopted.
  abbrev pub delivered : Step F → Client F → List ConfigSet → List ConfigSet
  delivered (receives set) c sets = set ∷ sets
  delivered (reads_cache values instance_id) c sets =
      with_cached (adoption_in c values instance_id) values sets
  delivered s c sets = sets

module _ {F : Type 0} (env : Parsing F) (reactions : Reactions F) where
  unfoldable pub history : List (Step F) → Client F → List ConfigSet → List ConfigSet
  history [] c sets = sets
  history (s ∷ steps) c sets = history steps (step env reactions s c) (delivered s c sets)

abbrev pub HasDistinctKeys : ConfigSet → Type 0
HasDistinctKeys set = Distinct (keys set.configs)
