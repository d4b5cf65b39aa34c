-- ===== src/Client/History/Cases.antt =====
-- Each step leaves the configs alone, or delivers a set.
use js_sdks.Common.{
  ◌≡◌, refl, sym, ◌∙◌, ◌⊎◌, inl, inr, Bool, true, false, some, List, [], ◌∷◌, Entries, keys,
}
use js_sdks.ConfigValue.{ConfigState, Parsing}
use js_sdks.Client.Types.{
  ConfigSet, cached_values_loaded, context_updated, client_ready, connection_error,
  config_evaluated, network_resume, context_update, ConnectAction,
}
use js_sdks.Client.CachedValues.{
  CachedValues, ContextTag, decide-adopt_iff, Adoption, adopt, live_values_already_arrived,
  context_mismatch, context_tag_for, decide_cached_values_adoption,
}
use js_sdks.Client.State.{Client, Reactions, put, telemetry_context}
use js_sdks.Client.Evaluating.{resolve_ready}
use js_sdks.Client.Handling.{
  merge_config_set, find_keys_removed_by, connect_failed, resume_network, update_context,
  transport_connected, run_first_task, run_task, connection_failed, dispatch_evaluation,
  config_set_received, serve_cached_values, adopt_decided, adopt_cached_values,
  admitted_context_for,
}
use js_sdks.Client.Steps.{
  Step, application, initializes, updates_context, resumes, receives, fails, reads_cache, connects,
  refuses, runs_task, dispatches, step,
}
use js_sdks.Client.Frame.{
  SameConfigs, unchanged, SameConfigs-trans, if_SameConfigs, resolve_ready-SameConfigs,
  perform-SameConfigs, emit-SameConfigs,
}
use js_sdks.Client.Frame.Contexts.{
  initialize-SameConfigs, submit_context-SameConfigs, connect_to_transport-SameConfigs,
  admitted_context_for-SameConfigs, store_context-SameConfigs, announce-SameConfigs,
  keep_values-SameConfigs,
}
use js_sdks.Client.History.{cached_set, with_cached, delivered}

module _ {F : Type 0} (env : Parsing F) (reactions : Reactions F) where
  -- The state after a set is received, before the handlers run.
  abbrev received_client : ConfigSet → Client F → Client F
  received_client set c =
      record (resolve_ready false
        (record c { has_received_config_set = true; serving_cached_values = false })) {
          config_set = some (merge_config_set c.config_set set);
        }

  received-SameConfigs :
      (set : ConfigSet) (c : Client F)
      → SameConfigs (received_client set c) (config_set_received env reactions set c)
  unfolding config_set_received
  received-SameConfigs set c =
      SameConfigs-trans _ _ _
        (keep_values-SameConfigs (merge_config_set c.config_set set) (received_client set c))
        (announce-SameConfigs env reactions (keys set.configs)
          (find_keys_removed_by c.config_set set) _)

  run_first_task-SameConfigs :
      (tasks : List (ConnectAction × Bool)) (c : Client F)
      → SameConfigs c (run_first_task env reactions tasks c)
  run_first_task-SameConfigs [] c = unchanged c
  run_first_task-SameConfigs ((caller, true) ∷ tasks) c = record {
    config_set = refl;
    serving = refl;
    received = refl;
  }
  run_first_task-SameConfigs ((caller, false) ∷ tasks) c =
      SameConfigs-trans c (record c { tasks = tasks; ready = true; initializing = false }) _
        (record { config_set = refl; serving = refl; received = refl })
        (emit-SameConfigs env reactions (client_ready caller) _)

-- What a step that delivers a set does: the set is merged, and it is a live one, or one of cached
-- values before any live set.
pub record Delivers {F : Type 0} (c d : Client F) (sets after : List ConfigSet) : Type 0 where
  pub set : ConfigSet
  pub kept : after ≡ set ∷ sets
  pub merged : d.config_set ≡ some (merge_config_set c.config_set set)
  pub origin :
      (d.serving_cached_values ≡ false × d.has_received_config_set ≡ true)
      ⊎ (c.has_received_config_set ≡ false × d.has_received_config_set ≡ false)

abbrev pub StepCases : {F : Type 0} → Client F → Client F → List ConfigSet → List ConfigSet → Type 0
StepCases c d sets after = (SameConfigs c d × after ≡ sets) ⊎ Delivers c d sets after

module _ {F : Type 0} (env : Parsing F) (reactions : Reactions F) where
  pub receives-live :
      (set : ConfigSet) (c : Client F)
      → (config_set_received env reactions set c).serving_cached_values ≡ false
        × (config_set_received env reactions set c).has_received_config_set ≡ true
  receives-live set c =
      let live = record c { has_received_config_set = true; serving_cached_values = false } in
      let settled = resolve_ready-SameConfigs false live in
      let h = received-SameConfigs env reactions set c in
      (sym h.serving ∙ sym settled.serving, sym h.received ∙ sym settled.received)

  receives-Delivers :
      (set : ConfigSet) (c : Client F) (sets : List ConfigSet)
      → Delivers c (config_set_received env reactions set c) sets (set ∷ sets)
  receives-Delivers set c sets = record {
    set = set;
    kept = refl;
    merged = sym (received-SameConfigs env reactions set c).config_set;
    origin = inl (receives-live set c);
  }

  serves-Delivers :
      (values : CachedValues (Entries ConfigState)) (c : Client F) (sets : List ConfigSet)
      → c.has_received_config_set ≡ false
      → Delivers c (serve_cached_values env reactions values c) sets (cached_set values ∷ sets)
  unfolding serve_cached_values merge_config_set
  serves-Delivers values c sets not_live =
      let serving = record c {
        config_set = some (cached_set values);
        serving_cached_values = true;
      } in
      let h =
        SameConfigs-trans serving _ _ (emit-SameConfigs env reactions cached_values_loaded serving)
          (announce-SameConfigs env reactions (keys values.configs) [] _) in
      record {
        set = cached_set values;
        kept = refl;
        merged = sym h.config_set;
        origin = inr (not_live, sym h.received ∙ not_live);
      }

  adopt_decided-cases :
      (values : CachedValues (Entries ConfigState)) (launch : ContextTag) (c : Client F)
      (sets : List ConfigSet)
      → (adoption : Adoption)
      → decide_cached_values_adoption values launch c.has_received_config_set ≡ adoption
      → StepCases c
          (adopt_decided env reactions adoption values c)
          sets
          (with_cached adoption values sets)
  adopt_decided-cases values launch c sets adopt e = inr (
      serves-Delivers values c sets
        ((decide-adopt_iff values launch c.has_received_config_set).0 e).0)
  adopt_decided-cases values launch c sets live_values_already_arrived e = inl (unchanged c, refl)
  adopt_decided-cases values launch c sets context_mismatch e = inl (unchanged c, refl)

  pub step-cases :
      (s : Step F) (c : Client F) (sets : List ConfigSet)
      → StepCases c (step env reactions s c) sets (delivered s c sets)
  unfolding step transport_connected run_task dispatch_evaluation connection_failed resume_network
      update_context connect_failed adopt_cached_values
  step-cases (application call) c sets = inl (perform-SameConfigs env call c, refl)
  step-cases (initializes context) c sets = inl (initialize-SameConfigs context c, refl)
  step-cases (updates_context context) c sets =
      let admission = admitted_context_for (some context) c in
      inl (
        if_SameConfigs c.connects c _ _ (submit_context-SameConfigs (some context) context_update c)
            (SameConfigs-trans c admission.1 _ (admitted_context_for-SameConfigs (some context) c)
              (store_context-SameConfigs env reactions admission.0 admission.1)),
        refl,
      )
  step-cases resumes c sets = inl (
    if_SameConfigs c.connects c _ c
        (connect_to_transport-SameConfigs c.current_context network_resume c) (unchanged c),
    refl,
  )
  step-cases (receives set) c sets = inr (receives-Delivers set c sets)
  step-cases (fails error) c sets = inl (
    SameConfigs-trans c (record c { initializing = false }) _
        (record { config_set = refl; serving = refl; received = refl })
        (emit-SameConfigs env reactions (connection_error error) _),
    refl,
  )
  step-cases (reads_cache values instance_id) c sets =
      adopt_decided-cases values (context_tag_for c.submitted_context instance_id) c sets _ refl
  step-cases (connects context) c sets =
      let next = put (telemetry_context context) (record c { current_context = context }) in
      inl (
        SameConfigs-trans c next _ (record { config_set = refl; serving = refl; received = refl })
            (emit-SameConfigs env reactions (context_updated context) next),
        refl,
      )
  step-cases (refuses is_initialization_error) c sets = inl (
    if_SameConfigs is_initialization_error c _ c
        (record { config_set = refl; serving = refl; received = refl }) (unchanged c),
    refl,
  )
  step-cases runs_task c sets = inl (run_first_task-SameConfigs env reactions c.tasks c, refl)
  step-cases (dispatches evaluation) c sets =
      inl (emit-SameConfigs env reactions (config_evaluated evaluation) c, refl)
