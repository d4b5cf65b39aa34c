-- ===== src/Client/Frame/Contexts.antt =====
-- The handling of contexts and the announcements leave the configs alone.
use js_sdks.Common.{refl, true, Option, none, some, List, ◌++◌, Text}
use js_sdks.ConfigValue.{Parsing}
use js_sdks.ContextKind.{ContextAdmission, admitted, ignored, admit_context}
use js_sdks.Client.Types.{
  Context, ConfigSet, ConnectAction, initialization, context_update, network_resume,
  configs_updated, context_updated,
}
use js_sdks.Client.State.{Client, Reactions}
use js_sdks.Client.Handling.{
  keep_values_on_the_device, start_cached_values_adoption, start_adoption_for, admitted_context,
  admitted_context_for, connect_to_transport, submit_context, initialize, store_context, announce,
}
use js_sdks.Client.Frame.{
  SameConfigs, unchanged, SameConfigs-trans, if_SameConfigs, emit-SameConfigs,
  update_watchers-SameConfigs,
}

module _ {F : Type 0} where
  pub start_adoption-SameConfigs : (c : Client F) → SameConfigs c (start_cached_values_adoption c)
  unfolding start_cached_values_adoption
  start_adoption-SameConfigs c =
      if_SameConfigs c.stores c _ c
        (if_SameConfigs c.cached_values_adoption_started c c _ (unchanged c)
          (record { config_set = refl; serving = refl; received = refl }))
        (unchanged c)

  pub start_adoption_for-SameConfigs :
      (caller : ConnectAction) (c : Client F) → SameConfigs c (start_adoption_for caller c)
  start_adoption_for-SameConfigs initialization c = start_adoption-SameConfigs c
  start_adoption_for-SameConfigs context_update c = unchanged c
  start_adoption_for-SameConfigs network_resume c = unchanged c

  pub connect_to_transport-SameConfigs :
      (context : Option (Context F)) (caller : ConnectAction) (c : Client F)
      → SameConfigs c (connect_to_transport context caller c)
  unfolding connect_to_transport
  connect_to_transport-SameConfigs context caller c =
      let h = start_adoption_for-SameConfigs caller (record c { submitted_context = context }) in
      record { config_set = h.config_set; serving = h.serving; received = h.received }

  pub admitted_context-SameConfigs :
      (context : Option (Context F)) (admission : ContextAdmission) (c : Client F)
      → SameConfigs c (admitted_context context admission c).1
  admitted_context-SameConfigs context admitted c = unchanged c
  admitted_context-SameConfigs context (ignored sample) c = record {
    config_set = refl;
    serving = refl;
    received = refl;
  }

  pub admitted_context_for-SameConfigs :
      (context : Option (Context F)) (c : Client F)
      → SameConfigs c (admitted_context_for context c).1
  unfolding admitted_context_for
  admitted_context_for-SameConfigs none c = unchanged c
  admitted_context_for-SameConfigs (some context) c =
      admitted_context-SameConfigs (some context) (admit_context context.kind) c

  pub submit_context-SameConfigs :
      (context : Option (Context F)) (submission : ConnectAction) (c : Client F)
      → SameConfigs c (submit_context context submission c)
  unfolding submit_context
  submit_context-SameConfigs context submission c =
      SameConfigs-trans c _ _ (admitted_context_for-SameConfigs context c) (
        connect_to_transport-SameConfigs (admitted_context_for context c).0 submission
          (admitted_context_for context c).1)

  pub initialize-SameConfigs :
      (context : Option (Context F)) (c : Client F) → SameConfigs c (initialize context c)
  unfolding initialize
  initialize-SameConfigs context c =
      SameConfigs-trans c _ _
        (if_SameConfigs c.has_received_config_set c c (record c { initializing = true })
          (unchanged c) (record { config_set = refl; serving = refl; received = refl }))
        (submit_context-SameConfigs context initialization _)

  pub keep_values-SameConfigs :
      (set : ConfigSet) (c : Client F) → SameConfigs c (keep_values_on_the_device set c)
  unfolding keep_values_on_the_device
  keep_values-SameConfigs set c =
      if_SameConfigs c.stores c _ c (record { config_set = refl; serving = refl; received = refl })
        (unchanged c)

module _ {F : Type 0} (env : Parsing F) (reactions : Reactions F) where
  pub store_context-SameConfigs :
      (context : Option (Context F)) (c : Client F)
      → SameConfigs c (store_context env reactions context c)
  store_context-SameConfigs context c =
      SameConfigs-trans c (record c { current_context = context }) _
        (record { config_set = refl; serving = refl; received = refl })
        (emit-SameConfigs env reactions (context_updated context)
          (record c { current_context = context }))

  pub announce-SameConfigs :
      (updated removed : List Text) (c : Client F)
      → SameConfigs c (announce env reactions updated removed c)
  announce-SameConfigs updated removed c =
      SameConfigs-trans c _ _ (emit-SameConfigs env reactions (configs_updated updated removed) c)
        (update_watchers-SameConfigs env reactions (updated ++ removed) _)
