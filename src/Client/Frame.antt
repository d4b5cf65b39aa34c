-- ===== src/Client/Frame.antt =====
-- What the calls of handlers leave alone: the configs of the client and where they come from.
pub mod Contexts
use js_sdks.Common.{
  ℕ, zero, suc, ◌≡◌, refl, ◌∙◌, Bool, true, false, Option, none, some, List, [], ◌∷◌, Text,
  Bool-cases, inl, inr, if◌then◌else◌, get_elem?, length, lookup,
}
use js_sdks.ConfigValue.{JsValue, ConfigState, Parsing}
use js_sdks.Client.Types.{Event}
use js_sdks.Client.Watchers.{Watcher, array_at}
use js_sdks.Client.State.{
  Client, Call, watch_call, unwatch_call, evaluate_call, unwatch_all_call, clear_call, pause_call,
  close_call, Reactions, Deferred, put, emitted, called, config_state, is_valid_default,
}
use js_sdks.Client.Evaluating.{
  settle, resolve_ready, close, pause_network, unwatch_all, watch, unwatch, evaluation_of, evaluate,
  perform, perform_all, emit, call_watcher, call_watchers, call_array, update_watchers_for_config,
  update_watchers,
}

-- The configs of a client, and the flags that tell where they come from.
pub record SameConfigs {F : Type 0} (c d : Client F) : Type 0 where
  pub config_set : c.config_set ≡ d.config_set
  pub serving : c.serving_cached_values ≡ d.serving_cached_values
  pub received : c.has_received_config_set ≡ d.has_received_config_set

module _ {F : Type 0} where
  abbrev pub unchanged : (c : Client F) → SameConfigs c c
  unchanged c = record { config_set = refl; serving = refl; received = refl }

  pub SameConfigs-trans : (b c d : Client F) → SameConfigs b c → SameConfigs c d → SameConfigs b d
  SameConfigs-trans b c d h k = record {
    config_set = h.config_set ∙ k.config_set;
    serving = h.serving ∙ k.serving;
    received = h.received ∙ k.received;
  }

  pub if_SameConfigs :
      (b : Bool) (c d e : Client F)
      → SameConfigs c d
      → SameConfigs c e
      → SameConfigs c (if b then d else e)
  if_SameConfigs true c d e h k = h
  if_SameConfigs false c d e h k = k

  settle-SameConfigs :
      (cancelled : Bool) (c : Client F) (d : Option Deferred) → SameConfigs c (settle cancelled c d)
  settle-SameConfigs cancelled c none = unchanged c
  settle-SameConfigs cancelled c (some d) =
      if_SameConfigs d.settled c c _ (unchanged c)
        (record { config_set = refl; serving = refl; received = refl })

  pub resolve_ready-SameConfigs :
      (cancelled : Bool) (c : Client F) → SameConfigs c (resolve_ready cancelled c)
  unfolding resolve_ready
  resolve_ready-SameConfigs cancelled c = settle-SameConfigs cancelled c c.ready_resolve

  close-SameConfigs : (c : Client F) → SameConfigs c (close c)
  unfolding close resolve_ready
  close-SameConfigs c =
      let settled = settle-SameConfigs true c c.ready_resolve in
      record {
        config_set = settled.config_set;
        serving = settled.serving;
        received = settled.received;
      }

  pause_network-SameConfigs : (c : Client F) → SameConfigs c (pause_network c)
  unfolding pause_network
  pause_network-SameConfigs c =
      if_SameConfigs c.connects c _ c
        (record { config_set = refl; serving = refl; received = refl }) (unchanged c)

  watch-SameConfigs :
      (key : Text) (default : JsValue F) (callback : ℕ) (c : Client F)
      → SameConfigs c (watch key default callback c)
  unfolding watch
  watch-SameConfigs key default callback c =
      if_SameConfigs (is_valid_default default) c _ c
        (record { config_set = refl; serving = refl; received = refl }) (unchanged c)

module _ {F : Type 0} (env : Parsing F) where
  evaluation_of-SameConfigs :
      (key : Text) (state : Option ConfigState) (default : JsValue F) (c : Client F)
      → SameConfigs c (evaluation_of env key state default c).1
  unfolding evaluation_of
  evaluation_of-SameConfigs key none default c = record {
    config_set = refl;
    serving = refl;
    received = refl;
  }
  evaluation_of-SameConfigs key (some state) default c = record {
    config_set = refl;
    serving = refl;
    received = refl;
  }

  evaluate-SameConfigs :
      (key : Text) (default : JsValue F) (c : Client F)
      → SameConfigs c (evaluate env key default c).1
  unfolding evaluate
  evaluate-SameConfigs key default c = elim (Bool-cases (is_valid_default default)) [
    | inl valid ↦ rw valid (evaluation_of-SameConfigs key (config_state c.config_set key) default c)
    | inr invalid ↦ rw invalid (unchanged c)
  ]

  pub perform-SameConfigs : (call : Call F) (c : Client F) → SameConfigs c (perform env call c)
  unfolding perform unwatch unwatch_all
  perform-SameConfigs (watch_call key default callback) c = watch-SameConfigs key default callback c
  perform-SameConfigs (unwatch_call key callback) c = record {
    config_set = refl;
    serving = refl;
    received = refl;
  }
  perform-SameConfigs (evaluate_call key default) c = evaluate-SameConfigs key default c
  perform-SameConfigs unwatch_all_call c = record {
    config_set = refl;
    serving = refl;
    received = refl;
  }
  perform-SameConfigs clear_call c = record { config_set = refl; serving = refl; received = refl }
  perform-SameConfigs pause_call c = pause_network-SameConfigs c
  perform-SameConfigs close_call c = close-SameConfigs c

  perform_all-SameConfigs :
      (calls : List (Call F)) (c : Client F) → SameConfigs c (perform_all env calls c)
  unfolding perform_all
  perform_all-SameConfigs [] c = unchanged c
  perform_all-SameConfigs (call ∷ calls) c =
      SameConfigs-trans c (perform env call c) _ (perform-SameConfigs call c)
        (perform_all-SameConfigs calls (perform env call c))

  module _ (reactions : Reactions F) where
    pub emit-SameConfigs :
        (event : Event F) (c : Client F) → SameConfigs c (emit env reactions event c)
    unfolding emit
    emit-SameConfigs event c =
        SameConfigs-trans c (put (emitted event) c) _
          (record { config_set = refl; serving = refl; received = refl })
          (perform_all-SameConfigs (reactions.on_event event) (put (emitted event) c))

    call_watcher-SameConfigs :
        (key : Text) (state : Option ConfigState) (h : Option (Watcher (JsValue F))) (c : Client F)
        → SameConfigs c (call_watcher env reactions key state h c)
    unfolding call_watcher
    call_watcher-SameConfigs key state none c = unchanged c
    call_watcher-SameConfigs key state (some h) c =
        let evaluation = (evaluation_of env key state h.default_value c).0 in
        let next = (evaluation_of env key state h.default_value c).1 in
        SameConfigs-trans c next _ (evaluation_of-SameConfigs key state h.default_value c) (
          SameConfigs-trans next (put (called h.handler evaluation.value) next) _
            (record { config_set = refl; serving = refl; received = refl })
            (perform_all-SameConfigs (reactions.on_value h.handler evaluation.value)
              (put (called h.handler evaluation.value) next)))

    call_watchers-SameConfigs :
        (key : Text) (state : Option ConfigState) (array n i : ℕ) (c : Client F)
        → SameConfigs c (call_watchers env reactions key state array n i c)
    unfolding call_watchers
    call_watchers-SameConfigs key state array zero i c = unchanged c
    call_watchers-SameConfigs key state array (suc n) i c =
        SameConfigs-trans c _ _
          (call_watcher-SameConfigs key state (get_elem? (array_at array c.watchers) i) c)
          (call_watchers-SameConfigs key state array n (suc i) _)

    call_array-SameConfigs :
        (key : Text) (state : Option ConfigState) (array : Option ℕ) (c : Client F)
        → SameConfigs c (call_array env reactions key state array c)
    call_array-SameConfigs key state none c = unchanged c
    call_array-SameConfigs key state (some array) c =
        call_watchers-SameConfigs key state array (length (array_at array c.watchers)) 0 c

    pub update_watchers-SameConfigs :
        (config_keys : List Text) (c : Client F)
        → SameConfigs c (update_watchers env reactions config_keys c)
    unfolding update_watchers update_watchers_for_config
    update_watchers-SameConfigs [] c = unchanged c
    update_watchers-SameConfigs (key ∷ rest) c =
        SameConfigs-trans c (update_watchers_for_config env reactions key c) _
          (call_array-SameConfigs key (config_state c.config_set key) (lookup key c.watchers.by_key)
            c)
          (update_watchers-SameConfigs rest (update_watchers_for_config env reactions key c))
