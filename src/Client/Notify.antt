-- ===== src/Client/Notify.antt =====
-- Which handlers of `watch` a received set calls, when the handlers call nothing themselves.
pub mod Skipping
use js_sdks.Common.{
  ℕ, zero, suc, ◌≡◌, refl, sym, ap, ap₂, subst, ◌∙◌, Bool, true, false, Option, none, some, List,
  [], ◌∷◌, ◌++◌, map, Text, append-nil, append_assoc, flatten, get_elem?, head?, drop, length,
  lookup, keys, if◌then◌else◌,
}
use js_sdks.ConfigValue.{JsValue, ConfigState, Parsing, parse_config_value}
use js_sdks.Client.Types.{ConfigSet, Event, configs_updated}
use js_sdks.Client.Watchers.{Watcher, Watchers, array_at}
use js_sdks.Client.State.{
  Client, Output, emitted, called, scheduled, reported, keep_values, invalid_context,
  telemetry_context, telemetry_closed, transport_connect, transport_closed, adoption_started,
  Deferred, Reactions, put, config_state,
}
use js_sdks.Client.Evaluating.{
  settle, resolve_ready, evaluation_of, emit, perform_all, call_watcher, call_watchers, call_array,
  update_watchers_for_config, update_watchers,
}
use js_sdks.Client.Handling.{
  config_set_received, announce, keep_values_on_the_device, merge_config_set, find_keys_removed_by,
}

module _ {F : Type 0} where
  -- Handlers that make no calls.
  abbrev pub silent : Reactions F
  silent = record { on_value = λ h v. []; on_event = λ event. [] }

  -- The handlers of `watch` that were called, in order, with their values.
  unfoldable pub calls_of : List (Output F) → List (ℕ × JsValue F)
  calls_of [] = []
  calls_of (called h v ∷ outputs) = (h, v) ∷ calls_of outputs
  calls_of (emitted event ∷ outputs) = calls_of outputs
  calls_of (scheduled evaluation ∷ outputs) = calls_of outputs
  calls_of (reported event ∷ outputs) = calls_of outputs
  calls_of (invalid_context sample ∷ outputs) = calls_of outputs
  calls_of (telemetry_context context ∷ outputs) = calls_of outputs
  calls_of (telemetry_closed ∷ outputs) = calls_of outputs
  calls_of (transport_connect context caller ∷ outputs) = calls_of outputs
  calls_of (transport_closed ∷ outputs) = calls_of outputs
  calls_of (adoption_started ∷ outputs) = calls_of outputs
  calls_of (keep_values context set ∷ outputs) = calls_of outputs

  pub calls_of-append : (xs ys : List (Output F)) → calls_of (xs ++ ys) ≡ calls_of xs ++ calls_of ys
  unfolding calls_of
  calls_of-append [] ys = refl
  calls_of-append (called h v ∷ xs) ys = ap (λ l. (h, v) ∷ l) (calls_of-append xs ys)
  calls_of-append (emitted event ∷ xs) ys = calls_of-append xs ys
  calls_of-append (scheduled evaluation ∷ xs) ys = calls_of-append xs ys
  calls_of-append (reported event ∷ xs) ys = calls_of-append xs ys
  calls_of-append (invalid_context sample ∷ xs) ys = calls_of-append xs ys
  calls_of-append (telemetry_context context ∷ xs) ys = calls_of-append xs ys
  calls_of-append (telemetry_closed ∷ xs) ys = calls_of-append xs ys
  calls_of-append (transport_connect context caller ∷ xs) ys = calls_of-append xs ys
  calls_of-append (transport_closed ∷ xs) ys = calls_of-append xs ys
  calls_of-append (adoption_started ∷ xs) ys = calls_of-append xs ys
  calls_of-append (keep_values context set ∷ xs) ys = calls_of-append xs ys

  -- The handlers of a key, in the order in which they were given.
  abbrev pub handlers_of : Option ℕ → Watchers (JsValue F) → List (Watcher (JsValue F))
  handlers_of none w = []
  handlers_of (some array) w = array_at array w

-- The client afterwards has the same watchers and configs, and has called these handlers more.
pub record Calls {F : Type 0} (c d : Client F) (calls : List (ℕ × JsValue F)) : Type 0 where
  pub watchers : d.watchers ≡ c.watchers
  pub config_set : d.config_set ≡ c.config_set
  pub outputs : calls_of d.outputs ≡ calls_of c.outputs ++ calls

module _ {F : Type 0} where
  Calls-trans :
      (b c d : Client F) (xs ys : List (ℕ × JsValue F))
      → Calls b c xs
      → Calls c d ys
      → Calls b d (xs ++ ys)
  Calls-trans b c d xs ys h k = record {
    watchers = k.watchers ∙ h.watchers;
    config_set = k.config_set ∙ h.config_set;
    outputs = rw (k.outputs, h.outputs) (append_assoc (calls_of b.outputs) xs ys);
  }

  Calls-none : (c : Client F) → Calls c c []
  Calls-none c = record {
    watchers = refl;
    config_set = refl;
    outputs = sym (append-nil (calls_of c.outputs));
  }

  if_Calls :
      (b : Bool) (c d e : Client F) (calls : List (ℕ × JsValue F))
      → Calls c d calls
      → Calls c e calls
      → Calls c (if b then d else e) calls
  if_Calls true c d e calls h k = h
  if_Calls false c d e calls h k = k

module _ {ℓ} {A : Type ℓ} where
  get_elem?-drop :
      (xs : List A) (i : ℕ) (y : A) (ys : List A) → drop i xs ≡ y ∷ ys → get_elem? xs i ≡ some y
  get_elem?-drop [] zero y ys e = cc
  get_elem?-drop [] (suc i) y ys e = cc
  get_elem?-drop (x ∷ xs) zero y ys e = cc
  get_elem?-drop (x ∷ xs) (suc i) y ys e = get_elem?-drop xs i y ys e

  drop-suc : (xs : List A) (i : ℕ) (y : A) (ys : List A) → drop i xs ≡ y ∷ ys → drop (suc i) xs ≡ ys
  drop-suc [] zero y ys e = cc
  drop-suc [] (suc i) y ys e = cc
  drop-suc (x ∷ xs) zero y ys e = cc
  drop-suc (x ∷ xs) (suc i) y ys e = drop-suc xs i y ys e

module _ {F : Type 0} (env : Parsing F) where
  -- The value of a config for a default value.
  abbrev pub value_for : Option ConfigState → JsValue F → JsValue F
  value_for none default = default
  value_for (some state) default =
      (parse_config_value env state default).value_and_reason.parsed_value

  abbrev pub call_for : Option ConfigState → Watcher (JsValue F) → ℕ × JsValue F
  call_for state h = (h.handler, value_for state h.default_value)

  call_watcher-Calls :
      (key : Text) (state : Option ConfigState) (h : Watcher (JsValue F)) (c : Client F)
      → Calls c (call_watcher env silent key state (some h) c) (call_for state h ∷ [])
  unfolding call_watcher evaluation_of perform_all calls_of
  call_watcher-Calls key none h c = record {
    watchers = refl;
    config_set = refl;
    outputs = simp (calls_of-append, append-nil);
  }
  call_watcher-Calls key (some state) h c = record {
    watchers = refl;
    config_set = refl;
    outputs = simp (calls_of-append, append-nil);
  }

  -- The handlers from an index on are called with their values.
  call_watchers-Calls :
      (key : Text) (state : Option ConfigState) (array : ℕ) (hs : List (Watcher (JsValue F)))
      (i : ℕ) (c : Client F)
      → drop i (array_at array c.watchers) ≡ hs
      → Calls c (call_watchers env silent key state array (length hs) i c) (map (call_for state) hs)
  unfolding call_watchers
  call_watchers-Calls key state array [] i c e = Calls-none c
  call_watchers-Calls key state array (h ∷ hs) i c e =
      let next = call_watcher env silent key state (some h) c in
      let first = call_watcher-Calls key state h c in
      subst
        (λ slot.
          Calls c
            (call_watchers env silent key state array (length hs) (suc i)
              (call_watcher env silent key state slot c))
            (map (call_for state) (h ∷ hs)))
        (sym (get_elem?-drop (array_at array c.watchers) i h hs e))
        (Calls-trans c next _ (call_for state h ∷ []) (map (call_for state) hs) first (
          call_watchers-Calls key state array hs (suc i) next
            (rw first.watchers (drop-suc (array_at array c.watchers) i h hs e))))

  call_array-Calls :
      (key : Text) (state : Option ConfigState) (array : Option ℕ) (c : Client F)
      → Calls c
          (call_array env silent key state array c)
          (map (call_for state) (handlers_of array c.watchers))
  call_array-Calls key state none c = Calls-none c
  call_array-Calls key state (some array) c =
      call_watchers-Calls key state array (array_at array c.watchers) 0 c refl

  -- The calls for a list of keys.
  unfoldable pub calls_for :
      Watchers (JsValue F) → Option ConfigSet → List Text → List (ℕ × JsValue F)
  calls_for w set [] = []
  calls_for w set (key ∷ rest) =
      map (call_for (config_state set key)) (handlers_of (lookup key w.by_key) w)
      ++ calls_for w set rest

  update_watchers-Calls :
      (config_keys : List Text) (c : Client F)
      → Calls c
          (update_watchers env silent config_keys c)
          (calls_for c.watchers c.config_set config_keys)
  unfolding update_watchers update_watchers_for_config calls_for
  update_watchers-Calls [] c = Calls-none c
  update_watchers-Calls (key ∷ rest) c =
      let next = update_watchers_for_config env silent key c in
      let first =
        call_array-Calls key (config_state c.config_set key) (lookup key c.watchers.by_key) c in
      Calls-trans c next _ _ (calls_for c.watchers c.config_set rest) first (
        subst (λ calls. Calls next (update_watchers env silent rest next) calls)
          (ap₂ (λ w set. calls_for w set rest) first.watchers first.config_set)
          (update_watchers-Calls rest next))

  keep_values-Calls :
      (set : ConfigSet) (c : Client F) → Calls c (keep_values_on_the_device set c) []
  unfolding keep_values_on_the_device calls_of
  keep_values-Calls set c =
      if_Calls c.stores c _ c []
        (record {
          watchers = refl;
          config_set = refl;
          outputs = calls_of-append c.outputs (keep_values c.submitted_context set ∷ []);
        })
        (Calls-none c)

  announce-Calls :
      (updated removed : List Text) (c : Client F)
      → Calls c
          (announce env silent updated removed c)
          (calls_for c.watchers c.config_set (updated ++ removed))
  unfolding emit perform_all calls_of
  announce-Calls updated removed c =
      let event = configs_updated updated removed in
      Calls-trans c (put (emitted event) c) _ [] _
        (record {
          watchers = refl;
          config_set = refl;
          outputs = calls_of-append c.outputs (emitted event ∷ []);
        })
        (update_watchers-Calls (updated ++ removed) (put (emitted event) c))

  settle-Calls :
      (cancelled : Bool) (c : Client F) (d : Option Deferred) → Calls c (settle cancelled c d) []
  settle-Calls cancelled c none = Calls-none c
  settle-Calls cancelled c (some d) = if_Calls d.settled c c _ [] (Calls-none c) (record {
    watchers = refl;
    config_set = refl;
    outputs = sym (append-nil (calls_of c.outputs));
  })

  -- When the handlers make no calls, a received set calls each handler of each key that it has or
  -- removes, in this order, with the value that the config then has for the handler's default value.
  pub config_set_received-calls :
      (set : ConfigSet) (c : Client F)
      → calls_of (config_set_received env silent set c).outputs
        ≡ calls_of c.outputs
          ++ calls_for c.watchers
              (some (merge_config_set c.config_set set))
              (keys set.configs ++ find_keys_removed_by c.config_set set)
  unfolding config_set_received resolve_ready
  config_set_received-calls set c =
      let started = record c { has_received_config_set = true; serving_cached_values = false } in
      let settled = settle-Calls false started c.ready_resolve in
      let next = merge_config_set c.config_set set in
      let mid = record (resolve_ready false started) { config_set = some next } in
      let kept = keep_values-Calls next mid in
      let told =
        announce-Calls (keys set.configs) (find_keys_removed_by c.config_set set)
          (keep_values_on_the_device next mid) in
      rw
        (
          told.outputs, kept.outputs, settled.outputs, kept.watchers, kept.config_set,
          settled.watchers,
        )
        (simp (append-nil))
