-- ===== src/Client/Tests.antt =====
-- The client on concrete configs, over natural numbers.
use js_sdks.Common.{
  ℕ, ◌≡◌, ◌≢◌, refl, ◌↔◌, true, false, none, some, [], ◌∷◌, ◌++◌, codes, text_eq, includes, Entries,
  keys, lookup, is_some, Distinct,
}
use js_sdks.ContextKind.{not_given}
use js_sdks.ConfigValue.{JsValue, ConfigState}
use js_sdks.ConfigValue.Tests.{sample, limit, seven}
use js_sdks.Client.Types.{Context, ConfigSet, full, delta, initialization, cached}
use js_sdks.Client.CachedValues.{CachedValues, context_id}
use js_sdks.Client.Watchers.{Watchers, array_at}
use js_sdks.Client.State.{Client, config_state}
use js_sdks.Client.Evaluating.{evaluation_of, update_watchers_for_config}
use js_sdks.Client.Handling.{
  config_set_received, connect_to_transport, run_task, merge_config_set, find_keys_removed_by,
}
use js_sdks.Client.Steps.{receives, reads_cache, run, step}
use js_sdks.Client.History.{newest, history}
use js_sdks.Client.History.Newest.{config_state_of_run}
use js_sdks.Client.History.Live.{evaluation_of_received}
use js_sdks.Client.Notify.{silent, calls_of, calls_for, call_for, config_set_received-calls}
use js_sdks.Client.Notify.Skipping.{self_removing, update_watchers-skips}
use js_sdks.Client.Ready.{IsSettled, ready_of_received}
use js_sdks.Client.Removed.{find_keys_removed_by_iff}

abbrev old_limit : ConfigState
old_limit = record limit { value = some (codes "41") }

abbrev first_set : ConfigSet
first_set = record {
  environment_id = codes "e";
  project_id = codes "p";
  configs = (codes "a", old_limit) ∷ (codes "b", limit) ∷ [];
  kind = full;
}

abbrev next_set : ConfigSet
next_set = record first_set { configs = (codes "a", limit) ∷ []; kind = delta }

abbrev last_set : ConfigSet
last_set = record first_set { configs = (codes "a", limit) ∷ [] }

abbrev kept_values : CachedValues (Entries ConfigState)
kept_values = record {
  context_tag = context_id (codes "user") (codes "1");
  environment_id = codes "e";
  project_id = codes "p";
  configs = (codes "a", old_limit) ∷ [];
  received_at = 1;
}

abbrev two_watchers : Watchers (JsValue ℕ)
two_watchers = record {
  arrays =
      (record { handler = 1; default_value = seven }
        ∷ record { handler = 2; default_value = seven }
        ∷ [])
      ∷ [];
  by_key = (codes "a", 0) ∷ [];
}

abbrev user : Context ℕ
user = record { kind = not_given; id = some (codes "1"); name = none; traits = none }

abbrev start : Client ℕ
start = record {
  connects = true;
  stores = true;
  config_set = none;
  watchers = two_watchers;
  ready = false;
  initializing = false;
  has_received_config_set = false;
  serving_cached_values = false;
  cached_values_adoption_started = false;
  current_context = none;
  submitted_context = some user;
  ready_resolve = none;
  tasks = [];
  outputs = [];
}

config_state_of_run_example :
    config_state
      (run sample silent (receives first_set ∷ receives next_set ∷ []) start).config_set
      (codes "a")
    ≡ newest
        (history sample silent (receives first_set ∷ receives next_set ∷ []) start [])
        (codes "a")
unfolding history Distinct includes keys text_eq
config_state_of_run_example =
    config_state_of_run sample silent (receives first_set ∷ receives next_set ∷ []) start refl
      ((refl, tt), ((refl, (refl, tt)), tt)) (codes "a")

evaluation_of_received_example :
    (evaluation_of sample (codes "a") (some limit) seven (
      run sample silent
        (reads_cache kept_values (codes "i") ∷ [])
        (step sample silent (receives first_set) start))).0.reason
    ≢ cached
evaluation_of_received_example =
    evaluation_of_received sample silent first_set (reads_cache kept_values (codes "i") ∷ []) start
      (codes "a") (some limit) seven

config_set_received-calls_example :
    calls_of (config_set_received sample silent first_set start).outputs
    ≡ []
      ++ calls_for sample two_watchers
          (some (merge_config_set none first_set))
          (keys first_set.configs ++ find_keys_removed_by none first_set)
unfolding calls_of
config_set_received-calls_example = config_set_received-calls sample first_set start

update_watchers-skips_example :
    calls_of
      (update_watchers_for_config sample (self_removing (codes "a")) (codes "a") start).outputs
    ≡ [] ++ call_for sample none (record { handler = 1; default_value = seven }) ∷ []
unfolding lookup text_eq array_at calls_of
update_watchers-skips_example =
    update_watchers-skips sample (codes "a") start 0 (record { handler = 1; default_value = seven })
      (record { handler = 2; default_value = seven }) refl refl

ready_of_received_example : IsSettled (
    run_task sample silent (
      config_set_received sample silent first_set
        (connect_to_transport (some user) initialization start)))
ready_of_received_example = ready_of_received sample (some user) initialization first_set start refl

find_keys_removed_by_iff_example :
    (includes (find_keys_removed_by (some first_set) last_set) (codes "b") ≡ true) ↔ (
      is_some (config_state (some first_set) (codes "b")) ≡ true
      × config_state (some (merge_config_set (some first_set) last_set)) (codes "b") ≡ none)
unfolding Distinct includes keys
find_keys_removed_by_iff_example =
    find_keys_removed_by_iff (some first_set) last_set (codes "b") (refl, tt)
