-- ===== src/Client/Steps.antt =====
-- The client as a state machine: each call of its API, each event of its transport, each task of its
-- promises and timers is a step.
use js_sdks.Common.{Bool, Option, List, [], ◌∷◌, Text, Entries}
use js_sdks.ConfigValue.{ConfigState, Parsing}
use js_sdks.Client.Types.{Context, ConfigSet, Evaluation}
use js_sdks.Client.CachedValues.{CachedValues}
use js_sdks.Client.State.{Client, Call, Reactions}
use js_sdks.Client.Evaluating.{perform}
use js_sdks.Client.Handling.{
  initialize, update_context, resume_network, config_set_received, connection_failed,
  adopt_cached_values, transport_connected, connect_failed, run_task, dispatch_evaluation,
}

pub data Step (F : Type 0) : Type 0 where
  application : Call F → Step F
  initializes : Option (Context F) → Step F
  updates_context : Context F → Step F
  resumes : Step F
  receives : ConfigSet → Step F
  fails : Text → Step F
  reads_cache : CachedValues (Entries ConfigState) → Text → Step F
  connects : Option (Context F) → Step F
  refuses : Bool → Step F
  runs_task : Step F
  dispatches : Evaluation F → Step F

module _ {F : Type 0} (env : Parsing F) (reactions : Reactions F) where
  unfoldable pub step : Step F → Client F → Client F
  unfolding perform initialize update_context resume_network config_set_received connection_failed
      adopt_cached_values transport_connected connect_failed run_task dispatch_evaluation
  step (application call) c = perform env call c
  step (initializes context) c = initialize context c
  step (updates_context context) c = update_context env reactions context c
  step resumes c = resume_network c
  step (receives set) c = config_set_received env reactions set c
  step (fails error) c = connection_failed env reactions error c
  step (reads_cache values instance_id) c = adopt_cached_values env reactions values instance_id c
  step (connects context) c = transport_connected env reactions context c
  step (refuses is_initialization_error) c = connect_failed is_initialization_error c
  step runs_task c = run_task env reactions c
  step (dispatches evaluation) c = dispatch_evaluation env reactions evaluation c

  unfoldable pub run : List (Step F) → Client F → Client F
  unfolding step
  run [] c = c
  run (s ∷ steps) c = run steps (step s c)
