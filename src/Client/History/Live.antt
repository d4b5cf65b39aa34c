-- ===== src/Client/History/Live.antt =====
-- Cached values are served only before the first live set.
use js_sdks.Common.{
  ◌≡◌, ◌≢◌, sym, ◌∙◌, inl, inr, Bool, true, false, Option, none, some, List, [], ◌∷◌, Text,
}
use js_sdks.ConfigValue.{JsValue, Reason, ConfigState, Parsing, parse_config_value}
use js_sdks.Client.Types.{cached}
use js_sdks.Client.State.{served, default_reason, served_reason}
use js_sdks.Client.Evaluating.{evaluation_of}
use js_sdks.Client.Types.{ConfigSet}
use js_sdks.Client.State.{Client, Reactions}
use js_sdks.Client.Steps.{Step, receives, step, run}
use js_sdks.Client.History.{delivered}
use js_sdks.Client.History.Cases.{receives-live, StepCases, step-cases}

module _ {F : Type 0} where
  -- The client has received a set, and serves no cached values.
  abbrev pub IsLive : Client F → Type 0
  IsLive c = c.serving_cached_values ≡ false × c.has_received_config_set ≡ true

module _ {F : Type 0} (env : Parsing F) (reactions : Reactions F) where
  StepCases-IsLive :
      (c d : Client F) (sets after : List ConfigSet)
      → StepCases c d sets after
      → IsLive c
      → IsLive d
  StepCases-IsLive c d sets after (inl (same, e)) h =
      (sym same.serving ∙ h.0, sym same.received ∙ h.1)
  StepCases-IsLive c d sets after (inr one) h = elim one.origin [
    | inl live ↦ live
    | inr (never, _) ↦ (let live = h.1 in cc)
  ]

  run-IsLive :
      (steps : List (Step F)) (c : Client F) → IsLive c → IsLive (run env reactions steps c)
  unfolding run
  run-IsLive [] c h = h
  run-IsLive (s ∷ steps) c h = run-IsLive steps (step env reactions s c) (
      StepCases-IsLive c (step env reactions s c) [] (delivered s c [])
        (step-cases env reactions s c []) h)

default_reason_live : (ready : Bool) → default_reason ready ≢ cached
default_reason_live true e = cc
default_reason_live false e = cc

served_live : (serving : Bool) (reason : Reason) → serving ≡ false → served serving reason ≢ cached
served_live true reason h e = cc
served_live false reason h e = cc

module _ {F : Type 0} (env : Parsing F) where
  evaluation_of_live :
      (key : Text) (state : Option ConfigState) (default : JsValue F) (c : Client F)
      → c.serving_cached_values ≡ false
      → (evaluation_of env key state default c).0.reason ≢ cached
  unfolding evaluation_of served_reason
  evaluation_of_live key none default c h e = default_reason_live c.ready e
  evaluation_of_live key (some state) default c h e =
      served_live c.serving_cached_values
        (parse_config_value env state default).value_and_reason.reason h e

module _ {F : Type 0} (env : Parsing F) (reactions : Reactions F) where
  -- Once a set has been received, no evaluation gives the reason `cached`, whatever happens since:
  -- values of the device that are read late are not adopted.
  pub evaluation_of_received :
      (set : ConfigSet) (steps : List (Step F)) (c : Client F) (key : Text)
      (state : Option ConfigState) (default : JsValue F)
      → (evaluation_of env key state default
          (run env reactions steps (step env reactions (receives set) c))).0.reason
        ≢ cached
  unfolding step
  evaluation_of_received set steps c key state default =
      evaluation_of_live env key state default _
        (run-IsLive env reactions steps _ (receives-live env reactions set c)).0
