-- ===== src/Client/History/Newest.antt =====
-- What a client reads after any steps: the newest entry that was delivered to it.
use js_sdks.Common.{
  ◌≡◌, refl, subst, sym, inl, inr, Option, none, some, List, [], ◌∷◌, Text, All, Distinct, keys,
  lookup, or_option-none, lookup-spread,
}
use js_sdks.ConfigValue.{ConfigState, Parsing}
use js_sdks.Client.Types.{ConfigSet, SetKind, full, delta}
use js_sdks.Client.State.{Client, Reactions, config_state}
use js_sdks.Client.Handling.{merged_into, merge_config_set}
use js_sdks.Client.Steps.{Step, step, run}
use js_sdks.Client.History.{newer, newest, delivered, history, HasDistinctKeys}
use js_sdks.Client.History.Cases.{StepCases, step-cases}

-- The client reads what the sets say.
abbrev Reads : {F : Type 0} → Client F → List ConfigSet → Type 0
Reads c sets = (key : Text) → config_state c.config_set key ≡ newest sets key

merged_into-newest :
    (kind : SetKind) (set : ConfigSet) (old : Option ConfigSet) (older : Option ConfigState)
    (key : Text)
    → Distinct (keys set.configs)
    → config_state old key ≡ older
    → config_state (some (merged_into kind set old)) key ≡ newer kind (lookup key set.configs) older
merged_into-newest full set old older key d h = refl
merged_into-newest delta set none older key d h = rw⁻¹ h (or_option-none (lookup key set.configs))
merged_into-newest delta set (some old) older key d h =
    rw⁻¹ h (lookup-spread key old.configs set.configs d)

module _ {F : Type 0} (env : Parsing F) (reactions : Reactions F) where
  StepCases-Reads :
      (c d : Client F) (sets after : List ConfigSet)
      → StepCases c d sets after
      → All HasDistinctKeys after
      → Reads c sets
      → Reads d after
  unfolding newest merge_config_set
  StepCases-Reads c d sets after (inl (same, e)) well h key = rw (e, sym same.config_set) (h key)
  StepCases-Reads c d sets after (inr one) well h key =
      rw (one.kept, one.merged)
        (merged_into-newest one.set.kind one.set c.config_set (newest sets key) key
          (subst (λ l. All HasDistinctKeys l) one.kept well).0 (h key))

  StepCases-All :
      (c d : Client F) (sets after : List ConfigSet)
      → StepCases c d sets after
      → All HasDistinctKeys after
      → All HasDistinctKeys sets
  StepCases-All c d sets after (inl (same, e)) well = subst (λ l. All HasDistinctKeys l) e well
  StepCases-All c d sets after (inr one) well = (subst (λ l. All HasDistinctKeys l) one.kept well).1

  history-All :
      (steps : List (Step F)) (c : Client F) (sets : List ConfigSet)
      → All HasDistinctKeys (history env reactions steps c sets)
      → All HasDistinctKeys sets
  unfolding history
  history-All [] c sets well = well
  history-All (s ∷ steps) c sets well =
      StepCases-All c (step env reactions s c) sets (delivered s c sets)
        (step-cases env reactions s c sets)
        (history-All steps (step env reactions s c) (delivered s c sets) well)

  run-Reads :
      (steps : List (Step F)) (c : Client F) (sets : List ConfigSet)
      → All HasDistinctKeys (history env reactions steps c sets)
      → Reads c sets
      → Reads (run env reactions steps c) (history env reactions steps c sets)
  unfolding run history
  run-Reads [] c sets well h = h
  run-Reads (s ∷ steps) c sets well h =
      run-Reads steps (step env reactions s c) (delivered s c sets) well (
        StepCases-Reads c (step env reactions s c) sets (delivered s c sets)
          (step-cases env reactions s c sets)
          (history-All steps (step env reactions s c) (delivered s c sets) well) h)

module _ {F : Type 0} (env : Parsing F) (reactions : Reactions F) where
  -- After any steps of a client that starts without configs, where the sets have no key twice, a key
  -- reads as the newest of the delivered sets says: a full set replaces all entries before it, a
  -- delta those of its keys, and cached values count as a full set when they are adopted.
  pub config_state_of_run :
      (steps : List (Step F)) (c : Client F)
      → c.config_set ≡ none
      → All HasDistinctKeys (history env reactions steps c [])
      → (key : Text)
      → config_state (run env reactions steps c).config_set key
        ≡ newest (history env reactions steps c []) key
  unfolding newest
  config_state_of_run steps c h well key =
      run-Reads env reactions steps c [] well (λ k. rw h refl) key
