-- ===== src/Evaluator/Rule/Conditions.antt =====
-- When a conditional rule serves.
use js_sdks.Common.{
  Fallible-cases, returns-injective, ◌≡◌, ◌≢◌, refl, sym, ap, ◌∙◌, Bool, true, false, Option, none,
  List, [], ◌∷◌, Text, All, arith, inl, inr, Bool-cases, if◌then◌else◌, Fallible, returns, throws,
  ◌>>=◌, or_else,
}
use js_sdks.Evaluator.Value.{Externals}
use js_sdks.Evaluator.Condition.{EvaluationContext, Condition}
use js_sdks.Evaluator.Segment.{Segments}
use js_sdks.Evaluator.Rollout.{not_matched}
use js_sdks.Evaluator.Types.{Rule, WalkedRule, ConditionExplanation}
use js_sdks.Evaluator.Rule.{
  explain_condition, explain_conditions, has_matched, not_evaluated_from, explain_conditional_rule,
  serve_target, walked,
}

module _ {F V : Type 0} (env : Externals F V) (context : Option (EvaluationContext F))
    (segments : Option Segments) where
  -- The condition is evaluated, and matches.
  abbrev pub IsMatched : Condition → Type 0
  IsMatched c =
      (e : ConditionExplanation F) × (explain_condition env context segments c ≡ returns e)
      × (has_matched e ≡ true)

  abbrev Explained : Type 0
  Explained = List (ConditionExplanation F) × Bool

  abbrev run : List Condition → Fallible Explained
  run cs = explain_conditions env context segments cs

  run_throws :
      (c : Condition) (cs : List Condition)
      → explain_condition env context segments c ≡ throws
      → run (c ∷ cs) ≡ throws
  unfolding explain_conditions
  run_throws c cs h = rw (h, ◌>>=◌)

  run_stops :
      (c : Condition) (cs : List Condition) (e : ConditionExplanation F)
      → explain_condition env context segments c ≡ returns e
      → has_matched e ≡ false
      → run (c ∷ cs) ≡ returns (e ∷ not_evaluated_from env context segments cs, true)
  unfolding explain_conditions
  run_stops c cs e h k = rw (h, ◌>>=◌) (rw k)

  run_goes :
      (c : Condition) (cs : List Condition) (e : ConditionExplanation F)
      → explain_condition env context segments c ≡ returns e
      → has_matched e ≡ true
      → run (c ∷ cs) ≡ (run cs >>= λ explained. returns (e ∷ explained.0, explained.1))
  unfolding explain_conditions
  run_goes c cs e h k = rw (h, ◌>>=◌) (rw k)

  add_front : ConditionExplanation F → Fallible Explained → Fallible Explained
  add_front e m = m >>= λ explained. returns (e ∷ explained.0, explained.1)

  add_front-false :
      (e : ConditionExplanation F) (m : Fallible Explained) (es : List (ConditionExplanation F))
      → add_front e m ≡ returns (es, false)
      → (ds : List (ConditionExplanation F)) × (m ≡ returns (ds, false))
  unfolding add_front
  add_front-false e throws es h = cc
  add_front-false e (returns (ds, flag)) es h = (ds, ground arith)

  IsMatched-of_run :
      (cs : List Condition) (es : List (ConditionExplanation F))
      → run cs ≡ returns (es, false)
      → All IsMatched cs
  unfolding add_front
  IsMatched-of_run [] es h = tt
  IsMatched-of_run (c ∷ cs) es h =
      elim (Fallible-cases (explain_condition env context segments c)) [
        | inl bad ↦ cc (run_throws c cs bad, h)
        | inr (e, fine) ↦ elim (Bool-cases (has_matched e)) [
          | inr no_match ↦ cc (run_stops c cs e fine no_match, h)
          | inl match ↦
              let (ds, rest) =
                add_front-false e (run cs) es (sym (run_goes c cs e fine match) ∙ h) in
              ((e, fine, match), IsMatched-of_run cs ds rest)
        ]
      ]

  run_of_matched :
      (cs : List Condition)
      → All IsMatched cs
      → (es : List (ConditionExplanation F)) × (run cs ≡ returns (es, false))
        × All (λ e. has_matched e ≡ true) es
  run_of_matched [] h = ([], unfold explain_conditions in refl, tt)
  run_of_matched (c ∷ cs) ((e, fine, match), hs) =
      let (es, rest, all) = run_of_matched cs hs in
      (e ∷ es, run_goes c cs e fine match ∙ rw rest, (match, all))

  abbrev pub result_of : Rule F → Text → List (ConditionExplanation F) → WalkedRule F
  result_of r config_id es =
      walked env context segments r es (serve_target env context segments r config_id)

  rule_of_throw :
      (r : Rule F) (config_id : Text)
      → run (or_else r.conditions []) ≡ throws
      → explain_conditional_rule env context segments r config_id ≡ throws
  unfolding explain_conditional_rule
  rule_of_throw r config_id h = rw (h, ◌>>=◌)

  rule_of_run :
      (r : Rule F) (config_id : Text) (es : List (ConditionExplanation F)) (flag : Bool)
      → run (or_else r.conditions []) ≡ returns (es, flag)
      → explain_conditional_rule env context segments r config_id
        ≡ returns (
            walked env context segments r es
              (if flag then (not_matched, none) else serve_target env context segments r config_id))
  unfolding explain_conditional_rule
  rule_of_run r config_id es flag h = rw (h, ◌>>=◌)

  serving_of_run :
      (r : Rule F) (config_id : Text) (m : Fallible Explained) (w : WalkedRule F)
      → run (or_else r.conditions []) ≡ m
      → explain_conditional_rule env context segments r config_id ≡ returns w
      → w.serving ≢ not_matched
      → (es : List (ConditionExplanation F)) × (m ≡ returns (es, false))
  serving_of_run r config_id throws w e h serves = cc (rule_of_throw r config_id e, h)
  serving_of_run r config_id (returns (es, false)) w e h serves = (es, refl)
  serving_of_run r config_id (returns (es, true)) w e h serves = absurd (
      serves
        (ap (λ v. v.serving) (returns-injective w _ (sym h ∙ rule_of_run r config_id es true e))))

  -- A conditional rule serves a value, or skips a rollout for want of an identifier, only if each of
  -- its conditions was evaluated and matched.
  pub explain_conditional_rule_serves :
      (r : Rule F) (config_id : Text) (w : WalkedRule F)
      → explain_conditional_rule env context segments r config_id ≡ returns w
      → w.serving ≢ not_matched
      → All IsMatched (or_else r.conditions [])
  explain_conditional_rule_serves r config_id w h serves =
      let (es, done) = serving_of_run r config_id (run (or_else r.conditions [])) w refl h serves in
      IsMatched-of_run (or_else r.conditions []) es done

  -- If each condition of a conditional rule is evaluated and matches, the rule does what its target
  -- says, and its explanation lists conditions that matched.
  pub explain_conditional_rule_of_matched :
      (r : Rule F) (config_id : Text)
      → All IsMatched (or_else r.conditions [])
      → (es : List (ConditionExplanation F)) × (explain_conditional_rule env context segments r
            config_id
          ≡ returns (result_of r config_id es))
        × All (λ e. has_matched e ≡ true) es
  explain_conditional_rule_of_matched r config_id all =
      let (es, done, matched) = run_of_matched (or_else r.conditions []) all in
      (es, rule_of_run r config_id es false done, matched)
