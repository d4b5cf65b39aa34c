-- ===== src/Evaluator/Walk/Errors.antt =====
-- A rule whose evaluation throws.
use js_sdks.Common.{
  ◌≡◌, ◌≢◌, refl, sym, ap, ◌∙◌, Option, List, [], ◌∷◌, ◌++◌, Text, inl, inr, throws, none,
}
use js_sdks.Evaluator.Value.{Externals}
use js_sdks.Evaluator.Condition.{EvaluationContext}
use js_sdks.Evaluator.Segment.{Segments}
use js_sdks.Evaluator.Rollout.{RuleServing, not_matched}
use js_sdks.Evaluator.Types.{Rule, WalkedRule, errored}
use js_sdks.Evaluator.Rule.{explain_rule, try_rule, errored_rule}
use js_sdks.Evaluator.Walk.{walk_rules, last_serving}
use js_sdks.Evaluator.Walk.FirstMatch.{
  FallsThrough, serving_of, walk, walk_stops, walk_passes, serving_cases,
}

module _ {F : Type 0} where
  last_serving_skip :
      (w : WalkedRule F) (ws : List (WalkedRule F))
      → w.serving ≡ not_matched
      → last_serving (w ∷ ws) ≡ last_serving ws
  last_serving_skip w [] h = h
  last_serving_skip w (v ∷ ws) h = refl

module _ {F V : Type 0} (env : Externals F V) (context : Option (EvaluationContext F))
    (segments : Option Segments) (config_id : Text) where
  -- What a list of rules serves.
  abbrev pub decided : List (Rule F) → RuleServing
  decided rs = last_serving (walk_rules env context segments config_id rs)

  decided-cons :
      (r : Rule F) (rs : List (Rule F))
      → FallsThrough env context segments config_id r
      → decided (r ∷ rs) ≡ decided rs
  decided-cons r rs h = rw (walk_passes env context segments config_id r rs h) (
      last_serving_skip (explain_rule env context segments config_id r)
        (walk env context segments config_id rs) h)

  decided-stop :
      (r : Rule F) (rs ss : List (Rule F))
      → serving_of env context segments config_id r ≢ not_matched
      → decided (r ∷ rs) ≡ decided (r ∷ ss)
  decided-stop r rs ss h = rw (
    walk_stops env context segments config_id r rs h,
    walk_stops env context segments config_id r ss h,
  )

  -- A rule that falls through may be left out.
  pub decided-drop :
      (before : List (Rule F)) (r : Rule F) (after : List (Rule F))
      → FallsThrough env context segments config_id r
      → decided (before ++ r ∷ after) ≡ decided (before ++ after)
  decided-drop [] r after h = decided-cons r after h
  decided-drop (q ∷ before) r after h =
      elim (serving_cases (serving_of env context segments config_id q)) [
        | inl falls ↦
            decided-cons q (before ++ r ∷ after) falls
            ∙ decided-drop before r after h
            ∙ sym (decided-cons q (before ++ after) falls)
        | inr stops ↦ decided-stop q (before ++ r ∷ after) (before ++ after) stops
      ]

  explain_rule_throws :
      (r : Rule F)
      → try_rule env context segments r config_id ≡ throws
      → explain_rule env context segments config_id r ≡ errored_rule env context segments r
  unfolding explain_rule
  explain_rule_throws r h = rw (h, explain_rule)

  -- A rule that throws when it is evaluated is reported as errored, with no conditions and no
  -- bucket, and the rules serve what they would serve without it.
  pub decided_without_errored :
      (before : List (Rule F)) (r : Rule F) (after : List (Rule F))
      → try_rule env context segments r config_id ≡ throws
      → (decided (before ++ r ∷ after) ≡ decided (before ++ after))
        × ((explain_rule env context segments config_id r).explanation
            ≡ record { rule_id = r.id; outcome = errored; conditions = []; bucket = none })
  decided_without_errored before r after h =
      let e = explain_rule_throws r h in
      (decided-drop before r after (ap (λ w. w.serving) e), ap (λ w. w.explanation) e)
