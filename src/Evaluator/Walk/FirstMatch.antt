-- ===== src/Evaluator/Walk/FirstMatch.antt =====
-- Which rule decides: the first one, in the order of the rules, that does not fall through.
use js_sdks.Common.{
  ◌≡◌, ◌≢◌, refl, ap, ◌∙◌, false, Option, List, [], ◌∷◌, ◌++◌, map, Text, length, drop, All, ◌⊎◌,
  inl, inr, append-nil, append_assoc, map-append,
}
use js_sdks.Evaluator.Value.{Externals}
use js_sdks.Evaluator.Condition.{EvaluationContext}
use js_sdks.Evaluator.Segment.{Segments}
use js_sdks.Evaluator.Rollout.{RuleServing, served, not_matched, rollout_skipped_no_identifier}
use js_sdks.Evaluator.Types.{Rule, Config, WalkedRule, RuleExplanation, found_match}
use js_sdks.Evaluator.Rule.{explain_rule}
use js_sdks.Evaluator.Walk.{
  is_not_matched, walk_rules, last_serving, rule_explanations, not_evaluated_rule, sort_rules,
  rules_of, conclude, default_explanation, explain,
}

is_not_matched_no : (s : RuleServing) → s ≢ not_matched → is_not_matched s ≡ false
is_not_matched_no (served id v) h = refl
is_not_matched_no rollout_skipped_no_identifier h = refl
is_not_matched_no not_matched h = absurd (h refl)

pub serving_cases : (s : RuleServing) → (s ≡ not_matched) ⊎ (s ≢ not_matched)
serving_cases not_matched = inl refl
serving_cases (served i v) = inr (λ e. cc)
serving_cases rollout_skipped_no_identifier = inr (λ e. cc)

module _ {ℓ κ} {A : Type ℓ} {B : Type κ} (f : A → B) where
  drop-length-map : (xs : List A) → drop (length (map f xs)) xs ≡ []
  drop-length-map [] = refl
  drop-length-map (x ∷ xs) = drop-length-map xs

  drop-length-snoc :
      (xs : List A) (x : A) (ys : List A) → drop (length (map f (xs ++ x ∷ []))) (xs ++ x ∷ ys) ≡ ys
  drop-length-snoc [] x ys = refl
  drop-length-snoc (z ∷ xs) x ys = drop-length-snoc xs x ys

module _ {F V : Type 0} (env : Externals F V) (context : Option (EvaluationContext F))
    (segments : Option Segments) (config_id : Text) where
  abbrev pub of_rule : Rule F → WalkedRule F
  of_rule r = explain_rule env context segments config_id r

  abbrev pub explanation_of : Rule F → RuleExplanation F
  explanation_of r = (explain_rule env context segments config_id r).explanation

  abbrev pub serving_of : Rule F → RuleServing
  serving_of r = (explain_rule env context segments config_id r).serving

  -- The rule serves nothing, and the walk goes on.
  abbrev pub FallsThrough : Rule F → Type 0
  FallsThrough r = serving_of r ≡ not_matched

  abbrev pub walk : List (Rule F) → List (WalkedRule F)
  walk rs = walk_rules env context segments config_id rs

  -- A list of rules up to the one that decides, this rule, and those after it.
  pub record IsDecided (rs : List (Rule F)) : Type 0 where
    pub before : List (Rule F)
    pub decider : Rule F
    pub after : List (Rule F)
    pub split : rs ≡ before ++ decider ∷ after
    pub passed : All FallsThrough before
    pub decides : serving_of decider ≢ not_matched

  pub walk_stops :
      (r : Rule F) (rs : List (Rule F))
      → serving_of r ≢ not_matched
      → walk (r ∷ rs) ≡ of_rule r ∷ []
  unfolding walk_rules
  walk_stops r rs h = rw (is_not_matched_no (serving_of r) h)

  pub walk_passes :
      (r : Rule F) (rs : List (Rule F)) → FallsThrough r → walk (r ∷ rs) ≡ of_rule r ∷ walk rs
  unfolding walk_rules
  walk_passes r rs h = rw h

  -- Either every rule falls through, or one decides.
  pub decision : (rs : List (Rule F)) → All FallsThrough rs ⊎ IsDecided rs
  decision [] = inl tt
  decision (r ∷ rs) = elim (serving_cases (serving_of r)) [
    | inr h ↦
        inr
          (record { before = []; decider = r; after = rs; split = refl; passed = tt; decides = h })
    | inl h ↦ elim (decision rs) [
      | inl hs ↦ inl (h, hs)
      | inr d ↦ inr (record {
        before = r ∷ d.before;
        decider = d.decider;
        after = d.after;
        split = ap (λ l. r ∷ l) d.split;
        passed = (h, d.passed);
        decides = d.decides;
      })
    ]
  ]

  walk_all : (rs : List (Rule F)) → All FallsThrough rs → walk rs ≡ map of_rule rs
  unfolding walk_rules
  walk_all [] h = refl
  walk_all (r ∷ rs) (h, hs) = walk_passes r rs h ∙ ap (λ l. of_rule r ∷ l) (walk_all rs hs)

  walk_until :
      (before : List (Rule F)) (r : Rule F) (after : List (Rule F))
      → All FallsThrough before
      → serving_of r ≢ not_matched
      → walk (before ++ r ∷ after) ≡ map of_rule (before ++ r ∷ [])
  walk_until [] r after h d = walk_stops r after d
  walk_until (q ∷ before) r after (h, hs) d =
      walk_passes q (before ++ r ∷ after) h
      ∙ ap (λ l. of_rule q ∷ l) (walk_until before r after hs d)

  last_serving_all :
      (rs : List (Rule F)) → All FallsThrough rs → last_serving (map of_rule rs) ≡ not_matched
  last_serving_all [] h = refl
  last_serving_all (r ∷ []) (h, _) = h
  last_serving_all (r ∷ q ∷ rs) (_, hs) = last_serving_all (q ∷ rs) hs

  last_serving_until :
      (before : List (Rule F)) (r : Rule F)
      → last_serving (map of_rule (before ++ r ∷ [])) ≡ serving_of r
  last_serving_until [] r = refl
  last_serving_until (q ∷ []) r = refl
  last_serving_until (q ∷ p ∷ before) r = last_serving_until (p ∷ before) r

  map-explanation :
      (rs : List (Rule F)) → map (λ w. w.explanation) (map of_rule rs) ≡ map explanation_of rs
  map-explanation [] = refl
  map-explanation (r ∷ rs) = ap (λ l. explanation_of r ∷ l) (map-explanation rs)

  explanations_all :
      (rs : List (Rule F)) → rule_explanations rs (map of_rule rs) ≡ map explanation_of rs
  unfolding rule_explanations
  explanations_all rs = rw (drop-length-map of_rule rs, append-nil) (map-explanation rs)

  explanations_until :
      (before : List (Rule F)) (r : Rule F) (after : List (Rule F))
      → rule_explanations (before ++ r ∷ after) (map of_rule (before ++ r ∷ []))
        ≡ map explanation_of before ++ explanation_of r ∷ map not_evaluated_rule after
  unfolding rule_explanations
  explanations_until before r after = rw (
    drop-length-snoc of_rule before r after,
    map-explanation (before ++ r ∷ []),
    map-append,
    append_assoc,
  )

-- What an evaluation says when every rule falls through, and when one decides.
module _ {F V : Type 0} (env : Externals F V) (context : Option (EvaluationContext F))
    (segments : Option Segments) (config : Config F) where
  abbrev pub explained : Rule F → RuleExplanation F
  explained = explanation_of env context segments config.id

  abbrev pub IsFirstMatch : List (Rule F) → Type 0
  IsFirstMatch rs =
      (All (FallsThrough env context segments config.id) rs
        × (explain env context segments config
            ≡ default_explanation config (map explained rs) found_match))
      ⊎ ((d : IsDecided env context segments config.id rs) × (explain env context segments config
            ≡ conclude config
                (map explained d.before ++ explained d.decider ∷ map not_evaluated_rule d.after)
                (serving_of env context segments config.id d.decider)))

  abbrev pub sorted : List (Rule F)
  sorted = sort_rules env (rules_of config)

  -- The evaluation of a config is decided by the first of its sorted rules that does not fall
  -- through: its serving is the result, the rules before it are explained as they were evaluated
  -- and those after it as not evaluated. If every rule falls through, the default value is served
  -- with the reason `found-match`, and every rule is explained.
  pub explain-IsFirstMatch : IsFirstMatch sorted
  unfolding explain
  explain-IsFirstMatch = elim (decision env context segments config.id sorted) [
    | inl all ↦ inl (
      all,
      rw (
        walk_all env context segments config.id sorted all,
        explanations_all env context segments config.id sorted,
        last_serving_all env context segments config.id sorted all,
      ),
    )
    | inr d ↦ inr (
      d,
      rw (
        d.split,
        walk_until env context segments config.id d.before d.decider d.after d.passed d.decides,
        explanations_until env context segments config.id d.before d.decider d.after,
        last_serving_until env context segments config.id d.before d.decider,
      ),
    )
  ]
