-- ===== src/Evaluator/Rollout/Serving.antt =====
-- What a rollout serves.
use js_sdks.Common.{
  ◌≡◌, refl, sym, ap, ◌∙◌, false, Option, none, some, List, Text, inl, inr, ℕ, Option-cases,
}
use js_sdks.Evaluator.Value.{Externals}
use js_sdks.Evaluator.Condition.{EvaluationContext, effective_context_kind}
use js_sdks.Evaluator.Rollout.{
  Percentage, Scalar, walk_shares, ServedValue, served, not_matched, rollout_skipped_no_identifier,
  serve_selected, explain_rollout, assign_percentage, identifier_of, text_of_scalar,
}
use js_sdks.Evaluator.Rollout.Shares.{IsSelected, walk_shares_selects, share_end}

module _ {F V : Type 0} (env : Externals F V) where
  -- No tenth of a hash is below zero.
  abbrev pub HasPositiveTenths : Type 0
  HasPositiveTenths = (n : ℕ) → env.num_lt (env.tenths n) env.zero_num ≡ false

  -- The served value is that of a percentage whose share holds the assigned percentage.
  pub record IsServedBy (assigned : F) (ps : List (Percentage F)) (rule_id : Text) (v : ServedValue)
      : Type 0 where
    pub percentage : Percentage F
    pub selected : IsSelected env assigned env.zero_num ps percentage
    pub scalar : Scalar F
    pub has_value : percentage.value ≡ some scalar
    pub served_value : v ≡ record {
      value = text_of_scalar env scalar;
      value_id = percentage.value_id;
      variation_id = percentage.variation_id;
      rollout_share = some (record { rule_id = rule_id; share_id = percentage.id });
    }

  abbrev value_served : Text → Percentage F → Scalar F → ServedValue
  value_served rule_id p s = record {
    value = text_of_scalar env s;
    value_id = p.value_id;
    variation_id = p.variation_id;
    rollout_share = some (record { rule_id = rule_id; share_id = p.id });
  }

  serve_selected_value :
      (rule_id : Text) (p : Percentage F) (s : Scalar F)
      → p.value ≡ some s
      → serve_selected env rule_id (some p) ≡ served rule_id (value_served rule_id p s)
  unfolding serve_selected
  serve_selected_value rule_id p s h = rw h

  serve_selected_no_value :
      (rule_id : Text) (p : Percentage F)
      → p.value ≡ none
      → serve_selected env rule_id (some p) ≡ not_matched
  unfolding serve_selected
  serve_selected_no_value rule_id p h = rw h

  -- A served value is that of the selected percentage.
  serve_selected-IsServedBy :
      (assigned : F) (ps : List (Percentage F)) (rule_id id : Text) (p : Percentage F)
      (v : ServedValue)
      → IsSelected env assigned env.zero_num ps p
      → serve_selected env rule_id (some p) ≡ served id v
      → (id ≡ rule_id) × IsServedBy assigned ps rule_id v
  serve_selected-IsServedBy assigned ps rule_id id p v selected e = elim (Option-cases p.value) [
    | inl missing ↦ cc (e, serve_selected_no_value rule_id p missing)
    | inr (s, has_value) ↦
        let same = sym (serve_selected_value rule_id p s has_value) ∙ e in
        (
          cc,
          record {
            percentage = p;
            selected = selected;
            scalar = s;
            has_value = has_value;
            served_value = cc;
          },
        )
  ]

  explain_rollout_for :
      (rule_id config_id : Text) (ps : List (Percentage F)) (context : Option (EvaluationContext F))
      (identifier : Text)
      → identifier_of env context ≡ some identifier
      → (explain_rollout env rule_id config_id (some ps) context).0
        ≡ serve_selected env rule_id
            (walk_shares env
              (assign_percentage env config_id identifier (effective_context_kind context))
              env.zero_num
              none
              ps).1
  unfolding explain_rollout
  explain_rollout_for rule_id config_id ps context identifier h = rw (h, explain_rollout)

  pub explain_rollout_skips :
      (rule_id config_id : Text) (ps : List (Percentage F)) (context : Option (EvaluationContext F))
      → identifier_of env context ≡ none
      → explain_rollout env rule_id config_id (some ps) context
        ≡ (rollout_skipped_no_identifier, none)
  unfolding explain_rollout
  explain_rollout_skips rule_id config_id ps context h = rw (h, explain_rollout)

  serve_selected-none : (rule_id : Text) → serve_selected env rule_id none ≡ not_matched
  unfolding serve_selected
  serve_selected-none rule_id = refl

  selected_serves :
      (assigned : F) (ps : List (Percentage F)) (rule_id id : Text) (v : ServedValue)
      → env.num_lt assigned env.zero_num ≡ false
      → serve_selected env rule_id (walk_shares env assigned env.zero_num none ps).1 ≡ served id v
      → (id ≡ rule_id) × IsServedBy assigned ps rule_id v
  selected_serves assigned ps rule_id id v h e =
      elim (walk_shares_selects env assigned env.zero_num ps h) [
        | inl (nothing, _) ↦
            cc (e, ap (serve_selected env rule_id) nothing, serve_selected-none rule_id)
        | inr (p, found, selected) ↦
            serve_selected-IsServedBy assigned ps rule_id id p v selected (rw found at e)
      ]

  -- A percentage that does not move the end of a share is never selected.
  selected_ne_zero :
      (assigned start : F) (ps : List (Percentage F)) (p : Percentage F)
      → IsSelected env assigned start ps p
      → ¬ ((n : F) → env.add n p.percentage ≡ n)
  selected_ne_zero assigned start ps p s zero =
      cc (s.below_end, s.at_or_above_start, zero (share_end env start s.before))

  -- A rollout serves a value only to a context with an identifier, and then the value of the share
  -- that holds the percentage assigned to it, from its start inclusive to its end exclusive, under
  -- the id of its rule. The share is not one of zero percent, whose end is its start. It is assumed
  -- that no tenth of a hash is below zero.
  pub explain_rollout_serves :
      HasPositiveTenths
      → (rule_id config_id : Text) (ps : List (Percentage F))
        (context : Option (EvaluationContext F)) (id : Text) (v : ServedValue)
      → (explain_rollout env rule_id config_id (some ps) context).0 ≡ served id v
      → (identifier : Text) × (identifier_of env context ≡ some identifier)
        × (id ≡ rule_id)
        × (by : IsServedBy
            (assign_percentage env config_id identifier (effective_context_kind context))
            ps
            rule_id
            v)
        × ¬ ((n : F) → env.add n by.percentage.percentage ≡ n)
  unfolding assign_percentage
  explain_rollout_serves positive rule_id config_id ps context id v e =
      elim (Option-cases (identifier_of env context)) [
        | inl missing ↦
            cc (e, ap (λ r. r.0) (explain_rollout_skips rule_id config_id ps context missing))
        | inr (identifier, found) ↦
            let (same, served_by) =
              selected_serves
                (assign_percentage env config_id identifier (effective_context_kind context)) ps
                rule_id id v (positive _)
                (sym (explain_rollout_for rule_id config_id ps context identifier found) ∙ e) in
            (
              identifier,
              found,
              same,
              served_by,
              selected_ne_zero _ _ ps served_by.percentage served_by.selected,
            )
      ]
