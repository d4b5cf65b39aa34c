-- ===== src/Evaluator/Segment/Membership.antt =====
-- What a segment condition means.
use js_sdks.Common.{
  >>=-eq-returns, returns-injective, subst, Option-cases, Fallible-cases, ◌≡◌, ◌≢◌, refl, sym, ap,
  ◌∙◌, Bool, true, false, not, Option, none, some, List, [], ◌∷◌, ◌++◌, Text, All, arith, inl, inr,
  ◌⊎◌, Bool-cases, if◌then◌else◌, returns, throws, ◌>>=◌, or_else, ℕ, suc, ◌+◌, codes, text_eq,
  text_eq_iff, length, lower, is_some,
}
use js_sdks.Evaluator.Value.{Externals}
use js_sdks.Evaluator.Condition.{EvaluationContext, Condition, evaluate}
use js_sdks.Evaluator.Segment.{
  Segment, Segments, SegmentCheck, ConditionGroup, lookup, groups_of, conditions_of, every_holds,
  holds_attribute_conditions_only, matching_group_from, operator_holds, explain_found, explain,
  not_found,
}
use js_sdks.Evaluator.Compare.{lowercase_operator}

module _ {F V : Type 0} (env : Externals F V) (context : Option (EvaluationContext F)) where
  -- Every condition of the group holds.
  abbrev pub GroupHolds : ConditionGroup → Type 0
  GroupHolds group = All (λ c. evaluate env c context ≡ returns true) (conditions_of group)

  -- The conditions hold up to one that does not.
  pub record IsBroken (cs : List Condition) : Type 0 where
    pub before : List Condition
    pub breaks : Condition
    pub after : List Condition
    pub split : cs ≡ before ++ breaks ∷ after
    pub held : All (λ c. evaluate env c context ≡ returns true) before
    pub broken : evaluate env breaks context ≡ returns false

  every_throws :
      (c : Condition) (cs : List Condition)
      → evaluate env c context ≡ throws
      → every_holds env context (c ∷ cs) ≡ throws
  unfolding every_holds
  every_throws c cs h = rw (h, ◌>>=◌)

  every_step :
      (c : Condition) (cs : List Condition) (b : Bool)
      → evaluate env c context ≡ returns b
      → every_holds env context (c ∷ cs) ≡ (if b then every_holds env context cs else returns false)
  unfolding every_holds
  every_step c cs b h = rw (h, ◌>>=◌)

  every_true :
      (cs : List Condition)
      → every_holds env context cs ≡ returns true
      → All (λ c. evaluate env c context ≡ returns true) cs
  every_true [] h = tt
  every_true (c ∷ cs) h = elim (Fallible-cases (evaluate env c context)) [
    | inl bad ↦ cc (every_throws c cs bad, h)
    | inr (true, fine) ↦ (fine, every_true cs (sym (every_step c cs true fine) ∙ h))
    | inr (false, fine) ↦ cc (every_step c cs false fine, h)
  ]

  every_false : (cs : List Condition) → every_holds env context cs ≡ returns false → IsBroken cs
  unfolding every_holds
  every_false [] h = cc
  every_false (c ∷ cs) h = elim (Fallible-cases (evaluate env c context)) [
    | inl bad ↦ cc (every_throws c cs bad, h)
    | inr (true, fine) ↦
        let b = every_false cs (sym (every_step c cs true fine) ∙ h) in
        record {
          before = c ∷ b.before;
          breaks = b.breaks;
          after = b.after;
          split = ap (λ l. c ∷ l) b.split;
          held = (fine, b.held);
          broken = b.broken;
        }
    | inr (false, fine) ↦ record {
      before = [];
      breaks = c;
      after = cs;
      split = refl;
      held = tt;
      broken = fine;
    }
  ]

  -- The group with the index is the first one that holds, where the first has the index `start`.
  pub record IsFirstGroup (start : ℕ) (groups : List ConditionGroup) (index : ℕ) : Type 0 where
    pub before : List ConditionGroup
    pub group : ConditionGroup
    pub after : List ConditionGroup
    pub split : groups ≡ before ++ group ∷ after
    pub position : start + length before ≡ index
    pub others : All (λ g. IsBroken (conditions_of g)) before
    pub holds : GroupHolds group

  -- What the search over the groups means.
  abbrev pub MeansIndex : ℕ → List ConditionGroup → Option ℕ → Type 0
  MeansIndex start groups none = All (λ g. IsBroken (conditions_of g)) groups
  MeansIndex start groups (some i) = IsFirstGroup start groups i

  group_throws :
      (n : ℕ) (g : ConditionGroup) (gs : List ConditionGroup)
      → every_holds env context (conditions_of g) ≡ throws
      → matching_group_from env context n (g ∷ gs) ≡ throws
  unfolding matching_group_from
  group_throws n g gs h = rw (h, ◌>>=◌)

  group_step :
      (n : ℕ) (g : ConditionGroup) (gs : List ConditionGroup) (b : Bool)
      → every_holds env context (conditions_of g) ≡ returns b
      → matching_group_from env context n (g ∷ gs)
        ≡ (if b then returns (some n) else matching_group_from env context (suc n) gs)
  unfolding matching_group_from
  group_step n g gs b h = rw (h, ◌>>=◌)

  means_later :
      (start : ℕ) (g : ConditionGroup) (gs : List ConditionGroup) (o : Option ℕ)
      → IsBroken (conditions_of g)
      → MeansIndex (suc start) gs o
      → MeansIndex start (g ∷ gs) o
  means_later start g gs none b m = (b, m)
  means_later start g gs (some i) b m = record {
    before = g ∷ m.before;
    group = m.group;
    after = m.after;
    split = ap (λ l. g ∷ l) m.split;
    position = omega (arith, m.position);
    others = (b, m.others);
    holds = m.holds;
  }

  some_means :
      (start : ℕ) (g : ConditionGroup) (gs : List ConditionGroup) (o : Option ℕ)
      → GroupHolds g
      → returns (some start) ≡ returns o
      → MeansIndex start (g ∷ gs) o
  some_means start g gs none h e = cc
  some_means start g gs (some i) h e = record {
    before = [];
    group = g;
    after = gs;
    split = refl;
    position = ground arith;
    others = tt;
    holds = h;
  }

  none_means : (start : ℕ) (o : Option ℕ) → returns none ≡ returns o → MeansIndex start [] o
  none_means start none e = tt
  none_means start (some i) e = cc

  matching_group_means :
      (start : ℕ) (gs : List ConditionGroup) (o : Option ℕ)
      → matching_group_from env context start gs ≡ returns o
      → MeansIndex start gs o
  matching_group_means start [] o h = none_means start o (unfold matching_group_from in h)
  matching_group_means start (g ∷ gs) o h =
      elim (Fallible-cases (every_holds env context (conditions_of g))) [
        | inl bad ↦ cc (group_throws start g gs bad, h)
        | inr (true, fine) ↦
            some_means start g gs o (every_true (conditions_of g) fine)
              (sym (group_step start g gs true fine) ∙ h)
        | inr (false, fine) ↦
            means_later start g gs o (every_false (conditions_of g) fine)
              (matching_group_means (suc start) gs o (sym (group_step start g gs false fine) ∙ h))
      ]

-- What an operator says of the membership, in any case of its letters: `in` is the membership,
-- `not in` is its negation, and another operator says no.
abbrev pub OperatorSays : Text → Bool → Bool → Type 0
OperatorSays operator member matched =
    ((lower operator ≡ codes "in") × (matched ≡ member))
    ⊎ (((lower operator ≡ codes "not in") × (matched ≡ not member))
        ⊎ ((lower operator ≢ codes "in") × (lower operator ≢ codes "not in") × (matched ≡ false)))

pub record MeansOperator (condition : Condition) (member matched : Bool) : Type 0 where
  pub operator : Text
  pub given : condition.operator ≡ some operator
  pub says : OperatorSays operator member matched

operator_says :
    (operator : Text) (member matched : Bool)
    → (if text_eq (lower operator) (codes "in")
        then member
        else if text_eq (lower operator) (codes "not in")
        then not member
        else false)
      ≡ matched
    → OperatorSays operator member matched
operator_says operator member matched h =
    let is_in = text_eq_iff (lower operator) (codes "in") in
    let is_not_in = text_eq_iff (lower operator) (codes "not in") in
    elim (Bool-cases (text_eq (lower operator) (codes "in"))) [
      | inl e ↦ inl (is_in.0 e, sym (rw e at h))
      | inr e ↦ elim (Bool-cases (text_eq (lower operator) (codes "not in"))) [
        | inl f ↦ inr (inl (is_not_in.0 f, sym (rw (e, f) at h)))
        | inr f ↦
            inr (inr (λ k. cc (e, is_in.1 k), λ k. cc (f, is_not_in.1 k), sym (rw (e, f) at h)))
      ]
    ]

operator_holds_means :
    (condition : Condition) (member matched : Bool) (o : Option Text)
    → condition.operator ≡ o
    → operator_holds condition member ≡ returns matched
    → MeansOperator condition member matched
unfolding operator_holds lowercase_operator
operator_holds_means condition member matched none e h = cc (rw e at h)
operator_holds_means condition member matched (some operator) e h = record {
  operator = operator;
  given = e;
  says = operator_says operator member matched (returns-injective _ matched (rw e at h));
}

module _ {F V : Type 0} (env : Externals F V) (context : Option (EvaluationContext F)) where
  -- The payload holds no segment of this id, or one with a condition that is not on an attribute.
  abbrev pub IsUnusable : Condition → Option Segments → Type 0
  IsUnusable condition segments =
      (lookup condition.segment_id (or_else segments []) ≡ none)
      ⊎ ((s : Segment) × (lookup condition.segment_id (or_else segments []) ≡ some s)
          × (holds_attribute_conditions_only s ≡ false))

  -- A check of a segment that was found.
  pub record IsMembership (condition : Condition) (segments : Option Segments)
      (check : SegmentCheck) : Type 0 where
    pub segment : Segment
    pub held : lookup condition.segment_id (or_else segments []) ≡ some segment
    pub usable : holds_attribute_conditions_only segment ≡ true
    pub found : check.segment_found ≡ true
    pub index : MeansIndex env context 0 (groups_of segment) check.matched_group_index
    pub operator : MeansOperator condition (is_some check.matched_group_index) check.matched

  explain_missing :
      (condition : Condition) (segments : Option Segments)
      → lookup condition.segment_id (or_else segments []) ≡ none
      → explain env context condition segments ≡ returns (not_found env context)
  unfolding explain
  explain_missing condition segments h = rw (h, explain)

  explain_held :
      (condition : Condition) (segments : Option Segments) (s : Segment) (b : Bool)
      → lookup condition.segment_id (or_else segments []) ≡ some s
      → holds_attribute_conditions_only s ≡ b
      → explain env context condition segments
        ≡ (if b then explain_found env context condition s else returns (not_found env context))
  unfolding explain
  explain_held condition segments s b h k = rw (h, explain) (rw k)

  abbrev FoundMeans : Condition → Segment → SegmentCheck → Type 0
  FoundMeans condition s check =
      (check.segment_found ≡ true)
      × MeansIndex env context 0 (groups_of s) check.matched_group_index
      × MeansOperator condition (is_some check.matched_group_index) check.matched

  explain_found_means :
      (condition : Condition) (s : Segment) (check : SegmentCheck)
      → explain_found env context condition s ≡ returns check
      → FoundMeans condition s check
  unfolding explain_found
  explain_found_means condition s check h =
      let (index, searched, h') =
        >>=-eq-returns (matching_group_from env context 0 (groups_of s)) _ h in
      let (matched, decided, h'') =
        >>=-eq-returns (operator_holds condition (is_some index)) _ h' in
      subst (FoundMeans condition s) (returns-injective _ check h'') (
        refl,
        matching_group_means env context 0 (groups_of s) index searched,
        operator_holds_means condition (is_some index) matched condition.operator refl decided,
      )

  -- A segment condition whose segment the payload does not hold, or whose segment has a condition
  -- that is not on an attribute, never matches, whatever its operator. Otherwise the index is that
  -- of the first group all of whose conditions hold, and with no index each group has a condition
  -- that fails; and the condition matches by its operator: `in` if there is such a group, `not in`
  -- if there is none, and no other operator matches. This holds where no condition throws.
  pub explain-cases :
      (condition : Condition) (segments : Option Segments) (check : SegmentCheck)
      → explain env context condition segments ≡ returns check
      → (IsUnusable condition segments × (check ≡ not_found env context))
        ⊎ IsMembership condition segments check
  explain-cases condition segments check h =
      elim (Option-cases (lookup condition.segment_id (or_else segments []))) [
        | inl missing ↦ inl (inl missing, cc (explain_missing condition segments missing, h))
        | inr (s, held) ↦ elim (Bool-cases (holds_attribute_conditions_only s)) [
          | inr other ↦
              inl (inr (s, held, other), cc (explain_held condition segments s false held other, h))
          | inl usable ↦
              let (found, index, operator) =
                explain_found_means condition s check
                  (sym (explain_held condition segments s true held usable) ∙ h) in
              inr (record {
                segment = s;
                held = held;
                usable = usable;
                found = found;
                index = index;
                operator = operator;
              })
        ]
      ]
