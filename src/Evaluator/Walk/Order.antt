-- ===== src/Evaluator/Walk/Order.antt =====
-- The order in which the rules are walked.
use js_sdks.Common.{
  ℕ, ◌≤◌, ◌≡◌, refl, ap, ap₂, ◌∙◌, Option, none, some, or_else, List, [], ◌∷◌, All, ltb, ◌==◌,
  arith, inl, inr, Bool-cases, if◌then◌else◌,
}
use mathlib.Core.List.{Perm}
use mathlib.Core.List.Perm
use js_sdks.Evaluator.Value.{Externals}
use js_sdks.Evaluator.Types.{Rule}
use js_sdks.Evaluator.Walk.{order_key, sorts_after, insert_rule, sort_rules}

-- The numbers that `P` names have ranks, and the difference of two of them is above zero exactly if the
-- first has the higher rank: this holds of the finite ones, and not where a difference is not a number.
pub record IsRank {F V : Type 0} (env : Externals F V) (P : F → Type 0) (rank : F → ℕ)
    : Type 0 where
  pub sign_of_difference :
      (a b : F) → P a → P b → env.num_lt env.zero_num (env.sub a b) ≡ ltb (rank b) (rank a)

module _ {F V : Type 0} (env : Externals F V) where
  insert_rule-perm : (r : Rule F) (qs : List (Rule F)) → Perm (insert_rule env r qs) (r ∷ qs)
  unfolding insert_rule
  insert_rule-perm r [] = Perm.refl (r ∷ [])
  insert_rule-perm r (q ∷ qs) = elim (Bool-cases (sorts_after env r q)) [
    | inl e ↦ rw e (Perm.trans (Perm.cons q (insert_rule-perm r qs)) (Perm.swap r q qs))
    | inr e ↦ rw e (Perm.refl (r ∷ q ∷ qs))
  ]

  pub sort_rules-perm : (rs : List (Rule F)) → Perm (sort_rules env rs) rs
  unfolding sort_rules
  sort_rules-perm [] = Perm.refl []
  sort_rules-perm (r ∷ rs) =
      Perm.trans (insert_rule-perm r (sort_rules env rs)) (Perm.cons r (sort_rules-perm rs))

  -- The order number of a rule: a missing one counts as `Number.MAX_SAFE_INTEGER`.
  abbrev pub number_or_last : Option F → F
  number_or_last none = env.max_safe_integer
  number_or_last (some n) = n

  or_else_lem : (o : Option F) → or_else o env.max_safe_integer ≡ number_or_last o
  or_else_lem none = refl
  or_else_lem (some n) = refl

  order_key_lem : (r : Rule F) → order_key env r ≡ number_or_last r.order
  order_key_lem r = or_else_lem r.order

  module _ (P : F → Type 0) (rank : F → ℕ) (laws : IsRank env P rank) where
    -- Where a rule belongs: the rank of its order number.
    abbrev pub position : Rule F → ℕ
    position r = rank (number_or_last r.order)

    abbrev pub HasNumber : Rule F → Type 0
    HasNumber r = P (number_or_last r.order)

    -- Every rule stands before those of a higher position.
    abbrev pub IsSorted : List (Rule F) → Type 0
    IsSorted [] = Unit
    IsSorted (r ∷ rs) = All (λ q. position r ≤ position q) rs × IsSorted rs

    -- The rules of a position, in their order.
    pub placed_at : ℕ → List (Rule F) → List (Rule F)
    placed_at k [] = []
    placed_at k (q ∷ qs) = if position q == k then q ∷ placed_at k qs else placed_at k qs

    sorts_after_lem :
        (r q : Rule F)
        → HasNumber r
        → HasNumber q
        → sorts_after env r q ≡ ltb (position q) (position r)
    sorts_after_lem r q kr kq =
        ap₂ (λ a b. env.num_lt env.zero_num (env.sub a b)) (order_key_lem r) (order_key_lem q)
        ∙ laws.sign_of_difference (number_or_last r.order) (number_or_last q.order) kr kq

    insert_rule-All :
        (Q : Rule F → Type 0) (r : Rule F) (qs : List (Rule F))
        → Q r
        → All Q qs
        → All Q (insert_rule env r qs)
    unfolding insert_rule
    insert_rule-All Q r [] h hs = (h, tt)
    insert_rule-All Q r (q ∷ qs) h (k, hs) = elim (Bool-cases (sorts_after env r q)) [
      | inl e ↦ rw e (k, insert_rule-All Q r qs h hs)
      | inr e ↦ rw e (h, (k, hs))
    ]

    All-before :
        (n m : ℕ) (qs : List (Rule F))
        → n ≤ m
        → All (λ p. m ≤ position p) qs
        → All (λ p. n ≤ position p) qs
    All-before n m [] h hs = tt
    All-before n m (p ∷ qs) h (e, hs) = (omega arith, All-before n m qs h hs)

    insert_rule-IsSorted :
        (r : Rule F) (qs : List (Rule F))
        → HasNumber r
        → All HasNumber qs
        → IsSorted qs
        → IsSorted (insert_rule env r qs)
    unfolding insert_rule
    insert_rule-IsSorted r [] kr ks s = (tt, tt)
    insert_rule-IsSorted r (q ∷ qs) kr (kq, ks) (h, s) =
        let law = sorts_after_lem r q kr kq in
        elim (Bool-cases (ltb (position q) (position r))) [
          | inl later ↦ rw (law ∙ later) (
            insert_rule-All (λ p. position q ≤ position p) r qs (ground arith) h,
            insert_rule-IsSorted r qs kr ks s,
          )
          | inr before ↦
              rw (law ∙ before)
                ((ground arith, All-before (position r) (position q) qs (ground arith) h), (h, s))
        ]

    sort_rules-HasNumber :
        (rs : List (Rule F)) → All HasNumber rs → All HasNumber (sort_rules env rs)
    unfolding sort_rules
    sort_rules-HasNumber [] ks = tt
    sort_rules-HasNumber (r ∷ rs) (k, ks) =
        insert_rule-All HasNumber r (sort_rules env rs) k (sort_rules-HasNumber rs ks)

    sort_rules-IsSorted : (rs : List (Rule F)) → All HasNumber rs → IsSorted (sort_rules env rs)
    unfolding sort_rules
    sort_rules-IsSorted [] ks = tt
    sort_rules-IsSorted (r ∷ rs) (k, ks) =
        insert_rule-IsSorted r (sort_rules env rs) k (sort_rules-HasNumber rs ks)
          (sort_rules-IsSorted rs ks)

    placed_at-insert_rule :
        (k : ℕ) (r : Rule F) (qs : List (Rule F))
        → HasNumber r
        → All HasNumber qs
        → placed_at k (insert_rule env r qs) ≡ placed_at k (r ∷ qs)
    unfolding insert_rule placed_at
    placed_at-insert_rule k r [] kr ks = refl
    placed_at-insert_rule k r (q ∷ qs) kr (kq, ks) =
        ground (arith, sorts_after_lem r q kr kq, placed_at-insert_rule k r qs kr ks)

    placed_at-sort_rules :
        (k : ℕ) (rs : List (Rule F))
        → All HasNumber rs
        → placed_at k (sort_rules env rs) ≡ placed_at k rs
    unfolding sort_rules placed_at
    placed_at-sort_rules k [] ks = refl
    placed_at-sort_rules k (r ∷ rs) (kr, ks) =
        placed_at-insert_rule k r (sort_rules env rs) kr (sort_rules-HasNumber rs ks)
        ∙ ap (λ l. if position r == k then r ∷ l else l) (placed_at-sort_rules k rs ks)

    -- The rules are walked in the order of their order numbers, where a missing one counts as
    -- `Number.MAX_SAFE_INTEGER`: the sorted list holds the same rules, their numbers never get lower,
    -- and the rules of equal number keep the order of the payload; if the numbers are all among those
    -- that `P` names, whose differences have the sign that the ranks say.
    pub sort_rules_lem :
        (rs : List (Rule F)) (k : ℕ)
        → All HasNumber rs
        → Perm (sort_rules env rs) rs
          × IsSorted (sort_rules env rs)
          × (placed_at k (sort_rules env rs) ≡ placed_at k rs)
    sort_rules_lem rs k ks =
        (sort_rules-perm rs, sort_rules-IsSorted rs ks, placed_at-sort_rules k rs ks)
