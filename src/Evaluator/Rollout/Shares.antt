-- ===== src/Evaluator/Rollout/Shares.antt =====
-- Which share of a rollout a context falls into.
use js_sdks.Common.{
  ◌≡◌, refl, ap, ◌∙◌, true, false, Option, none, some, List, [], ◌∷◌, ◌++◌, inl, inr, ◌⊎◌,
  Bool-cases,
}
use js_sdks.Evaluator.Value.{Externals}
use js_sdks.Evaluator.Rollout.{Percentage, Share, walk_shares, share_of}

module _ {F V : Type 0} (env : Externals F V) where
  -- Where the share after these percentages starts.
  pub share_end : F → List (Percentage F) → F
  share_end start [] = start
  share_end start (p ∷ ps) = share_end (env.add start p.percentage) ps

  -- The percentage lies at or above every end of these shares.
  abbrev pub IsPast : F → F → List (Percentage F) → Type 0
  IsPast assigned start [] = Unit
  IsPast assigned start (p ∷ ps) =
      (env.num_lt assigned (env.add start p.percentage) ≡ false)
      × IsPast assigned (env.add start p.percentage) ps

  -- The first share that the percentage falls into: from its start, which belongs to it, to its
  -- end, which does not.
  pub record IsSelected (assigned start : F) (ps : List (Percentage F)) (p : Percentage F)
      : Type 0 where
    pub before : List (Percentage F)
    pub after : List (Percentage F)
    pub split : ps ≡ before ++ p ∷ after
    pub past : IsPast assigned start before
    pub at_or_above_start : env.num_lt assigned (share_end start before) ≡ false
    pub below_end : env.num_lt assigned (env.add (share_end start before) p.percentage) ≡ true

  walk_shares_chosen :
      (assigned start : F) (p : Percentage F) (ps : List (Percentage F))
      → (walk_shares env assigned start (some p) ps).1 ≡ some p
  unfolding walk_shares
  walk_shares_chosen assigned start p [] = refl
  walk_shares_chosen assigned start p (q ∷ ps) =
      walk_shares_chosen assigned (env.add start q.percentage) p ps

  walk_shares_here :
      (assigned start : F) (p : Percentage F) (ps : List (Percentage F))
      → env.num_lt assigned (env.add start p.percentage) ≡ true
      → (walk_shares env assigned start none (p ∷ ps)).1 ≡ some p
  unfolding walk_shares
  walk_shares_here assigned start p ps h =
      rw h (walk_shares_chosen assigned (env.add start p.percentage) p ps)

  walk_shares_later :
      (assigned start : F) (p : Percentage F) (ps : List (Percentage F))
      → env.num_lt assigned (env.add start p.percentage) ≡ false
      → (walk_shares env assigned start none (p ∷ ps)).1
        ≡ (walk_shares env assigned (env.add start p.percentage) none ps).1
  unfolding walk_shares
  walk_shares_later assigned start p ps h = rw h

  -- The walk selects the share that holds the percentage, or the percentage is past them all.
  pub walk_shares_selects :
      (assigned start : F) (ps : List (Percentage F))
      → env.num_lt assigned start ≡ false
      → (((walk_shares env assigned start none ps).1 ≡ none) × IsPast assigned start ps)
        ⊎ ((p : Percentage F) × ((walk_shares env assigned start none ps).1 ≡ some p)
            × IsSelected assigned start ps p)
  unfolding share_end
  walk_shares_selects assigned start [] h = inl (unfold walk_shares in refl, tt)
  walk_shares_selects assigned start (p ∷ ps) h =
      elim (Bool-cases (env.num_lt assigned (env.add start p.percentage))) [
        | inl here ↦ inr (
          p,
          walk_shares_here assigned start p ps here,
          record {
            before = [];
            after = ps;
            split = refl;
            past = tt;
            at_or_above_start = h;
            below_end = here;
          },
        )
        | inr later ↦ elim (walk_shares_selects assigned (env.add start p.percentage) ps later) [
          | inl (e, past) ↦ inl (walk_shares_later assigned start p ps later ∙ e, (later, past))
          | inr (q, e, s) ↦ inr (
            q,
            walk_shares_later assigned start p ps later ∙ e,
            record {
              before = p ∷ s.before;
              after = s.after;
              split = ap (λ l. p ∷ l) s.split;
              past = (later, s.past);
              at_or_above_start = s.at_or_above_start;
              below_end = s.below_end;
            },
          )
        ]
      ]

  -- Adjacent shares: each starts where the one before it ends.
  pub shares_from : F → List (Percentage F) → List (Share F)
  shares_from start [] = []
  shares_from start (p ∷ ps) =
      share_of env p start (env.add start p.percentage)
      ∷ shares_from (env.add start p.percentage) ps

  pub walk_shares-shares_from :
      (assigned start : F) (chosen : Option (Percentage F)) (ps : List (Percentage F))
      → (walk_shares env assigned start chosen ps).0 ≡ shares_from start ps
  unfolding walk_shares shares_from
  walk_shares-shares_from assigned start chosen [] = refl
  walk_shares-shares_from assigned start chosen (p ∷ ps) =
      ap (λ l. share_of env p start (env.add start p.percentage) ∷ l)
        (walk_shares-shares_from assigned (env.add start p.percentage) _ ps)
