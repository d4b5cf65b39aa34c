-- ===== src/Server/Unreported.antt =====
-- The keys that a received bundle does not report evaluate as before.
use js_sdks.Common.{
  ◌≡◌, refl, sym, ap, subst, ◌∙◌, false, not, ◌&&◌, ◌||◌, Option, none, some, List, [], ◌∷◌, ◌++◌,
  Text, text_eq, text_eq_iff, includes, Entries, Distinct, lookup, spread, keys, has_own, or_else,
  or_option, lookup-spread, lookup_of_absent, arith, Bool-cases, Option-cases, inl, inr, if_true,
  if_false,
}
use js_sdks.Client.Types.{SetKind, full, delta}
use js_sdks.Evaluator.Value.{Externals}
use js_sdks.Evaluator.Condition.{EvaluationContext}
use js_sdks.Evaluator.Segment.{Segment}
use js_sdks.Evaluator.Segment
use js_sdks.Evaluator.Types.{Config, EvaluationExplanation}
use js_sdks.Evaluator.Walk.{explain}
use js_sdks.Server.{
  ConfigBundle, absent_keys, unique_after, uses_any_segment, keys_using, merged_into, merge_bundle,
  removed_by, find_keys_removed_by, find_keys_updated_by,
}
use js_sdks.Server.SegmentUse.{SameSegments, explain-same}

-- The segments of the evaluator are read as entries are.
segment_lookup :
    (id : Text) (segments : Entries Segment) → Segment.lookup id segments ≡ lookup id segments
unfolding Segment.lookup lookup
segment_lookup id [] = refl
segment_lookup id ((k, segment) ∷ segments) =
    ground (arith, segment_lookup id segments, text_eq_iff id k, text_eq_iff k id)

includes-append :
    (xs ys : List Text) (key : Text)
    → includes (xs ++ ys) key ≡ (includes xs key || includes ys key)
unfolding includes
includes-append [] ys key = refl
includes-append (x ∷ xs) ys key = ground (arith, includes-append xs ys key)

-- A key is kept once, unless it was seen.
includes-unique_after :
    (seen ks : List Text) (key : Text)
    → includes (unique_after seen ks) key ≡ (includes ks key && not (includes seen key))
unfolding unique_after includes
includes-unique_after seen [] key = refl
includes-unique_after seen (k ∷ ks) key = ground (
  arith,
  includes-unique_after seen ks key,
  includes-unique_after (k ∷ seen) ks key,
  text_eq_iff k key,
)

includes-absent_keys :
    {A : Type 0} (entries : Entries A) (ks : List Text) (key : Text)
    → includes (absent_keys entries ks) key ≡ (includes ks key && not (has_own key entries))
unfolding absent_keys includes
includes-absent_keys entries [] key = refl
includes-absent_keys entries (k ∷ ks) key =
    ground (arith, includes-absent_keys entries ks key, text_eq_iff k key)

module _ {F : Type 0} where
  -- A config that is read by its key and uses a segment has its key among those using it.
  keys_using_lem :
      (ids : List Text) (entries : Entries (Config F)) (key : Text) (config : Config F)
      → lookup key entries ≡ some config
      → includes (keys_using ids entries) key ≡ false
      → uses_any_segment ids config ≡ false
  unfolding keys_using includes lookup
  keys_using_lem ids [] key config found h = cc
  keys_using_lem ids ((k, c) ∷ entries) key config found h = elim (Bool-cases (text_eq key k)) [
    | inl same ↦
        (let here : some c ≡ some config =
            sym (if_true (text_eq key k) (some c) (lookup key entries) same) ∙ found in
          let it : c ≡ config = cc in
          let unused : uses_any_segment ids c ≡ false =
            ground (arith, text_eq_iff key k, text_eq_iff k key) in
          subst (λ one. uses_any_segment ids one ≡ false) it unused)
    | inr other ↦
        keys_using_lem ids entries key config
          (sym (if_false (text_eq key k) (some c) (lookup key entries) other) ∙ found)
          (ground (arith, text_eq_iff key k, text_eq_iff k key))
  ]

spread-SameSegments :
    (old news : Option Segment.Segments)
    → Distinct (keys (or_else news []))
    → SameSegments (keys (or_else news [])) (some (spread (or_else old []) (or_else news []))) old
spread-SameSegments old news d id h =
    let before = or_else old [] in
    let carried = or_else news [] in
    segment_lookup id (spread before carried)
    ∙ lookup-spread id before carried d
    ∙ ap (λ o. or_option o (lookup id before)) (lookup_of_absent id carried h)
    ∙ sym (segment_lookup id before)

module _ {F V : Type 0} (env : Externals F V) (context : Option (EvaluationContext F)) where
  abbrev pub explained :
      Option Segment.Segments → Option (Config F) → Option (EvaluationExplanation F)
  explained segments none = none
  explained segments (some config) = some (explain env context segments config)

  -- What a bundle says of a key in a context: nothing, or how the value of its config is reached.
  abbrev pub explanation_in : ConfigBundle F → Text → Option (EvaluationExplanation F)
  explanation_in bundle key = explained bundle.segments (lookup key bundle.configs)

  unreported_of_kind :
      (kind : SetKind) (old bundle : ConfigBundle F) (key : Text)
      → Distinct (keys bundle.configs)
      → Distinct (keys (or_else bundle.segments []))
      → includes (keys bundle.configs) key ≡ false
      → includes
          (keys_using
            (keys (or_else bundle.segments []))
            (merged_into kind bundle (some old)).configs)
          key
        ≡ false
      → includes (removed_by kind bundle (some old)) key ≡ false
      → explanation_in (merged_into kind bundle (some old)) key ≡ explanation_in old key
  unfolding has_own
  unreported_of_kind full old bundle key d e absent unused kept =
      let gone : includes (keys old.configs) key ≡ false =
        ground (arith, includes-absent_keys bundle.configs (keys old.configs) key) in
      rw (lookup_of_absent key bundle.configs absent, lookup_of_absent key old.configs gone) refl
  unreported_of_kind delta old bundle key d e absent unused kept =
      let same : lookup key (spread old.configs bundle.configs) ≡ lookup key old.configs =
        lookup-spread key old.configs bundle.configs d
        ∙ ap (λ o. or_option o (lookup key old.configs))
            (lookup_of_absent key bundle.configs absent) in
      elim (Option-cases (lookup key old.configs)) [
        | inl none_held ↦ rw (same, none_held) refl
        | inr (config, found) ↦
            rw (same, found)
              (ap (λ x. some x)
                (explain-same env context (keys (or_else bundle.segments [])) _ old.segments
                  (spread-SameSegments old.segments bundle.segments e) config
                  (keys_using_lem (keys (or_else bundle.segments []))
                    (spread old.configs bundle.configs) key config (same ∙ found) unused)))
      ]

  -- A key that `configsUpdated` reports neither as updated nor as removed evaluates after a bundle as
  -- it did before, in every context: nothing that the bundle changes is left out, be it full or a
  -- delta, as long as it has no key or segment twice.
  pub explanation_of_unreported :
      (old bundle : ConfigBundle F) (key : Text)
      → Distinct (keys bundle.configs)
      → Distinct (keys (or_else bundle.segments []))
      → includes (find_keys_updated_by (merge_bundle (some old) bundle) bundle) key ≡ false
      → includes (find_keys_removed_by (some old) bundle) key ≡ false
      → explanation_in (merge_bundle (some old) bundle) key ≡ explanation_in old key
  unfolding merge_bundle find_keys_removed_by find_keys_updated_by includes
  explanation_of_unreported old bundle key d e updated removed =
      let ids = keys (or_else bundle.segments []) in
      let using = keys_using ids (merged_into bundle.kind bundle (some old)).configs in
      let all_keys : includes (keys bundle.configs ++ using) key ≡ false =
        ground (arith, includes-unique_after [] (keys bundle.configs ++ using) key) in
      let both = includes-append (keys bundle.configs) using key in
      unreported_of_kind bundle.kind old bundle key d e (ground arith) (ground arith) removed
