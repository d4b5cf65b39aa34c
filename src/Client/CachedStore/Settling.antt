-- ===== src/Client/CachedStore/Settling.antt =====
-- What the device keeps after values have been replaced and written.
use js_sdks.Common.{
  ℕ, ◌≡◌, refl, sym, ap, ◌∙◌, subst, Bool, true, false, ◌&&◌, none, List, [], ◌∷◌, ◌++◌, Text,
}
use js_sdks.Client.CachedValues.{CachedValues}
use js_sdks.Client.CachedEntry.{Json, CachedValuesRead}
use js_sdks.Client.CachedStore.{
  Store, StoreStep, reads, replaces, finishes, read_returns, removes, RawRead, ReadPhase, unread,
  reading, removing, settled, remove_entry, replace, finish, read, read_returned, removed, step,
  run,
}
use js_sdks.Client.CachedStore.Queueing.{
  IsKept, Placed, replace-Placed, finish-Placed, two_finishes, replace-reading, finish-reading,
}

module _ {C : Type 0} where
  -- No values are replaced, and every call of the provider for a write succeeds.
  unfoldable pub only_finish_well : List (StoreStep C) → Bool
  only_finish_well [] = true
  only_finish_well (replaces values ∷ steps) = false
  only_finish_well (finishes succeeds ∷ steps) = succeeds && only_finish_well steps
  only_finish_well (x ∷ steps) = only_finish_well steps

-- `readEntry` has ended.
abbrev pub is_settled : {F : Type 0} → ReadPhase F → Bool
is_settled (settled outcome) = true
is_settled phase = false

module _ {F C : Type 0} where
  read_of_settled :
      (phase : ReadPhase F) (s : Store F C) → is_settled phase ≡ true → read phase s ≡ s
  unfolding read
  read_of_settled unread s h = cc
  read_of_settled reading s h = cc
  read_of_settled (removing outcome) s h = cc
  read_of_settled (settled outcome) s h = refl

  removed_of_settled :
      (succeeds : Bool) (phase : ReadPhase F) (s : Store F C)
      → is_settled phase ≡ true
      → removed succeeds phase s ≡ s
  unfolding removed
  removed_of_settled succeeds unread s h = cc
  removed_of_settled succeeds reading s h = cc
  removed_of_settled succeeds (removing outcome) s h = cc
  removed_of_settled succeeds (settled outcome) s h = refl

module _ {F C : Type 0} (json : Json F) (digest : Text) (serialize : CachedValues C → Text)
    (limit : ℕ) where
  read_returned_of_settled :
      (result : RawRead) (phase : ReadPhase F) (s : Store F C)
      → is_settled phase ≡ true
      → read_returned json digest result phase s ≡ s
  unfolding read_returned
  read_returned_of_settled result unread s h = cc
  read_returned_of_settled result reading s h = cc
  read_returned_of_settled result (removing outcome) s h = cc
  read_returned_of_settled result (settled outcome) s h = refl

  run-append :
      (before after : List (StoreStep C)) (s : Store F C)
      → run json digest serialize limit (before ++ after) s
        ≡ run json digest serialize limit after (run json digest serialize limit before s)
  unfolding run
  run-append [] after s = refl
  run-append (x ∷ before) after s = run-append before after (step json digest serialize limit x s)

  run-Placed :
      (steps : List (StoreStep C)) (values : CachedValues C) (s : Store F C)
      → only_finish_well steps ≡ true
      → is_settled s.pending_read ≡ true
      → Placed serialize limit values s
      → Placed serialize limit values (run json digest serialize limit steps s)
  unfolding run step only_finish_well
  run-Placed [] values s ok read_ended h = h
  run-Placed (replaces v ∷ steps) values s ok read_ended h = cc
  run-Placed (finishes false ∷ steps) values s ok read_ended h = cc
  run-Placed (finishes true ∷ steps) values s ok read_ended h =
      run-Placed steps values (finish serialize limit true s) ok
        (ap is_settled (finish-reading serialize limit s.writing s refl) ∙ read_ended)
        (finish-Placed serialize limit values s h)
  run-Placed (reads ∷ steps) values s ok read_ended h =
      subst (λ t. Placed serialize limit values (run json digest serialize limit steps t))
        (sym (read_of_settled s.pending_read s read_ended))
        (run-Placed steps values s ok read_ended h)
  run-Placed (read_returns result ∷ steps) values s ok read_ended h =
      subst (λ t. Placed serialize limit values (run json digest serialize limit steps t))
        (sym (read_returned_of_settled result s.pending_read s read_ended))
        (run-Placed steps values s ok read_ended h)
  run-Placed (removes succeeds ∷ steps) values s ok read_ended h =
      subst (λ t. Placed serialize limit values (run json digest serialize limit steps t))
        (sym (removed_of_settled succeeds s.pending_read s read_ended))
        (run-Placed steps values s ok read_ended h)

  -- Values that are replaced when `readEntry` has ended, its removal of an entry that cannot be used
  -- included, and that are the last ones, are on the device as soon as two more calls of the provider for
  -- writes have ended after any further steps, or no values where they exceed the limit; nothing is left
  -- to write. The calls that end after the replacement succeed; those before may have failed.
  pub settles :
      (before after : List (StoreStep C)) (values : CachedValues C) (s : Store F C)
      → is_settled (run json digest serialize limit before s).pending_read ≡ true
      → only_finish_well after ≡ true
      → IsKept serialize limit values (
          finish serialize limit true (
            finish serialize limit true
              (run json digest serialize limit (before ++ replaces values ∷ after) s)))
  unfolding run step
  settles before after values s read_ended ok =
      let held = run json digest serialize limit before s in
      rw (run-append before (replaces values ∷ after) s) (
        two_finishes serialize limit values _ (
          run-Placed after values (replace values held) ok
            (ap is_settled (replace-reading serialize limit values held.writing held refl)
              ∙ read_ended)
            (replace-Placed serialize limit values held.writing held refl)))

  -- Values that are replaced while `readEntry` waits for its removal are lost when that ends last, though
  -- every call of the provider succeeds.
  lost_to_removal :
      (outcome : CachedValuesRead F) (values : CachedValues C) (s : Store F C)
      → s.writing ≡ none
      → s.pending_read ≡ removing outcome
      → (run json digest serialize limit
          (replaces values ∷ finishes true ∷ removes true ∷ [])
          s).device
        ≡ none
  unfolding run step removed remove_entry
  lost_to_removal outcome values s idle waits =
      let written = finish serialize limit true (replace values s) in
      let phase =
        finish-reading serialize limit (replace values s).writing (replace values s) refl
        ∙ replace-reading serialize limit values none s idle
        ∙ waits in
      ap (λ p. (removed true p written).device) phase
