-- ===== src/Client/CachedStore/Queueing.antt =====
-- Where the values of a store are that were replaced last.
use js_sdks.Common.{
  ℕ, ◌≡◌, refl, sym, ap, ◌∙◌, subst, ◌⊎◌, inl, inr, Bool, true, false, Option, none, some, Text,
  ltb, Bool-cases, if_both,
}
use js_sdks.Telemetry.Utf8.{utf8_byte_length}
use js_sdks.Client.CachedValues.{CachedValues}
use js_sdks.Client.CachedStore.{
  Store, Warning, over_the_size_limit, write_failed, remove_failed, has_warned, warn_once,
  remove_entry, take_queued, start_writing, replace, form_of, write_entry, finish_writing, finish,
}

module _ {F C : Type 0} where
  -- The queue of a store, after a step that does not touch it.
  abbrev SameQueue : Store F C → Store F C → Type 0
  SameQueue s t =
      (t.queued ≡ s.queued) × (t.writing ≡ s.writing) × (t.pending_read ≡ s.pending_read)

  warn_once-SameQueue :
      (w : Warning) (s : Store F C)
      → SameQueue s (warn_once w s) × ((warn_once w s).device ≡ s.device)
  unfolding warn_once
  warn_once-SameQueue w s =
      if_both (λ t. SameQueue s t × (t.device ≡ s.device)) (has_warned s.warned w) s _
        ((refl, refl, refl), refl) ((refl, refl, refl), refl)

  remove_entry-SameQueue : (succeeds : Bool) (s : Store F C) → SameQueue s (remove_entry succeeds s)
  unfolding remove_entry
  remove_entry-SameQueue true s = (refl, refl, refl)
  remove_entry-SameQueue false s = (warn_once-SameQueue remove_failed s).0

module _ {F C : Type 0} (serialize : CachedValues C → Text) (limit : ℕ) where
  write_entry-SameQueue :
      (succeeds : Bool) (values : CachedValues C) (s : Store F C)
      → SameQueue s (write_entry serialize limit succeeds values s)
  unfolding write_entry
  write_entry-SameQueue succeeds values s =
      let warned = warn_once-SameQueue over_the_size_limit s in
      let removed_it = remove_entry-SameQueue succeeds (warn_once over_the_size_limit s) in
      if_both (SameQueue s) (ltb limit (utf8_byte_length (serialize values))) _ _
        (removed_it.0 ∙ warned.0.0, removed_it.1 ∙ warned.0.1, removed_it.2 ∙ warned.0.2)
        (if_both (SameQueue s) succeeds _ _ (refl, refl, refl)
          (warn_once-SameQueue write_failed s).0)

  write_entry-device :
      (values : CachedValues C) (s : Store F C)
      → (write_entry serialize limit true values s).device ≡ form_of serialize limit values
  unfolding write_entry form_of remove_entry
  write_entry-device values s =
      elim (Bool-cases (ltb limit (utf8_byte_length (serialize values)))) [
        | inl large ↦ rw large refl
        | inr small ↦ rw small refl
      ]

  -- The values are on the device, and nothing is being written.
  abbrev pub IsKept : CachedValues C → Store F C → Type 0
  IsKept values s =
      (s.queued ≡ none) × (s.writing ≡ none) × (s.device ≡ form_of serialize limit values)

  -- Where the values are that were replaced last: queued behind others, being written, or kept.
  abbrev pub Placed : CachedValues C → Store F C → Type 0
  Placed values s =
      (s.queued ≡ some values × (w : CachedValues C) × s.writing ≡ some w)
      ⊎ (s.queued ≡ none × s.writing ≡ some values)
      ⊎ IsKept values s

  pub replace-Placed :
      (values : CachedValues C) (writing : Option (CachedValues C)) (s : Store F C)
      → s.writing ≡ writing
      → Placed values (replace values s)
  unfolding replace
  replace-Placed values none s e = inr (
      inl (
        ap (λ w. (start_writing w (record s { queued = some values })).queued) e,
        ap (λ w. (start_writing w (record s { queued = some values })).writing) e,
      ))
  replace-Placed values (some w) s e = inl (
    ap (λ v. (start_writing v (record s { queued = some values })).queued) e,
    w,
    ap (λ v. (start_writing v (record s { queued = some values })).writing) e ∙ e,
  )

  -- A call of the provider that ends well, with nothing being written, or with values.
  finish_idle : (s : Store F C) → s.writing ≡ none → finish serialize limit true s ≡ s
  unfolding finish
  finish_idle s e = ap (λ w. finish_writing serialize limit true w s) e

  finish_busy :
      (s : Store F C) (w : CachedValues C)
      → s.writing ≡ some w
      → finish serialize limit true s ≡ take_queued (write_entry serialize limit true w s)
  unfolding finish
  finish_busy s w e = ap (λ v. finish_writing serialize limit true v s) e

  pub finish-Placed :
      (values : CachedValues C) (s : Store F C)
      → Placed values s
      → Placed values (finish serialize limit true s)
  finish-Placed values s (inl (queued, w, writing)) =
      let kept = write_entry-SameQueue true w s in
      subst (Placed values) (sym (finish_busy s w writing)) (inr (inl (refl, kept.0 ∙ queued)))
  finish-Placed values s (inr (inl (queued, writing))) =
      let kept = write_entry-SameQueue true values s in
      subst (Placed values) (sym (finish_busy s values writing))
        (inr (inr (refl, kept.0 ∙ queued, write_entry-device values s)))
  finish-Placed values s (inr (inr (queued, writing, device))) =
      subst (Placed values) (sym (finish_idle s writing)) (inr (inr (queued, writing, device)))

  pub two_finishes :
      (values : CachedValues C) (s : Store F C)
      → Placed values s
      → IsKept values (finish serialize limit true (finish serialize limit true s))
  two_finishes values s (inl (queued, w, writing)) =
      let kept = write_entry-SameQueue true w s in
      let next = take_queued (write_entry serialize limit true w s) in
      let busy = finish_busy next values (kept.0 ∙ queued) in
      subst (λ t. IsKept values (finish serialize limit true t)) (sym (finish_busy s w writing))
        (subst (IsKept values) (sym busy)
          (refl, (write_entry-SameQueue true values next).0, write_entry-device values next))
  two_finishes values s (inr (inl (queued, writing))) =
      let kept = write_entry-SameQueue true values s in
      let next = take_queued (write_entry serialize limit true values s) in
      subst (λ t. IsKept values (finish serialize limit true t))
        (sym (finish_busy s values writing))
        (subst (IsKept values) (sym (finish_idle next (kept.0 ∙ queued)))
          (refl, kept.0 ∙ queued, write_entry-device values s))
  two_finishes values s (inr (inr kept)) =
      let (_, idle, _) = kept in
      subst (λ t. IsKept values (finish serialize limit true t)) (sym (finish_idle s idle))
        (subst (IsKept values) (sym (finish_idle s idle)) kept)

  pub replace-reading :
      (values : CachedValues C) (writing : Option (CachedValues C)) (s : Store F C)
      → s.writing ≡ writing
      → (replace values s).pending_read ≡ s.pending_read
  unfolding replace
  replace-reading values none s e =
      ap (λ w. (start_writing w (record s { queued = some values })).pending_read) e
  replace-reading values (some w) s e =
      ap (λ v. (start_writing v (record s { queued = some values })).pending_read) e

  pub finish-reading :
      (writing : Option (CachedValues C)) (s : Store F C)
      → s.writing ≡ writing
      → (finish serialize limit true s).pending_read ≡ s.pending_read
  finish-reading none s e = ap (λ t. t.pending_read) (finish_idle s e)
  finish-reading (some w) s e =
      ap (λ t. t.pending_read) (finish_busy s w e) ∙ (write_entry-SameQueue true w s).2
