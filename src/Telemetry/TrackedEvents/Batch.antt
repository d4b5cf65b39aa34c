-- ===== src/Telemetry/TrackedEvents/Batch.antt =====
-- What a batch of tracked events holds, and which warnings it logs.
use js_sdks.Common.{
  ℕ, zero, suc, ◌≤◌, ◌≡◌, refl, sym, ap, ◌∙◌, true, false, not, ◌&&◌, ◌||◌, List, [], ◌∷◌, ◌++◌,
  length, take, leb, if◌then◌else◌, arith, append_assoc, append-nil, Bool-cases, inl, inr,
}
use js_sdks.Telemetry.TrackedEvents.{
  Warning, name_outside_the_character_limit, value_not_a_finite_number, details_not_reportable,
  batch_already_full, Admission, admitted, dropped, TrackedEventQueue, events_per_batch, warning_eq,
  has, keep_first, clear, warnings_of_keeping, add, add_all,
}

warning_eq-≡ : (v w : Warning) → warning_eq v w ≡ true → v ≡ w
unfolding warning_eq
warning_eq-≡ name_outside_the_character_limit name_outside_the_character_limit h = refl
warning_eq-≡ value_not_a_finite_number value_not_a_finite_number h = refl
warning_eq-≡ details_not_reportable details_not_reportable h = refl
warning_eq-≡ batch_already_full batch_already_full h = refl
warning_eq-≡ _ _ h = ground arith

-- No warning is raised before or twice.
abbrev pub IsFresh : List Warning → List Warning → Type 0
IsFresh raised [] = Unit
IsFresh raised (w ∷ ws) = (has raised w ≡ false) × IsFresh (w ∷ raised) ws

has-append : (vs ws : List Warning) (w : Warning) → has (vs ++ ws) w ≡ has vs w || has ws w
has-append [] ws w = refl
has-append (v ∷ vs) ws w = ground (arith, has-append vs ws w)

keep_first-IsFresh :
    (raised ws later : List Warning)
    → IsFresh (keep_first raised ws).1 later
    → IsFresh raised ((keep_first raised ws).0 ++ later)
unfolding keep_first
keep_first-IsFresh raised [] later h = h
keep_first-IsFresh raised (w ∷ ws) later h = elim (Bool-cases (has raised w)) [
  | inl known ↦ rw known (keep_first-IsFresh raised ws later (rw known at h))
  | inr new ↦ rw new (new, keep_first-IsFresh (w ∷ raised) ws later (rw new at h))
]

has_same :
    (raised : List Warning) (v w : Warning) → warning_eq v w ≡ true → has raised v ≡ has raised w
has_same raised v w h = ap (has raised) (warning_eq-≡ v w h)

keep_first-has :
    (raised ws : List Warning) (w : Warning)
    → (has (keep_first raised ws).0 w ≡ has ws w && not (has raised w))
      × (has (keep_first raised ws).1 w ≡ has ws w || has raised w)
unfolding keep_first
keep_first-has raised [] w = (refl, refl)
keep_first-has raised (v ∷ ws) w = elim (Bool-cases (has raised v)) [
  | inl known ↦ rw known (
    ground (arith, keep_first-has raised ws w, has_same raised v w),
    ground (arith, keep_first-has raised ws w, has_same raised v w),
  )
  | inr new ↦ rw new (
    ground (arith, keep_first-has (v ∷ raised) ws w, has_same raised v w),
    ground (arith, keep_first-has (v ∷ raised) ws w, has_same raised v w),
  )
]

module _ {ℓ} {A : Type ℓ} where
  take-append_full : (n : ℕ) (xs ys : List A) → length xs ≡ n → take n (xs ++ ys) ≡ xs
  take-append_full zero [] ys h = refl
  take-append_full zero (x ∷ xs) ys h = ground arith
  take-append_full (suc n) [] ys h = ground arith
  take-append_full (suc n) (x ∷ xs) ys h = ap (λ l. x ∷ l) (take-append_full n xs ys (omega arith))

  take_all : (n : ℕ) (xs : List A) → length xs ≤ n → take n xs ≡ xs
  take_all zero [] h = refl
  take_all zero (x ∷ xs) h = ground arith
  take_all (suc n) [] h = refl
  take_all (suc n) (x ∷ xs) h = ap (λ l. x ∷ l) (take_all n xs (omega arith))

  length_snoc : (xs : List A) (x : A) → suc (length xs) ≡ length (xs ++ x ∷ [])
  length_snoc [] x = refl
  length_snoc (y ∷ xs) x = ap (λ n. suc n) (length_snoc xs x)

has-both :
    (raised ws first later rest : List Warning) (w : Warning)
    → has first w ≡ (has ws w && not (has raised w))
    → has later w ≡ (has rest w && not (has ws w || has raised w))
    → has (first ++ later) w ≡ has (ws ++ rest) w && not (has raised w)
has-both raised ws first later rest w h k =
    ground (arith, has-append first later w, has-append ws rest w)

module _ {E : Type 0} where
  -- The entries of the admitted events.
  pub entries_of : List (Admission E) → List E
  entries_of [] = []
  entries_of (dropped ws ∷ calls) = entries_of calls
  entries_of (admitted e ws ∷ calls) = e ∷ entries_of calls

  -- The warnings that the events deserve, after `n` entries in the batch.
  pub deserved : ℕ → List (Admission E) → List Warning
  deserved n [] = []
  deserved n (dropped ws ∷ calls) = ws ++ deserved n calls
  deserved n (admitted e ws ∷ calls) =
      if leb events_per_batch n
      then batch_already_full ∷ deserved n calls
      else ws ++ deserved (suc n) calls

  add_all-IsFresh :
      (q : TrackedEventQueue E) (calls : List (Admission E)) → IsFresh q.raised (add_all q calls).1
  unfolding add_all add
  add_all-IsFresh q [] = tt
  add_all-IsFresh q (a ∷ calls) =
      keep_first-IsFresh q.raised (warnings_of_keeping q a).1 _ (add_all-IsFresh (add q a).0 calls)

  deserved-cons :
      (q : TrackedEventQueue E) (a : Admission E) (calls : List (Admission E))
      → deserved (length q.entries) (a ∷ calls)
        ≡ (warnings_of_keeping q a).1 ++ deserved (length (add q a).0.entries) calls
  unfolding deserved add warnings_of_keeping
  deserved-cons q (dropped ws) calls = refl
  deserved-cons q (admitted e ws) calls =
      elim (Bool-cases (leb events_per_batch (length q.entries))) [
        | inl full ↦ rw full refl
        | inr room ↦ rw room (ap (λ n. ws ++ deserved n calls) (length_snoc q.entries e))
      ]

  add_all-cons :
      (q : TrackedEventQueue E) (a : Admission E) (calls : List (Admission E))
      → (add_all q (a ∷ calls)).1
        ≡ (keep_first q.raised (warnings_of_keeping q a).1).0 ++ (add_all (add q a).0 calls).1
  unfolding add_all add
  add_all-cons q a calls = refl

  add-raised :
      (q : TrackedEventQueue E) (a : Admission E)
      → (add q a).0.raised ≡ (keep_first q.raised (warnings_of_keeping q a).1).1
  unfolding add
  add-raised q a = refl

  add_all-has :
      (q : TrackedEventQueue E) (calls : List (Admission E)) (w : Warning)
      → has (add_all q calls).1 w
        ≡ has (deserved (length q.entries) calls) w && not (has q.raised w)
  add_all-has q [] w = unfold add_all deserved in refl
  add_all-has q (a ∷ calls) w =
      rw (deserved-cons q a calls, add_all-cons q a calls)
        (has-both q.raised (warnings_of_keeping q a).1
          (keep_first q.raised (warnings_of_keeping q a).1).0 (add_all (add q a).0 calls).1
          (deserved (length (add q a).0.entries) calls) w
          (keep_first-has q.raised (warnings_of_keeping q a).1 w).0
          (add_all-has (add q a).0 calls w
            ∙ ap (λ b. has (deserved (length (add q a).0.entries) calls) w && not b)
                (ap (λ l. has l w) (add-raised q a)
                  ∙ (keep_first-has q.raised (warnings_of_keeping q a).1 w).1)))

  add-full :
      (q : TrackedEventQueue E) (e : E) (ws : List Warning)
      → leb events_per_batch (length q.entries) ≡ true
      → (add q (admitted e ws)).0.entries ≡ q.entries
  unfolding add warnings_of_keeping
  add-full q e ws full = rw full refl

  add-room :
      (q : TrackedEventQueue E) (e : E) (ws : List Warning)
      → leb events_per_batch (length q.entries) ≡ false
      → (add q (admitted e ws)).0.entries ≡ q.entries ++ e ∷ []
  unfolding add warnings_of_keeping
  add-room q e ws room = rw room refl

  add_all-entries :
      (q : TrackedEventQueue E) (calls : List (Admission E))
      → length q.entries ≤ events_per_batch
      → (add_all q calls).0.entries ≡ take events_per_batch (q.entries ++ entries_of calls)
  unfolding add_all entries_of add warnings_of_keeping
  add_all-entries q [] h = rw (append-nil q.entries) (sym (take_all events_per_batch q.entries h))
  add_all-entries q (dropped ws ∷ calls) h = add_all-entries (add q (dropped ws)).0 calls h
  add_all-entries q (admitted e ws ∷ calls) h =
      elim (Bool-cases (leb events_per_batch (length q.entries))) [
        | inl full ↦
            let same = add-full q e ws full in
            add_all-entries (add q (admitted e ws)).0 calls (rw same h)
            ∙ rw same (
                take-append_full events_per_batch q.entries (entries_of calls) (ground arith)
                ∙ sym (
                    take-append_full events_per_batch q.entries (e ∷ entries_of calls)
                      (ground arith)))
        | inr room ↦
            let longer = add-room q e ws room in
            add_all-entries (add q (admitted e ws)).0 calls
              (rw longer (ground (arith, length_snoc q.entries e)))
            ∙ rw (longer, append_assoc q.entries (e ∷ []) (entries_of calls)) refl
      ]

  -- When any tracked events are added to a queue that was just cleared, its batch holds the entries
  -- of the first 1000 that were admitted, in their order. Every warning that is logged is logged
  -- once, and these are the warnings that the events deserve: those of a dropped event and of one
  -- that is kept, and that the batch is already full for an admitted one that is not.
  pub add_all_of_clear :
      (q : TrackedEventQueue E) (calls : List (Admission E))
      → ((add_all (clear q) calls).0.entries ≡ take events_per_batch (entries_of calls))
        × IsFresh [] (add_all (clear q) calls).1
        × ((w : Warning) → has (add_all (clear q) calls).1 w ≡ has (deserved 0 calls) w)
  unfolding clear
  add_all_of_clear q calls = (
    add_all-entries (clear q) calls (omega arith),
    add_all-IsFresh (clear q) calls,
    λ w. add_all-has (clear q) calls w ∙ ground arith,
  )
