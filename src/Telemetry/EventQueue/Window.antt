-- ===== src/Telemetry/EventQueue/Window.antt =====
-- The queue as a window on the events pushed since it was empty.
use js_sdks.Common.{
  ℕ, zero, suc, ◌+◌, ◌-◌, ◌≤◌, ◌≡◌, refl, sym, ap, ◌∙◌, List, [], ◌∷◌, ◌++◌, length, drop, drop_nil,
  drop_same, length-append, length-drop, append_assoc, append-nil, arith, ltb, ap₂, leb, Bool-cases,
  inl, inr,
}
use js_sdks.Telemetry.EventQueue.{
  EventQueue, push, push_all, make_room, start_at, take_snapshot, clear,
}

module _ {ℓ} {E : Type ℓ} where
  drop-append : (n : ℕ) (xs ys : List E) → drop n (xs ++ ys) ≡ drop n xs ++ drop (n - length xs) ys
  drop-append n [] ys = rw (drop_nil n) (drop_same n (n - 0) ys (omega arith))
  drop-append zero (x ∷ xs) ys =
      ap (λ l. x ∷ (xs ++ l)) (drop_same 0 (0 - suc (length xs)) ys (omega arith))
  drop-append (suc n) (x ∷ xs) ys =
      drop-append n xs ys
      ∙ ap (λ l. drop n xs ++ l)
          (drop_same (n - length xs) (suc n - suc (length xs)) ys (omega arith))

  drop-drop : (m n : ℕ) (xs : List E) → drop m (drop n xs) ≡ drop (n + m) xs
  drop-drop m zero xs = drop_same m (0 + m) xs (omega arith)
  drop-drop m (suc n) [] = drop_nil m ∙ sym (drop_nil (suc n + m))
  drop-drop m (suc n) (x ∷ xs) =
      drop-drop m n xs ∙ drop_same (suc (n + m)) (suc n + m) (x ∷ xs) (omega arith)

  drop_all : (n : ℕ) (xs : List E) → length xs ≤ n → drop n xs ≡ []
  drop_all n [] h = drop_nil n
  drop_all zero (x ∷ xs) h = ground arith
  drop_all (suc n) (x ∷ xs) h = drop_all n xs (omega arith)

  -- The queue holds the last events of a history, up to its limit, and counts the others.
  pub record IsWindow (limit : ℕ) (history : List E) (q : EventQueue E) : Type ℓ where
    pub limit_kept : q.limit ≡ limit
    pub last : q.events ≡ drop (length history - limit) history
    pub counted : q.dropped_count ≡ length history - limit

  make_room-dropped :
      (added : ℕ) (q : EventQueue E)
      → (make_room added q).dropped_count ≡ q.dropped_count + (length q.events + added - q.limit)
  unfolding make_room
  make_room-dropped added q = ground arith

  make_room-events :
      (added : ℕ) (q : EventQueue E)
      → (make_room added q).events ≡ drop (length q.events + added - q.limit) q.events
  unfolding make_room
  make_room-events added q = elim (Bool-cases (ltb q.limit (length q.events + added))) [
    | inl full ↦ rw full
    | inr room ↦ rw room (drop_same 0 (length q.events + added - q.limit) q.events (ground arith))
  ]

  make_room-limit : (added : ℕ) (q : EventQueue E) → (make_room added q).limit ≡ q.limit
  unfolding make_room
  make_room-limit added q = ground arith

  drop_past : (m n : ℕ) (xs : List E) → length xs ≤ m → length xs ≤ n → drop m xs ≡ drop n xs
  drop_past m n xs h k = drop_all m xs h ∙ sym (drop_all n xs k)

  -- The part of the window that is left of the history when `kept` events of it are held and
  -- `pushed` of the new ones.
  window_end :
      (history : List E) (added limit kept pushed : ℕ)
      → kept ≡ length history - (length history - limit)
      → pushed ≡ added - (added - limit)
      → drop ((length history - limit) + (kept + pushed - limit)) history
        ≡ drop (length history + added - limit) history
  window_end history added limit kept pushed h k = elim (Bool-cases (leb added limit)) [
    | inl fits ↦
        drop_same ((length history - limit) + (kept + pushed - limit))
          (length history + added - limit) history (ground arith)
    | inr over ↦
        drop_past ((length history - limit) + (kept + pushed - limit))
          (length history + added - limit) history (ground arith) (ground arith)
  ]

  events_after :
      (history es : List E) (limit : ℕ)
      → drop
            (length (drop (length history - limit) history)
              + length (drop (length es - limit) es)
              - limit)
            (drop (length history - limit) history)
          ++ drop (length es - limit) es
        ≡ drop (length (history ++ es) - limit) (history ++ es)
  events_after history es limit =
      ap₂ (λ l r. l ++ r)
        (drop-drop _ (length history - limit) history
          ∙ window_end history (length es) limit (length (drop (length history - limit) history))
              (length (drop (length es - limit) es)) (length-drop (length history - limit) history)
              (length-drop (length es - limit) es))
        (drop_same (length es - limit) (length history + length es - limit - length history) es
          (omega arith))
      ∙ sym (drop-append (length history + length es - limit) history es)
      ∙ drop_same (length history + length es - limit) (length (history ++ es) - limit)
          (history ++ es) (omega (arith, length-append history es))

  push-events :
      (now : ℕ) (q : EventQueue E) (es : List E)
      → (push now q es).0.events
        ≡ drop (length q.events + length (drop (length es - q.limit) es) - q.limit) q.events
          ++ drop (length es - q.limit) es
  unfolding push
  push-events now q es =
      ap (λ l. l ++ drop (length es - q.limit) es)
        (make_room-events (length (drop (length es - q.limit) es)) (record q {
          start_time = start_at now q.start_time;
          dropped_count = q.dropped_count + (length es - q.limit);
        }))

  push-dropped_count :
      (now : ℕ) (q : EventQueue E) (es : List E)
      → (push now q es).0.dropped_count
        ≡ q.dropped_count
          + (length es - q.limit)
          + (length q.events + length (drop (length es - q.limit) es) - q.limit)
  unfolding push
  push-dropped_count now q es = make_room-dropped _ _

  push-limit : (now : ℕ) (q : EventQueue E) (es : List E) → (push now q es).0.limit ≡ q.limit
  unfolding push
  push-limit now q es = make_room-limit _ _

  counted_after :
      (history es : List E) (limit : ℕ)
      → length history
          - limit
          + (length es - limit)
          + (length (drop (length history - limit) history)
              + length (drop (length es - limit) es)
              - limit)
        ≡ length (history ++ es) - limit
  counted_after history es limit = omega (
    arith,
    length-drop (length history - limit) history,
    length-drop (length es - limit) es,
    length-append history es,
  )

  -- A push keeps the window: what it pushes is added to the history.
  pub push-IsWindow :
      (now limit : ℕ) (history : List E) (q : EventQueue E) (es : List E)
      → IsWindow limit history q
      → IsWindow limit (history ++ es) (push now q es).0
  push-IsWindow now limit history q es w = record {
    limit_kept = push-limit now q es ∙ w.limit_kept;
    last = push-events now q es ∙ rw (w.limit_kept, w.last) (events_after history es limit);
    counted =
        push-dropped_count now q es
        ∙ rw (w.limit_kept, w.last, w.counted) (counted_after history es limit);
  }

  abbrev pub pushed : List (ℕ × List E) → List E
  pushed [] = []
  pushed ((now, es) ∷ pushes) = es ++ pushed pushes

  push_all-IsWindow :
      (limit : ℕ) (history : List E) (q : EventQueue E) (pushes : List (ℕ × List E))
      → IsWindow limit history q
      → IsWindow limit (history ++ pushed pushes) (push_all q pushes)
  unfolding push_all
  push_all-IsWindow limit history q [] w = rw (append-nil history) w
  push_all-IsWindow limit history q ((now, es) ∷ pushes) w =
      rw (sym (append_assoc history es (pushed pushes))) (
        push_all-IsWindow limit (history ++ es) (push now q es).0 pushes
          (push-IsWindow now limit history q es w))

  -- When any batches of events are pushed to a queue that was just cleared, a snapshot of it holds
  -- the last of these events in their order, as many as the limit of the queue, counts the others
  -- as dropped, and leaves an empty queue that has dropped none.
  pub take_snapshot-push_all :
      (now : ℕ) (q : EventQueue E) (pushes : List (ℕ × List E))
      → let taken = take_snapshot now (push_all (clear q) pushes) in
        (taken.0.events ≡ drop (length (pushed pushes) - q.limit) (pushed pushes))
        × (taken.0.dropped_count ≡ length (pushed pushes) - q.limit)
        × (taken.1 ≡ clear q)
  unfolding take_snapshot clear
  take_snapshot-push_all now q pushes =
      let w = push_all-IsWindow q.limit [] (clear q) pushes (record {
        limit_kept = refl;
        last = sym (drop_nil (0 - q.limit));
        counted = omega arith;
      }) in
      (w.last, w.counted, ap (λ l. record (clear q) { limit = l }) w.limit_kept)
