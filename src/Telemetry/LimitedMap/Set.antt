-- ===== src/Telemetry/LimitedMap/Set.antt =====
-- What setting a key does to a map within its limit.
use js_sdks.Common.{
  ℕ, suc, ◌+◌, ◌-◌, ◌≤◌, ◌≡◌, refl, sym, ap, ◌∙◌, Bool, true, false, none, some, List, [], ◌∷◌,
  ◌++◌, length, drop, drop_nil, drop_same, ap₂, ltb, arith, Bool-cases, inl, inr, length-append,
}
use js_sdks.Telemetry.LimitedMap.{LimitedMap, enforce_from, enforce_limit, get, set_entry, set}

plus_none : (limit dropped : ℕ) → dropped ≡ dropped + (0 - limit)
plus_none limit dropped = omega arith

count_one :
    (limit dropped n : ℕ)
    → ltb limit (suc n) ≡ true
    → suc dropped + (n - limit) ≡ dropped + (suc n - limit)
count_one limit dropped n h = ground arith

count_none : (limit dropped n : ℕ) → ltb limit (suc n) ≡ false → dropped ≡ dropped + (suc n - limit)
count_none limit dropped n h = ground arith

module _ {ℓ} {A : Type ℓ} where
  drop_one :
      (limit : ℕ) (x : A) (xs : List A)
      → ltb limit (suc (length xs)) ≡ true
      → drop (length xs - limit) xs ≡ drop (suc (length xs) - limit) (x ∷ xs)
  drop_one limit x xs h =
      drop_same (suc (length xs - limit)) (suc (length xs) - limit) (x ∷ xs) (ground arith)

module _ {K V : Type 0} where
  -- Dropping as many of the oldest entries as there are too many.
  enforce_from_lem :
      (limit : ℕ) (es : List (K × V)) (dropped : ℕ)
      → enforce_from limit es dropped ≡ (drop (length es - limit) es, dropped + (length es - limit))
  unfolding enforce_from
  enforce_from_lem limit [] dropped =
      ap₂ (λ l n. (l, n)) (sym (drop_nil (0 - limit))) (plus_none limit dropped)
  enforce_from_lem limit (e ∷ es) dropped = elim (Bool-cases (ltb limit (suc (length es)))) [
    | inl over ↦ rw over (
        enforce_from_lem limit es (suc dropped)
        ∙ ap₂ (λ l n. (l, n)) (drop_one limit e es over) (count_one limit dropped (length es) over))
    | inr within ↦ rw within (
        ap₂ (λ l n. (l, n)) (drop_same 0 (suc (length es) - limit) (e ∷ es) (ground arith))
          (count_none limit dropped (length es) within))
  ]

  enforce_limit-entries :
      (m : LimitedMap K V) → (enforce_limit m).entries ≡ drop (length m.entries - m.limit) m.entries
  unfolding enforce_limit
  enforce_limit-entries m = ap (λ r. r.0) (enforce_from_lem m.limit m.entries m.dropped_count)

  enforce_limit-dropped_count :
      (m : LimitedMap K V)
      → (enforce_limit m).dropped_count ≡ m.dropped_count + (length m.entries - m.limit)
  unfolding enforce_limit
  enforce_limit-dropped_count m = ap (λ r. r.1) (enforce_from_lem m.limit m.entries m.dropped_count)

module _ {K V : Type 0} (key_eq : K → K → Bool) where
  -- A map that holds no more entries than its limit.
  abbrev pub IsWithin : LimitedMap K V → Type 0
  IsWithin m = length m.entries ≤ m.limit

  set_entry-known :
      (key : K) (value old : V) (es : List (K × V))
      → get key_eq key es ≡ some old
      → length (set_entry key_eq key value es) ≡ length es
  unfolding get set_entry
  set_entry-known key value old [] h = ground arith
  set_entry-known key value old ((k, v) ∷ es) h = ground (arith, set_entry-known key value old es)

  set_entry-new :
      (key : K) (value : V) (es : List (K × V))
      → get key_eq key es ≡ none
      → set_entry key_eq key value es ≡ es ++ (key, value) ∷ []
  unfolding get set_entry
  set_entry-new key value [] h = refl
  set_entry-new key value ((k, v) ∷ es) h = ground (arith, set_entry-new key value es)

  set-entries :
      (key : K) (value : V) (m : LimitedMap K V)
      → (set key_eq key value m).entries
        ≡ drop
            (length (set_entry key_eq key value m.entries) - m.limit)
            (set_entry key_eq key value m.entries)
  unfolding set
  set-entries key value m =
      enforce_limit-entries (record m { entries = set_entry key_eq key value m.entries })

  set-dropped_count :
      (key : K) (value : V) (m : LimitedMap K V)
      → (set key_eq key value m).dropped_count
        ≡ m.dropped_count + (length (set_entry key_eq key value m.entries) - m.limit)
  unfolding set
  set-dropped_count key value m =
      enforce_limit-dropped_count (record m { entries = set_entry key_eq key value m.entries })

  length-set_entry_new :
      (key : K) (value : V) (es : List (K × V))
      → get key_eq key es ≡ none
      → length (set_entry key_eq key value es) ≡ suc (length es)
  length-set_entry_new key value es h =
      rw (set_entry-new key value es h) (length-append es ((key, value) ∷ []) ∙ omega arith)

  -- A new key comes last in the map. As many of the oldest entries are dropped, and counted, as the
  -- map then has above its limit.
  pub set-new :
      (key : K) (value : V) (m : LimitedMap K V)
      → get key_eq key m.entries ≡ none
      → ((set key_eq key value m).entries
          ≡ drop (suc (length m.entries) - m.limit) (m.entries ++ (key, value) ∷ []))
        × ((set key_eq key value m).dropped_count
            ≡ m.dropped_count + (suc (length m.entries) - m.limit))
  set-new key value m h = (
    set-entries key value m
        ∙ drop_same (length (set_entry key_eq key value m.entries) - m.limit)
            (suc (length m.entries) - m.limit) (set_entry key_eq key value m.entries)
            (ap (λ n. n - m.limit) (length-set_entry_new key value m.entries h))
        ∙ ap (drop (suc (length m.entries) - m.limit)) (set_entry-new key value m.entries h),
    set-dropped_count key value m
        ∙ ap (λ n. m.dropped_count + (n - m.limit)) (length-set_entry_new key value m.entries h),
  )

  -- Setting a key that a map within its limit holds replaces the value, and drops nothing.
  pub set-known :
      (key : K) (value old : V) (m : LimitedMap K V)
      → IsWithin m
      → get key_eq key m.entries ≡ some old
      → ((set key_eq key value m).entries ≡ set_entry key_eq key value m.entries)
        × ((set key_eq key value m).dropped_count ≡ m.dropped_count)
        × (length (set key_eq key value m).entries ≡ length m.entries)
  set-known key value old m within h =
      let same = set_entry-known key value old m.entries h in
      let kept =
        set-entries key value m
        ∙ drop_same (length (set_entry key_eq key value m.entries) - m.limit) 0
            (set_entry key_eq key value m.entries) (omega (arith, same, within)) in
      (kept, set-dropped_count key value m ∙ omega (arith, same, within), ap length kept ∙ same)
