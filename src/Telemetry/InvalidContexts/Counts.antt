-- ===== src/Telemetry/InvalidContexts/Counts.antt =====
-- No submission is lost or counted twice.
use js_sdks.Common.{
  ℕ, suc, ◌+◌, ◌≤◌, ◌≡◌, refl, sym, ap, ◌∙◌, Option, none, some, List, [], ◌∷◌, ◌++◌, map, Text,
  length, ltb, if◌then◌else◌, arith, Option-cases, inl, inr, Bool-cases, or_else, append-nil,
  length-append,
}
use js_sdks.Telemetry.InvalidContexts.{
  Submissions, InvalidContextEntry, known_count, set_count, add_beyond, add, record_sample, absorb,
  empty, take_snapshot, entry_of, sample_limit, Call, recorded, absorbed, run, earliest,
}

pub total_of : List (Text × ℕ) → ℕ
total_of [] = 0
total_of (c ∷ counts) = c.1 + total_of counts

abbrev pub total : Submissions → ℕ
total s = total_of s.counts + s.count_beyond

pub total_of_entries : List InvalidContextEntry → ℕ
total_of_entries [] = 0
total_of_entries (e ∷ entries) = e.count + total_of_entries entries

total_of-append : (xs ys : List (Text × ℕ)) → total_of (xs ++ ys) ≡ total_of xs + total_of ys
unfolding total_of
total_of-append [] ys = omega arith
total_of-append (a ∷ xs) ys = omega (arith, total_of-append xs ys)

set_count-total :
    (key : Text) (known count : ℕ) (counts : List (Text × ℕ))
    → known_count key counts ≡ some known
    → total_of (set_count key (known + count) counts) ≡ total_of counts + count
unfolding total_of set_count known_count
set_count-total key known count [] h = ground arith
set_count-total key known count ((k, n) ∷ counts) h =
    ground (arith, set_count-total key known count counts)

set_count-length :
    (key : Text) (n : ℕ) (counts : List (Text × ℕ))
    → length (set_count key n counts) ≡ length counts
unfolding set_count
set_count-length key n [] = refl
set_count-length key n ((k, m) ∷ counts) = ground (arith, set_count-length key n counts)

-- Every count of the map belongs to one of at most twenty samples.
abbrev pub IsWithinLimit : Submissions → Type 0
IsWithinLimit s = length s.counts ≤ sample_limit

-- What an addition does to the total and to the number of samples.
abbrev IsAdded : ℕ → Submissions → Submissions → Type 0
IsAdded count s t = (total t ≡ total s + count) × (IsWithinLimit s → IsWithinLimit t)

add_beyond-IsAdded : (count : ℕ) (s : Submissions) → IsAdded count s (add_beyond count s).0
unfolding add_beyond
add_beyond-IsAdded count s = (omega arith, λ h. h)

add-known :
    (sample : Text) (count : ℕ) (s : Submissions) (known : ℕ)
    → known_count sample s.counts ≡ some known
    → (add (some sample) count s).0
      ≡ record s { counts = set_count sample (known + count) s.counts }
unfolding add
add-known sample count s known h = rw (h, add) refl

add-unknown :
    (sample : Text) (count : ℕ) (s : Submissions)
    → known_count sample s.counts ≡ none
    → (add (some sample) count s).0 ≡ (
        if ltb (length s.counts) sample_limit
        then record s { counts = s.counts ++ (sample, count) ∷ [] }
        else (add_beyond count s).0)
unfolding add
add-unknown sample count s h = elim (Bool-cases (ltb (length s.counts) sample_limit)) [
  | inl room ↦ rw (h, add) (rw room refl)
  | inr full ↦ rw (h, add) (rw full refl)
]

add-IsAdded :
    (sample : Option Text) (count : ℕ) (s : Submissions) → IsAdded count s (add sample count s).0
unfolding total_of
add-IsAdded none count s = unfold add in add_beyond-IsAdded count s
add-IsAdded (some sample) count s = elim (Option-cases (known_count sample s.counts)) [
  | inr (known, h) ↦ rw (add-known sample count s known h) (
    omega (arith, set_count-total sample known count s.counts h),
    λ k. rw (set_count-length sample (known + count) s.counts) k,
  )
  | inl h ↦ elim (Bool-cases (ltb (length s.counts) sample_limit)) [
    | inl room ↦
        rw (add-unknown sample count s h, room)
          (
            omega (arith, total_of-append s.counts ((sample, count) ∷ [])),
            λ k. ground (arith, length-append s.counts ((sample, count) ∷ [])),
          )
    | inr full ↦ rw (add-unknown sample count s h, full) (add_beyond-IsAdded count s)
  ]
]

absorb-IsAdded :
    (entries : List InvalidContextEntry) (s : Submissions)
    → IsAdded (total_of_entries entries) s (absorb entries s)
unfolding absorb total_of_entries
absorb-IsAdded [] s = (omega arith, λ h. h)
absorb-IsAdded (e ∷ entries) s =
    let first =
      add-IsAdded e.kind_sample e.count
        (record s { start_time = earliest e.start_time s.start_time }) in
    let later =
      absorb-IsAdded entries
        (add e.kind_sample e.count
          (record s { start_time = earliest e.start_time s.start_time })).0 in
    (omega (arith, first.0, later.0), λ h. later.1 (first.1 h))

-- The submissions that the calls add: one for each record, and the counts of what they absorb.
unfoldable pub submitted : List Call → ℕ
submitted [] = 0
submitted (recorded now sample ∷ calls) = suc (submitted calls)
submitted (absorbed entries ∷ calls) = total_of_entries entries + submitted calls

run-IsAdded : (calls : List Call) (s : Submissions) → IsAdded (submitted calls) s (run calls s)
unfolding run submitted record_sample
run-IsAdded [] s = (omega arith, λ h. h)
run-IsAdded (recorded now sample ∷ calls) s =
    let first =
      add-IsAdded (some sample) 1 (record s { start_time = some (or_else s.start_time now) }) in
    let later = run-IsAdded calls (record_sample now sample s).0 in
    (omega (arith, first.0, later.0), λ h. later.1 (first.1 h))
run-IsAdded (absorbed entries ∷ calls) s =
    let first = absorb-IsAdded entries s in
    let later = run-IsAdded calls (absorb entries s) in
    (omega (arith, first.0, later.0), λ h. later.1 (first.1 h))

sampled-total :
    (now : ℕ) (s : Submissions) (counts : List (Text × ℕ)) (rest : List InvalidContextEntry)
    → total_of_entries (map (λ c. entry_of now s c.1 (some c.0)) counts ++ rest)
      ≡ total_of counts + total_of_entries rest
unfolding total_of total_of_entries
sampled-total now s [] rest = omega arith
sampled-total now s (c ∷ counts) rest = omega (arith, sampled-total now s counts rest)

sampled-length :
    (now : ℕ) (s : Submissions) (counts : List (Text × ℕ))
    → length (map (λ c. entry_of now s c.1 (some c.0)) counts) ≡ length counts
sampled-length now s [] = refl
sampled-length now s (c ∷ counts) = ap (λ n. suc n) (sampled-length now s counts)

take_snapshot-total :
    (now : ℕ) (s : Submissions) → total_of_entries (take_snapshot now s).0 ≡ total s
unfolding take_snapshot
take_snapshot-total now s = elim (Bool-cases (ltb 0 s.count_beyond)) [
  | inl some_beyond ↦ rw some_beyond (
      sampled-total now s s.counts (entry_of now s s.count_beyond none ∷ [])
      ∙ unfold total_of_entries in omega arith)
  | inr none_beyond ↦ rw none_beyond (
      ap total_of_entries (sym (append-nil (map (λ c. entry_of now s c.1 (some c.0)) s.counts)))
      ∙ sampled-total now s s.counts []
      ∙ unfold total_of_entries in ground arith)
]

take_snapshot-length :
    (now : ℕ) (s : Submissions) → length (take_snapshot now s).0 ≤ suc (length s.counts)
unfolding take_snapshot
take_snapshot-length now s = ground (
  arith,
  sampled-length now s s.counts,
  length-append (map (λ c. entry_of now s c.1 (some c.0)) s.counts)
      (entry_of now s s.count_beyond none ∷ []),
)

-- The counts of a snapshot, taken after any records and absorbed snapshots, add up to the number of
-- these records and the counts of what was absorbed. It has at most 21 entries, and what is left is
-- empty.
pub take_snapshot-run :
    (now : ℕ) (calls : List Call)
    → (total_of_entries (take_snapshot now (run calls empty)).0 ≡ submitted calls)
      × (length (take_snapshot now (run calls empty)).0 ≤ suc sample_limit)
      × ((take_snapshot now (run calls empty)).1 ≡ empty)
take_snapshot-run now calls =
    let (added, within) = run-IsAdded calls empty in
    (
      take_snapshot-total now (run calls empty) ∙ added ∙ unfold total_of in omega arith,
      omega (arith, take_snapshot-length now (run calls empty), within (omega arith)),
      unfold take_snapshot in refl,
    )
