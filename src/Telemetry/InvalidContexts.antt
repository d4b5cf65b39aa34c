-- ===== src/Telemetry/InvalidContexts.antt =====
-- packages/shared/src/telemetry/InvalidContextSubmissions.ts
pub mod Counts
use js_sdks.Common.{
  ℕ, ◌+◌, Bool, true, false, Option, none, some, List, [], ◌∷◌, ◌++◌, map, Text, text_eq, length,
  ltb, is_some, or_else, if◌then◌else◌, ◌==◌,
}

pub data Recording : Type 0 where
  new_kind_sample : Recording
  known_kind_sample : Recording
  first_beyond_sample_limit : Recording
  beyond_sample_limit : Recording

-- An aggregated event, whose reason is that of an invalid kind.
pub record InvalidContextEntry : Type 0 where
  pub start_time : ℕ
  pub end_time : ℕ
  pub count : ℕ
  pub kind_sample : Option Text

-- The fields of `InvalidContextSubmissions`; the map lists its keys in the order of insertion.
pub record Submissions : Type 0 where
  pub counts : List (Text × ℕ)
  pub count_beyond : ℕ
  pub start_time : Option ℕ

abbrev pub sample_limit : ℕ
sample_limit = 20

unfoldable pub known_count : Text → List (Text × ℕ) → Option ℕ
known_count key [] = none
known_count key ((k, n) ∷ counts) = if text_eq k key then some n else known_count key counts

-- `set` of a key that is there.
unfoldable pub set_count : Text → ℕ → List (Text × ℕ) → List (Text × ℕ)
set_count key n [] = []
set_count key n ((k, m) ∷ counts) =
    if text_eq k key then (k, n) ∷ counts else (k, m) ∷ set_count key n counts

unfoldable pub add_beyond : ℕ → Submissions → Submissions × Recording
add_beyond count s = (
  record s { count_beyond = s.count_beyond + count },
  if s.count_beyond == 0 then first_beyond_sample_limit else beyond_sample_limit,
)

unfoldable pub add : Option Text → ℕ → Submissions → Submissions × Recording
add none count s = add_beyond count s
add (some sample) count s = elim (known_count sample s.counts) [
  | some known ↦
      (record s { counts = set_count sample (known + count) s.counts }, known_kind_sample)
  | none ↦
      if ltb (length s.counts) sample_limit
      then (record s { counts = s.counts ++ (sample, count) ∷ [] }, new_kind_sample)
      else add_beyond count s
]

-- `record`, at the time `now`.
unfoldable pub record_sample : ℕ → Text → Submissions → Submissions × Recording
record_sample now sample s =
    add (some sample) 1 (record s { start_time = some (or_else s.start_time now) })

-- The earlier of the two times.
unfoldable pub earliest : ℕ → Option ℕ → Option ℕ
earliest time none = some time
earliest time (some start) = if ltb time start then some time else some start

unfoldable pub absorb : List InvalidContextEntry → Submissions → Submissions
unfolding earliest
absorb [] s = s
absorb (entry ∷ entries) s =
    absorb entries
      (add entry.kind_sample entry.count
        (record s { start_time = earliest entry.start_time s.start_time })).0

abbrev pub empty : Submissions
empty = record { counts = []; count_beyond = 0; start_time = none }

abbrev pub entry_of : ℕ → Submissions → ℕ → Option Text → InvalidContextEntry
entry_of now s count sample = record {
  start_time = or_else s.start_time now;
  end_time = now;
  count = count;
  kind_sample = sample;
}

unfoldable pub take_snapshot : ℕ → Submissions → List InvalidContextEntry × Submissions
take_snapshot now s =
    let sampled = map (λ c. entry_of now s c.1 (some c.0)) s.counts in
    (
      if ltb 0 s.count_beyond then sampled ++ entry_of now s s.count_beyond none ∷ [] else sampled,
      empty,
    )

-- The calls of the two methods that add to the submissions.
pub data Call : Type 0 where
  recorded : ℕ → Text → Call
  absorbed : List InvalidContextEntry → Call

unfoldable pub run : List Call → Submissions → Submissions
run [] s = s
run (recorded now sample ∷ calls) s = run calls (record_sample now sample s).0
run (absorbed entries ∷ calls) s = run calls (absorb entries s)
