-- ===== src/Telemetry/TrackedEvents.antt =====
-- packages/shared/src/telemetry/TrackedEventQueue.ts and the warnings of tracked-events.ts
pub mod Batch
use js_sdks.Common.{ℕ, Bool, true, false, not, List, [], ◌∷◌, ◌++◌, length, leb, any, if◌then◌else◌}

pub data Warning : Type 0 where
  name_outside_the_character_limit : Warning
  value_not_a_finite_number : Warning
  details_not_reportable : Warning
  batch_already_full : Warning

-- `E` is the type of the entries.
pub data Admission (E : Type 0) : Type 0 where
  admitted : E → List Warning → Admission E
  dropped : List Warning → Admission E

-- The fields of `TrackedEventQueue`; `raised` is `warningsRaisedThisBatch`.
pub record TrackedEventQueue (E : Type 0) : Type 0 where
  pub entries : List E
  pub raised : List Warning

abbrev pub events_per_batch : ℕ
events_per_batch = 1000

unfoldable pub warning_eq : Warning → Warning → Bool
warning_eq name_outside_the_character_limit name_outside_the_character_limit = true
warning_eq value_not_a_finite_number value_not_a_finite_number = true
warning_eq details_not_reportable details_not_reportable = true
warning_eq batch_already_full batch_already_full = true
warning_eq _ _ = false

-- `has` of a set of warnings.
abbrev pub has : List Warning → Warning → Bool
has ws w = any (λ v. warning_eq v w) ws

-- The warnings that `isFirstThisBatch` keeps, and the set of those raised afterwards.
unfoldable pub keep_first : List Warning → List Warning → List Warning × List Warning
keep_first raised [] = ([], raised)
keep_first raised (w ∷ ws) =
    let known = keep_first raised ws in
    let new = keep_first (w ∷ raised) ws in if has raised w then known else (w ∷ new.0, new.1)

module _ {E : Type 0} where
  unfoldable pub clear : TrackedEventQueue E → TrackedEventQueue E
  clear q = record { entries = []; raised = [] }

  unfoldable pub absorb : TrackedEventQueue E → List E → TrackedEventQueue E
  absorb q es = record q { entries = q.entries ++ es }

  unfoldable pub take_batch : TrackedEventQueue E → List E × TrackedEventQueue E
  unfolding clear
  take_batch q = (q.entries, clear q)

  unfoldable pub warnings_of_keeping :
      TrackedEventQueue E → Admission E → TrackedEventQueue E × List Warning
  warnings_of_keeping q (dropped ws) = (q, ws)
  warnings_of_keeping q (admitted e ws) =
      if leb events_per_batch (length q.entries)
      then (q, batch_already_full ∷ [])
      else (record q { entries = q.entries ++ e ∷ [] }, ws)

  unfoldable pub add : TrackedEventQueue E → Admission E → TrackedEventQueue E × List Warning
  unfolding warnings_of_keeping
  add q admission =
      let (kept, warnings) = warnings_of_keeping q admission in
      let (first, raised) = keep_first q.raised warnings in (record kept { raised = raised }, first)

  -- The queue after a sequence of admissions, and the warnings that are logged.
  unfoldable pub add_all :
      TrackedEventQueue E → List (Admission E) → TrackedEventQueue E × List Warning
  add_all q [] = (q, [])
  add_all q (admission ∷ admissions) =
      let (added, first) = add q admission in
      let (final, later) = add_all added admissions in (final, first ++ later)
