-- ===== src/Telemetry/Aggregation/Counts.antt =====
-- How often each event is counted.
use js_sdks.Common.{
  ℕ, suc, ◌+◌, ◌≡◌, refl, sym, ◌∙◌, true, List, [], ◌∷◌, map, Text, text_eq, text_eq_iff,
  if◌then◌else◌, arith, Bool-cases, inl, inr, All,
}
use js_sdks.Telemetry.EventQueue.{Snapshot}
use js_sdks.Telemetry.Aggregation.{
  Entry, AggregatedEvent, count_event, count_events, aggregated, aggregate,
}

module _ {E : Type 0} (serialize : E → Text) where
  -- How many of the events are written as this text.
  pub occurrences : Text → List E → ℕ
  occurrences key [] = 0
  occurrences key (event ∷ events) =
      if text_eq (serialize event) key then suc (occurrences key events) else occurrences key events

  -- The counts of the entries for this text.
  pub counted : Text → List (Entry E) → ℕ
  counted key [] = 0
  counted key (e ∷ es) =
      if text_eq e.serialized key then e.count + counted key es else counted key es

  -- The counts of the aggregated events that are written as this text.
  pub reported : Text → List (AggregatedEvent E) → ℕ
  reported key [] = 0
  reported key (a ∷ events) =
      if text_eq (serialize a.event) key then a.count + reported key events else reported key events

  -- Each entry holds an event that its text is made of.
  abbrev IsMade : Entry E → Type 0
  IsMade e = serialize e.event ≡ e.serialized

  text_eq-≡ : (s t : Text) → text_eq s t ≡ true → s ≡ t
  text_eq-≡ s t h = (text_eq_iff s t).0 h

  count_event-counted :
      (key : Text) (event : E) (es : List (Entry E))
      → counted key (count_event serialize event es)
        ≡ (if text_eq (serialize event) key then suc (counted key es) else counted key es)
  unfolding counted count_event
  count_event-counted key event [] = ground arith
  count_event-counted key event (e ∷ es) =
      elim (Bool-cases (text_eq e.serialized (serialize event))) [
        | inl same ↦ rw same (rw (text_eq-≡ e.serialized (serialize event) same) (ground arith))
        | inr other ↦ rw other (ground (arith, count_event-counted key event es))
      ]

  count_events-counted :
      (key : Text) (events : List E) (es : List (Entry E))
      → counted key (count_events serialize events es) ≡ counted key es + occurrences key events
  unfolding count_events occurrences
  count_events-counted key [] es = omega arith
  count_events-counted key (event ∷ events) es =
      count_events-counted key events (count_event serialize event es)
      ∙ ground (arith, count_event-counted key event es)

  count_event-IsMade :
      (event : E) (es : List (Entry E))
      → All IsMade es
      → All IsMade (count_event serialize event es)
  unfolding count_event
  count_event-IsMade event [] h = (refl, tt)
  count_event-IsMade event (e ∷ es) (h, hs) =
      elim (Bool-cases (text_eq e.serialized (serialize event))) [
        | inl same ↦ rw same (sym (text_eq-≡ e.serialized (serialize event) same), hs)
        | inr other ↦ rw other (h, count_event-IsMade event es hs)
      ]

  count_events-IsMade :
      (events : List E) (es : List (Entry E))
      → All IsMade es
      → All IsMade (count_events serialize events es)
  unfolding count_events
  count_events-IsMade [] es h = h
  count_events-IsMade (event ∷ events) es h =
      count_events-IsMade events (count_event serialize event es) (count_event-IsMade event es h)

  reported-counted :
      (key : Text) (snapshot : Snapshot E) (es : List (Entry E))
      → All IsMade es
      → reported key (map (aggregated serialize snapshot) es) ≡ counted key es
  unfolding reported counted
  reported-counted key snapshot [] h = refl
  reported-counted key snapshot (e ∷ es) (h, hs) = rw (h, reported-counted key snapshot es hs) refl

  -- The aggregated events of a snapshot report, for each text that an event is written as, as many
  -- events as the snapshot holds that are written so.
  pub reported-aggregate :
      (key : Text) (snapshot : Snapshot E)
      → reported key (aggregate serialize snapshot) ≡ occurrences key snapshot.events
  unfolding aggregate
  reported-aggregate key snapshot =
      reported-counted key snapshot (count_events serialize snapshot.events [])
        (count_events-IsMade snapshot.events [] tt)
      ∙ count_events-counted key snapshot.events []
      ∙ unfold counted in omega arith
