-- ===== src/Client/CachedStore.antt =====
-- `CachedValuesStore` of packages/js-client-core/src/cached-values.ts
pub mod Queueing
pub mod Settling
use js_sdks.Common.{
  ℕ, Bool, true, false, Option, none, some, List, [], ◌∷◌, ◌++◌, Text, if◌then◌else◌, ltb,
  or_option,
}
use js_sdks.Telemetry.Utf8.{utf8_byte_length}
use js_sdks.Client.CachedValues.{CachedValues}
use js_sdks.Client.CachedEntry.{
  Json, CachedValuesRead, stored, nothing_stored, first_format, unreadable, failed, parse_entry,
}

pub data Warning : Type 0 where
  read_failed unreadable_entry over_the_size_limit write_failed remove_failed : Warning

unfoldable pub warning_eq : Warning → Warning → Bool
warning_eq read_failed read_failed = true
warning_eq unreadable_entry unreadable_entry = true
warning_eq over_the_size_limit over_the_size_limit = true
warning_eq write_failed write_failed = true
warning_eq remove_failed remove_failed = true
warning_eq w v = false

unfoldable pub has_warned : List Warning → Warning → Bool
unfolding warning_eq
has_warned [] w = false
has_warned (v ∷ vs) w = if warning_eq v w then true else has_warned vs w

-- How far `readEntry` has come: it waits for `provider.read`, or for the removal of an entry that cannot
-- be used.
pub data ReadPhase (F : Type 0) : Type 0 where
  unread reading : ReadPhase F
  removing : CachedValuesRead F → ReadPhase F
  settled : CachedValuesRead F → ReadPhase F

-- The fields of the store with the text that the device keeps. `writing` holds the values that
-- `writeEntry` is working on while the flag of that name is set, and `pending_read` is the promise.
pub record Store (F C : Type 0) : Type 0 where
  pub queued : Option (CachedValues C)
  pub writing : Option (CachedValues C)
  pub warned : List Warning
  pub pending_read : ReadPhase F
  pub device : Option Text

-- What `provider.read` comes to.
pub data RawRead : Type 0 where
  throws_error : RawRead
  raw : Option Text → RawRead

-- `read` and `replace` are called; the call of the provider that `writeQueued` waits for, the one of
-- `read`, and that of `remove` in `readEntry` end.
pub data StoreStep (C : Type 0) : Type 0 where
  reads : StoreStep C
  replaces : CachedValues C → StoreStep C
  finishes : Bool → StoreStep C
  read_returns : RawRead → StoreStep C
  removes : Bool → StoreStep C

module _ {F C : Type 0} where
  unfoldable pub warn_once : Warning → Store F C → Store F C
  unfolding has_warned
  warn_once warning s =
      if has_warned s.warned warning then s else record s { warned = s.warned ++ warning ∷ [] }

  -- `removeEntry`, whose call of the provider succeeds or throws.
  unfoldable pub remove_entry : Bool → Store F C → Store F C
  unfolding warn_once
  remove_entry succeeds s =
      if succeeds then record s { device = none } else warn_once remove_failed s

  -- `writeQueued` takes the next values, or ends.
  abbrev pub take_queued : Store F C → Store F C
  take_queued s = record s { writing = s.queued; queued = none }

  abbrev pub start_writing : Option (CachedValues C) → Store F C → Store F C
  start_writing none s = take_queued s
  start_writing (some values) s = s

  unfoldable pub replace : CachedValues C → Store F C → Store F C
  replace values s = start_writing s.writing (record s { queued = some values })

  -- `read`, which starts `readEntry` once.
  unfoldable pub read : ReadPhase F → Store F C → Store F C
  read unread s = record s { pending_read = reading }
  read phase s = s

  abbrev pub settle : CachedValuesRead F → Store F C → Store F C
  settle outcome s = record s { pending_read = settled outcome }

  -- `readEntry` after an entry has been parsed.
  unfoldable pub entry_parsed : CachedValuesRead F → Store F C → Store F C
  unfolding warn_once
  entry_parsed first_format s = record s { pending_read = removing first_format }
  entry_parsed unreadable s = record (warn_once unreadable_entry s) {
    pending_read = removing unreadable;
  }
  entry_parsed outcome s = settle outcome s

  -- The end of `readEntry`, when its removal has succeeded or thrown.
  unfoldable pub removed : Bool → ReadPhase F → Store F C → Store F C
  unfolding remove_entry
  removed succeeds (removing outcome) s = settle outcome (remove_entry succeeds s)
  removed succeeds phase s = s

-- `digest` is that of the client SDK key.
module _ {F C : Type 0} (json : Json F) (digest : Text) where
  unfoldable pub entry_read : RawRead → Store F C → Store F C
  unfolding warn_once entry_parsed
  entry_read throws_error s = settle failed (warn_once read_failed s)
  entry_read (raw none) s = settle nothing_stored s
  entry_read (raw (some [])) s = settle nothing_stored s
  entry_read (raw (some (c ∷ text))) s = entry_parsed (parse_entry json (c ∷ text) digest) s

  -- `readEntry` after `provider.read`.
  unfoldable pub read_returned : RawRead → ReadPhase F → Store F C → Store F C
  unfolding entry_read
  read_returned result reading s = entry_read result s
  read_returned result phase s = s

-- `serialize` is `JSON.stringify` of the entry of the values, `limit` the provider's size limit.
module _ {C : Type 0} (serialize : CachedValues C → Text) (limit : ℕ) where
  -- What the device keeps of the values once they are written.
  unfoldable pub form_of : CachedValues C → Option Text
  form_of values =
      if ltb limit (utf8_byte_length (serialize values)) then none else some (serialize values)

module _ {F C : Type 0} (serialize : CachedValues C → Text) (limit : ℕ) where
  -- `writeEntry`, whose call of the provider succeeds or throws.
  unfoldable pub write_entry : Bool → CachedValues C → Store F C → Store F C
  unfolding remove_entry warn_once
  write_entry succeeds values s =
      if ltb limit (utf8_byte_length (serialize values))
      then remove_entry succeeds (warn_once over_the_size_limit s)
      else if succeeds
      then record s { device = some (serialize values) }
      else warn_once write_failed s

  abbrev pub finish_writing : Bool → Option (CachedValues C) → Store F C → Store F C
  finish_writing succeeds none s = s
  finish_writing succeeds (some values) s = take_queued (write_entry succeeds values s)

  -- The end of the call of the provider that `writeQueued` waits for, and its next pass.
  unfoldable pub finish : Bool → Store F C → Store F C
  unfolding write_entry
  finish succeeds s = finish_writing succeeds s.writing s

module _ {F C : Type 0} (json : Json F) (digest : Text) (serialize : CachedValues C → Text)
    (limit : ℕ) where
  unfoldable pub step : StoreStep C → Store F C → Store F C
  unfolding read replace finish read_returned removed
  step reads s = read s.pending_read s
  step (replaces values) s = replace values s
  step (finishes succeeds) s = finish serialize limit succeeds s
  step (read_returns result) s = read_returned json digest result s.pending_read s
  step (removes succeeds) s = removed succeeds s.pending_read s

  unfoldable pub run : List (StoreStep C) → Store F C → Store F C
  unfolding step
  run [] s = s
  run (x ∷ steps) s = run steps (step x s)
