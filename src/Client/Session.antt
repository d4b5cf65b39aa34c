-- ===== src/Client/Session.antt =====
-- The instance id of a client: packages/js-client-core/src/client-session.ts
pub mod Checksum
pub mod Remembering
pub mod Relaunch
use js_sdks.Common.{
  ℕ, zero, suc, ◌+◌, ◌*◌, ◌%◌, Bool, true, false, not, ◌&&◌, ◌||◌, Option, none, some, List, [],
  ◌∷◌, ◌++◌, Text, codes, text_eq, leb, ◌==◌, is_digit, if◌then◌else◌, pad_start, ℤ, pos, xor, imul,
  unsigned, hex_of_int,
}
use js_sdks.Evaluator.Value.{Value, num, str, obj, end, field}
use js_sdks.Client.CachedEntry.{Json, is_object, is_string, read, equals_number, property}

-- The loop of `fnv1a` over the units of a text.
unfoldable pub mix : Text → ℤ → ℤ
mix [] hash = hash
mix (c ∷ input) hash = mix input (imul (xor hash (pos c)) (pos 0x01000193))

unfoldable pub fnv1a : Text → ℤ → ℤ
unfolding mix
fnv1a input offset_basis = unsigned (mix input offset_basis)

-- `n.toString(16).padStart(8, "0")`.
abbrev pub hex_word : ℤ → Text
hex_word n = pad_start 8 b'0' (hex_of_int n)

-- `decimal` is the decimal form that a template gives a whole number.
module _ (decimal : ℤ → Text) where
  unfoldable pub checksum_for : Text → ℕ → Text
  unfolding fnv1a
  checksum_for id created_at =
      let payload =
        codes "configdirector.instanceId.v1|" ++ id ++ codes "|" ++ decimal (pos created_at) in
      let low = fnv1a payload (pos 0x811c9dc5) in
      let high = fnv1a (decimal low ++ codes "|" ++ payload) (pos 0x01000193) in
      hex_word high ++ hex_word low

-- What a character of the pattern of ids may be.
pub data Class : Type 0 where
  hex dash version_digit variant_digit : Class

abbrev pub fits : Class → ℕ → Bool
fits hex c = is_digit c || (leb b'a' c && leb c b'f')
fits dash c = c == b'-'
fits version_digit c = c == b'4'
fits variant_digit c = (c == b'8') || (c == b'9') || (c == b'a') || (c == b'b')

abbrev pub uuid_pattern : List Class
uuid_pattern =
    hex ∷ hex ∷ hex ∷ hex ∷ hex ∷ hex ∷ hex ∷ hex ∷ dash ∷ hex ∷ hex ∷ hex ∷ hex ∷ dash
    ∷ version_digit ∷ hex ∷ hex ∷ hex ∷ dash ∷ variant_digit ∷ hex ∷ hex ∷ hex ∷ dash ∷ hex ∷ hex
    ∷ hex ∷ hex ∷ hex ∷ hex ∷ hex ∷ hex ∷ hex ∷ hex ∷ hex ∷ hex ∷ []

unfoldable pub matches : List Class → Text → Bool
matches [] [] = true
matches [] (c ∷ s) = false
matches (class ∷ classes) [] = false
matches (class ∷ classes) (c ∷ s) = fits class c && matches classes s

-- `UUID_V4_PATTERN.test(id)`.
unfoldable pub is_uuid : Text → Bool
unfolding matches
is_uuid id = matches uuid_pattern id

pub record ClientSession : Type 0 where
  pub instance_id : Text
  pub ephemeral : Bool

pub data StorageRead : Type 0 where
  stored : Text → StorageRead
  nothing_usable failed : StorageRead

-- What `getItem` comes to: it throws, or gives a text, or another value.
pub data Item : Type 0 where
  throws_error : Item
  item : Option Text → Item

-- `JSON`, and the whole numbers among the numbers of JavaScript; `created_at` of a number is the whole
-- number that it is, if it is one.
pub record Numbers (F : Type 0) : Type 0 where
  pub json : Json F
  pub whole : F → Option ℕ
  pub decimal : ℤ → Text

-- The session of a launch while it is resolved: how far `settleFromStorage` has come, which waits for
-- `getItem`, or for `setItem` of a record made at a time, or has ended; whether the deadline has
-- passed; what won the race of `resolveClientSession`; and the item of the storage.
pub data Phase : Type 0 where
  reading ended : Phase
  writing_at : ℕ → Phase

pub record Launch : Type 0 where
  pub provisional_id : Text
  pub phase : Phase
  pub passed : Bool
  pub session : Option ClientSession
  pub storage : Item

abbrev pub first_of : Option ClientSession → ClientSession → ClientSession
first_of none s = s
first_of (some first) s = first

-- `settleFromStorage` ends with a session, which counts if nothing won the race before.
abbrev pub settle : ClientSession → Launch → Launch
settle s l = record l { phase = ended; session = some (first_of l.session s) }

abbrev pub ephemeral_of : Launch → ClientSession
ephemeral_of l = record { instance_id = l.provisional_id; ephemeral = true }

-- `getItem` ends, at a time; `setItem` succeeds or throws; the timer of the deadline fires.
pub data LaunchStep : Type 0 where
  read_ends : ℕ → LaunchStep
  write_ends : Bool → LaunchStep
  deadline_passes : LaunchStep

-- The timer, which is cleared when the race has been won.
unfoldable pub deadline_passed : Option ClientSession → Launch → Launch
deadline_passed none l = record l { passed = true; session = some (ephemeral_of l) }
deadline_passed (some first) l = l

-- `resolveClientSession` with a new id, and what the storage holds, if there is one.
unfoldable pub resolve_client_session : Text → Option Item → Launch
resolve_client_session provisional none = record {
  provisional_id = provisional;
  phase = ended;
  passed = false;
  session = some (record { instance_id = provisional; ephemeral = true });
  storage = item none;
}
resolve_client_session provisional (some held) = record {
  provisional_id = provisional;
  phase = reading;
  passed = false;
  session = none;
  storage = held;
}

module _ {F : Type 0} (env : Numbers F) where
  -- `createdAt` is an integer above zero.
  abbrev pub creation_time : Option (Value F) → Option ℕ
  creation_time (some (num n)) = env.whole n
  creation_time v = none

  abbrev pub text_of : Option (Value F) → Option Text
  text_of (some (str s)) = some s
  text_of v = none

  abbrev pub is_consistent : Option Text → Option ℕ → Option Text → Bool
  is_consistent (some id) (some (suc n)) (some checksum) =
      if not (is_uuid id) then false else text_eq checksum (checksum_for env.decimal id (suc n))
  is_consistent id created_at checksum = false

  unfoldable pub is_usable_record : Value F → Bool
  unfolding is_uuid checksum_for is_object
  is_usable_record v =
      if not (is_object v)
      then false
      else if not (equals_number env.json (env.json.number_of 1) (read (codes "v") v))
      then false
      else is_consistent (text_of (read (codes "id") v))
          (creation_time (read (codes "createdAt") v)) (text_of (read (codes "checksum") v))

  abbrev pub stored_or_nothing : Bool → Option Text → StorageRead
  stored_or_nothing true (some id) = stored id
  stored_or_nothing usable id = nothing_usable

  abbrev pub read_record : Option (Value F) → StorageRead
  read_record none = nothing_usable
  read_record (some v) = stored_or_nothing (is_usable_record v) (text_of (read (codes "id") v))

  unfoldable pub read_stored_instance_id : Item → StorageRead
  unfolding is_usable_record
  read_stored_instance_id throws_error = failed
  read_stored_instance_id (item none) = nothing_usable
  read_stored_instance_id (item (some [])) = nothing_usable
  read_stored_instance_id (item (some (c ∷ raw))) = read_record (env.json.parse (c ∷ raw))

  -- The record that `persistInstanceId` writes.
  unfoldable pub record_of : Text → ℕ → Value F
  unfolding checksum_for
  record_of id created_at = obj (
      field (codes "v") (num (env.json.number_of 1)) (
        field (codes "id") (str id) (
          field (codes "createdAt") (num (env.json.number_of created_at))
            (field (codes "checksum") (str (checksum_for env.decimal id created_at)) end))))

  -- `persistInstanceId`: the item of the storage afterwards, if `setItem` did not throw.
  unfoldable pub persist_instance_id : Bool → Text → ℕ → Option Text
  unfolding record_of
  persist_instance_id succeeds id created_at =
      if succeeds then some (env.json.stringify (record_of id created_at)) else none

  abbrev pub settle_read : StorageRead → ℕ → Launch → Launch
  settle_read (stored id) now l = settle (record { instance_id = id; ephemeral = false }) l
  settle_read failed now l = settle (ephemeral_of l) l
  settle_read nothing_usable now l =
      if l.passed then settle (ephemeral_of l) l else record l { phase = writing_at now }

  abbrev pub settle_written : Option Text → Launch → Launch
  settle_written none l = settle (ephemeral_of l) l
  settle_written (some text) l =
      settle (record { instance_id = l.provisional_id; ephemeral = false })
        (record l { storage = item (some text) })

  unfoldable pub read_ended : ℕ → Phase → Launch → Launch
  unfolding read_stored_instance_id
  read_ended now reading l = settle_read (read_stored_instance_id l.storage) now l
  read_ended now phase l = l

  unfoldable pub write_ended : Bool → Phase → Launch → Launch
  unfolding persist_instance_id
  write_ended succeeds (writing_at created_at) l =
      settle_written (persist_instance_id succeeds l.provisional_id created_at) l
  write_ended succeeds phase l = l

  unfoldable pub step : LaunchStep → Launch → Launch
  unfolding read_ended write_ended deadline_passed
  step (read_ends now) l = read_ended now l.phase l
  step (write_ends succeeds) l = write_ended succeeds l.phase l
  step deadline_passes l = deadline_passed l.session l

  unfoldable pub run : List LaunchStep → Launch → Launch
  unfolding step
  run [] l = l
  run (x ∷ steps) l = run steps (step x l)
