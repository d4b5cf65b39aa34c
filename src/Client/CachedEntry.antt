-- ===== src/Client/CachedEntry.antt =====
-- The entry of the device: `parseEntry` of packages/js-client-core/src/cached-values.ts
use js_sdks.Common.{
  ℕ, ◌≡◌, refl, Bool, true, false, Option, none, some, Text, codes, text_eq, text_eq_refl,
  if◌then◌else◌, ◌&&◌, ◌||◌, not,
}
use js_sdks.Evaluator.Value.{Value, Fields, num, str, arr, obj, end, field}
use js_sdks.Client.CachedValues.{ContextTag, context_id, anonymous_instance_id, CachedValues}

-- `JSON` with the numbers of JavaScript; a text that `JSON.parse` throws on is `none`.
pub record Json (F : Type 0) : Type 0 where
  pub parse : Text → Option (Value F)
  pub stringify : Value F → Text
  pub num_eq : F → F → Bool
  pub number_of : ℕ → F

-- `CachedValuesRead`.
pub data CachedValuesRead (F : Type 0) : Type 0 where
  stored : Value F → CachedValuesRead F
  nothing_stored first_format unreadable failed : CachedValuesRead F

module _ {F : Type 0} where
  -- `object[name]` of an object of JSON, which has each name once.
  unfoldable pub property : Text → Fields F → Option (Value F)
  property name end = none
  property name (field key v rest) =
      let other = property name rest in if text_eq name key then some v else other

  -- `candidate[name]` of a value whose type is object; an array has none of the names asked for.
  abbrev pub read : Text → Value F → Option (Value F)
  read name (obj fs) = property name fs
  read name v = none

  -- `candidate && typeof candidate === "object"`.
  unfoldable pub is_object : Value F → Bool
  is_object (obj fs) = true
  is_object (arr vs) = true
  is_object v = false

  abbrev pub is_string : Option (Value F) → Bool
  is_string (some (str s)) = true
  is_string v = false

  abbrev pub is_number : Option (Value F) → Bool
  is_number (some (num n)) = true
  is_number v = false

  abbrev pub equals_text : Text → Option (Value F) → Bool
  equals_text s (some (str t)) = text_eq t s
  equals_text s v = false

  abbrev pub is_context_tag : Option (Value F) → Bool
  is_context_tag none = false
  is_context_tag (some v) =
      if not (is_object v)
      then false
      else if not (is_string (read (codes "contextKind") v))
      then false
      else is_string (read (codes "contextId") v)
        || is_string (read (codes "anonymousInstanceId") v)

  unfoldable pub is_config : Value F → Bool
  unfolding is_object
  is_config v = is_object v && is_string (read (codes "id") v) && is_string (read (codes "key") v)

  unfoldable pub every_config : Fields F → Bool
  unfolding is_config
  every_config end = true
  every_config (field key v rest) = is_config v && every_config rest

  abbrev pub is_config_state_map : Option (Value F) → Bool
  is_config_state_map (some (obj fs)) = every_config fs
  is_config_state_map v = false

module _ {F : Type 0} (json : Json F) where
  abbrev pub equals_number : F → Option (Value F) → Bool
  equals_number n (some (num m)) = json.num_eq m n
  equals_number n v = false

  unfoldable pub is_entry_for : Text → Value F → Bool
  unfolding is_object
  is_entry_for digest v =
      if not (is_object v)
      then false
      else equals_number (json.number_of 2) (read (codes "formatVersion") v)
        && equals_text digest (read (codes "clientSdkKeyDigest") v)
        && is_context_tag (read (codes "contextTag") v)
        && is_string (read (codes "environmentId") v)
        && is_string (read (codes "projectId") v)
        && is_config_state_map (read (codes "configs") v)
        && is_number (read (codes "receivedAt") v)

  unfoldable pub has_first_format_version : Value F → Bool
  unfolding is_object
  has_first_format_version v =
      is_object v && equals_number (json.number_of 1) (read (codes "formatVersion") v)

  abbrev pub outcome_of : Text → Option (Value F) → CachedValuesRead F
  outcome_of digest none = unreadable
  outcome_of digest (some v) =
      if is_entry_for digest v
      then stored v
      else if has_first_format_version v
      then first_format
      else unreadable

  unfoldable pub parse_entry : Text → Text → CachedValuesRead F
  unfolding is_entry_for has_first_format_version
  parse_entry raw digest = outcome_of digest (json.parse raw)

  abbrev pub tag_value : ContextTag → Value F
  tag_value (context_id kind id) =
      obj (field (codes "contextKind") (str kind) (field (codes "contextId") (str id) end))
  tag_value (anonymous_instance_id kind id) =
      obj
        (field (codes "contextKind") (str kind) (field (codes "anonymousInstanceId") (str id) end))

  -- The entry that `writeEntry` makes.
  unfoldable pub entry_of : Text → CachedValues (Fields F) → Value F
  entry_of digest values = obj (
      field (codes "formatVersion") (num (json.number_of 2)) (
        field (codes "clientSdkKeyDigest") (str digest) (
          field (codes "contextTag") (tag_value values.context_tag) (
            field (codes "environmentId") (str values.environment_id) (
              field (codes "projectId") (str values.project_id) (
                field (codes "configs") (obj values.configs)
                  (field (codes "receivedAt") (num (json.number_of values.received_at)) end)))))))

  is_context_tag-tag_value : (tag : ContextTag) → is_context_tag (some (tag_value tag)) ≡ true
  unfolding is_object property text_eq
  is_context_tag-tag_value (context_id kind id) = refl
  is_context_tag-tag_value (anonymous_instance_id kind id) = refl

  -- An entry that is written is read back as it was, by a client with the same digest of its key, when
  -- each config is an object with an id and a key and
  -- `JSON.parse` reads the text of the entry as the entry.
  pub parse_entry-entry_of :
      (digest : Text) (values : CachedValues (Fields F))
      → json.parse (json.stringify (entry_of digest values)) ≡ some (entry_of digest values)
      → json.num_eq (json.number_of 2) (json.number_of 2) ≡ true
      → every_config values.configs ≡ true
      → parse_entry (json.stringify (entry_of digest values)) digest
        ≡ stored (entry_of digest values)
  unfolding parse_entry entry_of property text_eq
  parse_entry-entry_of digest values law same_version h =
      rw (law, same_version, text_eq_refl digest, is_context_tag-tag_value values.context_tag, h)
        refl
