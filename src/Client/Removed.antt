-- ===== src/Client/Removed.antt =====
-- The keys that a received set removes.
use js_sdks.Common.{
  ◌≡◌, refl, ◌↔◌, true, not, ◌&&◌, Option, none, some, List, [], ◌∷◌, Text, Entries, Distinct, keys,
  has_own, includes, is_some, lookup-spread, has_own-lookup, text_eq_iff, arith,
}
use js_sdks.ConfigValue.{ConfigState}
use js_sdks.Client.Types.{ConfigSet, SetKind, full, delta}
use js_sdks.Client.State.{config_state}
use js_sdks.Client.Handling.{
  keys_missing_in, removed_by, find_keys_removed_by, merged_into, merge_config_set,
}

includes-keys_missing_in :
    (entries : Entries ConfigState) (ks : List Text) (key : Text)
    → includes (keys_missing_in entries ks) key ≡ (includes ks key && not (has_own key entries))
unfolding keys_missing_in includes
includes-keys_missing_in entries [] key = refl
includes-keys_missing_in entries (k ∷ ks) key =
    ground (arith, includes-keys_missing_in entries ks key, text_eq_iff k key)

removed_by_iff :
    (kind : SetKind) (set : ConfigSet) (old : Option ConfigSet) (key : Text)
    → Distinct (keys set.configs)
    → (includes (removed_by kind set.configs old) key ≡ true) ↔ (
        is_some (config_state old key) ≡ true
        × config_state (some (merged_into kind set old)) key ≡ none)
unfolding includes has_own
removed_by_iff full set none key d = ground arith
removed_by_iff delta set none key d = ground arith
removed_by_iff delta set (some old) key d =
    ground (arith, lookup-spread key old.configs set.configs d)
removed_by_iff full set (some old) key d = ground (
  arith,
  includes-keys_missing_in set.configs (keys old.configs) key,
  has_own-lookup key set.configs,
  has_own-lookup key old.configs,
)

-- The keys that `configsUpdated` reports as removed are those that had an entry before the set was
-- received and have none after it, for a full set or a delta without a key twice, and on the first set.
pub find_keys_removed_by_iff :
    (old : Option ConfigSet) (set : ConfigSet) (key : Text)
    → Distinct (keys set.configs)
    → (includes (find_keys_removed_by old set) key ≡ true) ↔ (
        is_some (config_state old key) ≡ true
        × config_state (some (merge_config_set old set)) key ≡ none)
unfolding find_keys_removed_by merge_config_set
find_keys_removed_by_iff old set key d = removed_by_iff set.kind set old key d
