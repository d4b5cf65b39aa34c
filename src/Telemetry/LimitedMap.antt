-- ===== src/Telemetry/LimitedMap.antt =====
-- packages/shared/src/LimitedMap.ts
pub mod Set
use js_sdks.Common.{
  ℕ, suc, ◌+◌, Bool, true, false, Option, none, some, List, [], ◌∷◌, ◌++◌, length, ltb,
  if◌then◌else◌,
}

-- A `LimitedMap`: its entries in the order of insertion.
pub record LimitedMap (K V : Type 0) : Type 0 where
  pub limit : ℕ
  pub entries : List (K × V)
  pub dropped_count : ℕ

module _ {K V : Type 0} where
  -- The loop of `enforceLimit`: the oldest entry is deleted and counted. No key is undefined.
  unfoldable pub enforce_from : ℕ → List (K × V) → ℕ → List (K × V) × ℕ
  enforce_from limit [] dropped = ([], dropped)
  enforce_from limit (e ∷ es) dropped =
      let rest = enforce_from limit es (suc dropped) in
      if ltb limit (length (e ∷ es)) then rest else (e ∷ es, dropped)

  unfoldable pub enforce_limit : LimitedMap K V → LimitedMap K V
  unfolding enforce_from
  enforce_limit m =
      let (entries, dropped) = enforce_from m.limit m.entries m.dropped_count in
      record m { entries = entries; dropped_count = dropped }

  unfoldable pub clear_and_reset : LimitedMap K V → LimitedMap K V
  clear_and_reset m = record m { entries = []; dropped_count = 0 }

-- `key_eq` is the equality of keys of a `Map`.
module _ {K V : Type 0} (key_eq : K → K → Bool) where
  unfoldable pub get : K → List (K × V) → Option V
  get key [] = none
  get key ((k, v) ∷ es) = if key_eq k key then some v else get key es

  -- `Map.prototype.set`: a known key keeps its place, a new one comes last.
  unfoldable pub set_entry : K → V → List (K × V) → List (K × V)
  set_entry key value [] = (key, value) ∷ []
  set_entry key value ((k, v) ∷ es) =
      if key_eq k key then (k, value) ∷ es else (k, v) ∷ set_entry key value es

  unfoldable pub set : K → V → LimitedMap K V → LimitedMap K V
  unfolding enforce_limit set_entry
  set key value m = enforce_limit (record m { entries = set_entry key value m.entries })
