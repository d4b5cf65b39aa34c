-- ===== src/Client/Watchers.antt =====
-- The handlers of `watch`: `handlersMap` of packages/js-client-core/src/DefaultConfigDirectorClient.ts
-- The arrays of the map stand in a store, since a loop over one goes on while the map changes.
use js_sdks.Common.{
  ℕ, zero, suc, Option, none, some, List, [], ◌∷◌, ◌++◌, Text, Entries, lookup, assign, length,
  or_else, get_elem?, if◌then◌else◌, ◌==◌,
}

-- A handler is known by its identity.
pub record Watcher (D : Type 0) : Type 0 where
  pub handler : ℕ
  pub default_value : D

pub record Watchers (D : Type 0) : Type 0 where
  pub arrays : List (List (Watcher D))
  pub by_key : Entries ℕ

module _ {ℓ} {A : Type ℓ} where
  -- `list[i] = a`, in range.
  unfoldable pub set_elem : ℕ → A → List A → List A
  set_elem i a [] = []
  set_elem zero a (x ∷ xs) = a ∷ xs
  set_elem (suc i) a (x ∷ xs) = x ∷ set_elem i a xs

module _ {D : Type 0} where
  abbrev pub no_watchers : Watchers D
  no_watchers = record { arrays = []; by_key = [] }

  unfoldable pub array_at : ℕ → Watchers D → List (Watcher D)
  array_at array w = or_else (get_elem? w.arrays array) []

  abbrev pub set_array : ℕ → List (Watcher D) → Watchers D → Watchers D
  set_array array hs w = record w { arrays = set_elem array hs w.arrays }

  -- An array that a handler is pushed on, or a new one.
  abbrev pub add_watcher : Text → Watcher D → Watchers D → Option ℕ → Watchers D
  add_watcher key h w none = record {
    arrays = w.arrays ++ (h ∷ []) ∷ [];
    by_key = assign key (length w.arrays) w.by_key;
  }
  add_watcher key h w (some array) = set_array array (array_at array w ++ h ∷ []) w

  unfoldable pub watch : Text → D → ℕ → Watchers D → Watchers D
  watch key default callback w =
      add_watcher key (record { handler = callback; default_value = default }) w
        (lookup key w.by_key)

  -- `findIndex` and `splice`: the first entry of the callback goes.
  unfoldable pub remove_first : ℕ → List (Watcher D) → List (Watcher D)
  remove_first callback [] = []
  remove_first callback (h ∷ hs) =
      let rest = remove_first callback hs in if h.handler == callback then hs else h ∷ rest

  abbrev pub remaining : Option ℕ → List (Watcher D) → List (Watcher D)
  remaining none hs = []
  remaining (some callback) hs = remove_first callback hs

  abbrev pub unwatch_array : Option ℕ → Watchers D → Option ℕ → Watchers D
  unwatch_array callback w none = w
  unwatch_array callback w (some array) = set_array array (remaining callback (array_at array w)) w

  unfoldable pub unwatch : Text → Option ℕ → Watchers D → Watchers D
  unfolding array_at remove_first
  unwatch key callback w = unwatch_array callback w (lookup key w.by_key)

  unfoldable pub unwatch_all : Watchers D → Watchers D
  unwatch_all w = record w { by_key = [] }
