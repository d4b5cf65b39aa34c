-- ===== src/Common/Maps.antt =====
-- Objects with text keys and `Map`s as association lists. Only own properties are read; the order
-- of keys that are array indices is not kept apart.
use mathlib.Core.Path.{◌≡◌, refl}
use mathlib.Core.Logic.{inl, inr}
use mathlib.Core.Bool.{Bool, false}
use mathlib.Core.Option.{Option, none, some}
use mathlib.Core.List.{List, [], ◌∷◌}
use native.Mathlib.Omega.{arith}
use js_sdks.Common.Tests.{if◌then◌else◌, is_some, Bool-cases, Option-cases}
use js_sdks.Common.Utf16.{Text, text_eq, text_eq_iff, includes}

abbrev pub Entries {ℓ} : Type ℓ → Type ℓ
Entries A = List (Text × A)

module _ {ℓ} {A : Type ℓ} where
  -- `entries[key]`, `map.get(key)`.
  unfoldable pub lookup : Text → Entries A → Option A
  lookup key [] = none
  lookup key ((k, a) ∷ entries) =
      let rest = lookup key entries in if text_eq key k then some a else rest

  -- `entries[key] = a`, `map.set(key, a)`: a new key comes last.
  unfoldable pub assign : Text → A → Entries A → Entries A
  assign key a [] = (key, a) ∷ []
  assign key a ((k, b) ∷ entries) =
      let rest = assign key a entries in if text_eq key k then (k, a) ∷ entries else (k, b) ∷ rest

  -- `{ ...entries, ...news }`, where the keys of `news` are different.
  unfoldable pub spread : Entries A → Entries A → Entries A
  spread entries [] = entries
  spread entries ((k, a) ∷ news) = spread (assign k a entries) news

  -- `Object.keys(entries)`.
  unfoldable pub keys : Entries A → List Text
  keys [] = []
  keys ((k, a) ∷ entries) = k ∷ keys entries

  -- `Object.prototype.hasOwnProperty.call(entries, key)`.
  unfoldable pub has_own : Text → Entries A → Bool
  has_own key entries = includes (keys entries) key

-- `newer ?? older`.
abbrev pub or_option {ℓ} : {A : Type ℓ} → Option A → Option A → Option A
or_option none older = older
or_option (some a) older = some a

pub or_option-none {ℓ} : {A : Type ℓ} (o : Option A) → o ≡ or_option o none
or_option-none none = refl
or_option-none (some a) = refl

-- The keys of an object are different.
unfoldable pub Distinct : List Text → Type 0
Distinct [] = Unit
Distinct (k ∷ ks) = (includes ks k ≡ false) × Distinct ks

module _ {ℓ} {A : Type ℓ} where
  pub lookup-assign :
      (key k : Text) (a : A) (entries : Entries A)
      → lookup key (assign k a entries) ≡ (if text_eq key k then some a else lookup key entries)
  unfolding lookup assign
  lookup-assign key k a [] = refl
  lookup-assign key k a ((l, b) ∷ entries) =
      ground (
        arith,
        lookup-assign key k a entries,
        text_eq_iff key k,
        text_eq_iff key l,
        text_eq_iff k l,
      )

  pub has_own-lookup :
      (key : Text) (entries : Entries A) → has_own key entries ≡ is_some (lookup key entries)
  unfolding lookup has_own includes keys
  has_own-lookup key [] = refl
  has_own-lookup key ((k, a) ∷ entries) =
      ground (arith, has_own-lookup key entries, text_eq_iff key k, text_eq_iff k key)

  pub lookup_of_absent :
      (key : Text) (entries : Entries A)
      → includes (keys entries) key ≡ false
      → lookup key entries ≡ none
  unfolding has_own
  lookup_of_absent key entries h = elim (Option-cases (lookup key entries)) [
    | inl e ↦ e
    | inr (a, e) ↦ ground (arith, has_own-lookup key entries)
  ]

  -- A spread reads the new entry of a key, or the old one.
  pub lookup-spread :
      (key : Text) (entries news : Entries A)
      → Distinct (keys news)
      → lookup key (spread entries news) ≡ or_option (lookup key news) (lookup key entries)
  unfolding lookup spread keys Distinct
  lookup-spread key entries [] d = refl
  lookup-spread key entries ((k, a) ∷ news) d =
      let ih = lookup-spread key (assign k a entries) news d.1 in
      let new = lookup-assign key k a entries in
      elim (Bool-cases (text_eq key k)) [
        | inl same ↦
            rw (ih, new, same, (text_eq_iff key k).0 same, lookup_of_absent k news d.0) refl
        | inr other ↦ rw (ih, new, other) refl
      ]
