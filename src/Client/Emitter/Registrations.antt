-- ===== src/Client/Emitter/Registrations.antt =====
-- What is left of the handlers of a client after `removeAll`.
use js_sdks.Common.{
  ℕ, suc, ◌+◌, ◌-◌, ◌≡◌, refl, ap, ◌∙◌, Option, none, some, List, [], ◌∷◌, ◌++◌, Text, Entries,
  lookup, assign, lookup-assign, text_eq, text_eq_iff, or_else, if◌then◌else◌, ◌==◌, arith, inl,
  inr, Bool-cases, true,
}
use js_sdks.Client.Emitter.{
  Listener, direct, identity, remove_listener, listeners, add_to, on, remove_from, off,
  ClientHandlers, register, register_hooks, off_all, remove_all,
}

-- How often a handler is among the listeners.
unfoldable pub occurrences : ℕ → List Listener → ℕ
occurrences h [] = 0
occurrences h (l ∷ ls) = let rest = occurrences h ls in if identity l == h then suc rest else rest

abbrev pub count : Text → ℕ → Entries (List Listener) → ℕ
count name h m = occurrences h (listeners name m)

-- How often a handler was registered for a name.
unfoldable pub times : Text → ℕ → List (Text × ℕ) → ℕ
times name h [] = 0
times name h ((n, k) ∷ rest) =
    let others = times name h rest in
    if text_eq name n then (if k == h then suc others else others) else others

abbrev one_if : Text → ℕ → Text → ℕ → ℕ
one_if name h n k = if text_eq name n then (if k == h then 1 else 0) else 0

occurrences-append :
    (h : ℕ) (xs ys : List Listener) → occurrences h (xs ++ ys) ≡ occurrences h xs + occurrences h ys
unfolding occurrences
occurrences-append h [] ys = omega arith
occurrences-append h (x ∷ xs) ys = ground (arith, occurrences-append h xs ys)

occurrences-remove :
    (h k : ℕ) (ls : List Listener)
    → occurrences h (remove_listener k ls) ≡ occurrences h ls - (if k == h then 1 else 0)
unfolding occurrences remove_listener
occurrences-remove h k [] = ground arith
occurrences-remove h k (l ∷ ls) = ground (arith, occurrences-remove h k ls)

count-assign :
    (name : Text) (h : ℕ) (n : Text) (ls : List Listener) (m : Entries (List Listener))
    → count name h (assign n ls m) ≡ (if text_eq name n then occurrences h ls else count name h m)
count-assign name h n ls m = elim (Bool-cases (text_eq name n)) [
  | inl same ↦ rw (lookup-assign name n ls m, same) refl
  | inr other ↦ rw (lookup-assign name n ls m, other) refl
]

count_of_slot :
    (name : Text) (h : ℕ) (n : Text) (m : Entries (List Listener)) (slot : Option (List Listener))
    → text_eq name n ≡ true
    → lookup n m ≡ slot
    → count name h m ≡ occurrences h (or_else slot [])
count_of_slot name h n m slot same found =
    ap (λ t. count t h m) ((text_eq_iff name n).0 same)
    ∙ ap (λ o. occurrences h (or_else o [])) found

add_to-count :
    (name : Text) (h : ℕ) (n : Text) (k : ℕ) (m : Entries (List Listener))
    (slot : Option (List Listener))
    → lookup n m ≡ slot
    → count name h (add_to n (direct k) m slot) ≡ count name h m + one_if name h n k
unfolding occurrences
add_to-count name h n k m none found = elim (Bool-cases (text_eq name n)) [
  | inl same ↦
      rw (count-assign name h n (direct k ∷ []) m, same, count_of_slot name h n m none same found)
        (ground arith)
  | inr other ↦ rw (count-assign name h n (direct k ∷ []) m, other) (omega arith)
]
add_to-count name h n k m (some ls) found = elim (Bool-cases (text_eq name n)) [
  | inl same ↦
      rw
        (
          count-assign name h n (ls ++ direct k ∷ []) m,
          same,
          count_of_slot name h n m (some ls) same found,
          occurrences-append h ls (direct k ∷ []),
        )
        (ground arith)
  | inr other ↦ rw (count-assign name h n (ls ++ direct k ∷ []) m, other) (omega arith)
]

count-on :
    (name : Text) (h : ℕ) (n : Text) (k : ℕ) (m : Entries (List Listener))
    → count name h (on n (direct k) m) ≡ count name h m + one_if name h n k
unfolding on
count-on name h n k m = add_to-count name h n k m (lookup n m) refl

remove_from-count :
    (name : Text) (h : ℕ) (n : Text) (k : ℕ) (m : Entries (List Listener))
    (slot : Option (List Listener))
    → lookup n m ≡ slot
    → count name h (remove_from n (some k) m slot) ≡ count name h m - one_if name h n k
unfolding occurrences
remove_from-count name h n k m none found = elim (Bool-cases (text_eq name n)) [
  | inl same ↦ rw (count_of_slot name h n m none same found) (omega arith)
  | inr other ↦ rw other (omega arith)
]
remove_from-count name h n k m (some ls) found = elim (Bool-cases (text_eq name n)) [
  | inl same ↦
      rw
        (
          count-assign name h n (remove_listener k ls) m,
          same,
          count_of_slot name h n m (some ls) same found,
        )
        (occurrences-remove h k ls)
  | inr other ↦ rw (count-assign name h n (remove_listener k ls) m, other) (omega arith)
]

count-off :
    (name : Text) (h : ℕ) (n : Text) (k : ℕ) (m : Entries (List Listener))
    → count name h (off n (some k) m) ≡ count name h m - one_if name h n k
unfolding off
count-off name h n k m = remove_from-count name h n k m (lookup n m) refl

count-off_all :
    (name : Text) (h : ℕ) (rest : List (Text × ℕ)) (m : Entries (List Listener))
    → count name h (off_all rest m) ≡ count name h m - times name h rest
unfolding off_all times
count-off_all name h [] m = omega arith
count-off_all name h ((n, k) ∷ rest) m =
    rw (count-off_all name h rest (off n (some k) m), count-off name h n k m) (ground arith)

times-append :
    (name : Text) (h : ℕ) (xs ys : List (Text × ℕ))
    → times name h (xs ++ ys) ≡ times name h xs + times name h ys
unfolding times
times-append name h [] ys = omega arith
times-append name h ((n, k) ∷ xs) ys = ground (arith, times-append name h xs ys)

-- The handlers that the client had, and those that are registered for removal.
register_hooks-count :
    (name : Text) (h : ℕ) (hooks : List (Text × ℕ)) (c : ClientHandlers)
    → count name h (register_hooks hooks c).client + times name h c.registrations
      ≡ count name h c.client + times name h (register_hooks hooks c).registrations
unfolding register_hooks register times
register_hooks-count name h [] c = refl
register_hooks-count name h ((n, k) ∷ hooks) c =
    let next = register n k c in
    let ih = register_hooks-count name h hooks next in
    let added = count-on name h n k c.client in
    let listed = times-append name h c.registrations ((n, k) ∷ []) in ground arith

-- After hooks are registered and all registrations removed, each event has each handler as often as
-- the client had it before, whatever other handlers, the same ones included, were on it.
pub remove_all-register_hooks :
    (name : Text) (h : ℕ) (hooks : List (Text × ℕ)) (client : Entries (List Listener))
    → count name h
        (remove_all (register_hooks hooks (record { registrations = []; client = client }))).client
      ≡ count name h client
unfolding remove_all times
remove_all-register_hooks name h hooks client =
    let start : ClientHandlers = record { registrations = []; client = client } in
    let registered = register_hooks hooks start in
    let total = register_hooks-count name h hooks start in
    rw (count-off_all name h registered.registrations registered.client) (omega arith)
