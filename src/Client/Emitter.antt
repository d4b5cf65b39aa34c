-- ===== src/Client/Emitter.antt =====
-- Handlers of events: packages/js-client-core/src/Emitter.ts
-- and packages/js-client-core/src/clientHandlers.ts
pub mod Snapshot
pub mod Registrations
use js_sdks.Common.{
  ℕ, zero, suc, Bool, true, false, Option, none, some, List, [], ◌∷◌, ◌++◌, Text, Entries, lookup,
  assign, or_else, if◌then◌else◌, ◌==◌, Fallible, returns, throws,
}

-- A handler, by its identity; one of `once` is a function of its own, made for the handler.
pub data Listener : Type 0 where
  direct : ℕ → Listener
  once_of : ℕ → ℕ → Listener

abbrev pub identity : Listener → ℕ
identity (direct h) = h
identity (once_of own h) = own

-- The handlers of each name, with the calls of handlers so far and their arguments.
pub record Emitter (P : Type 0) : Type 0 where
  pub handlers : Entries (List Listener)
  pub calls : List (ℕ × List P)

-- `indexOf` and `splice`.
unfoldable pub remove_listener : ℕ → List Listener → List Listener
remove_listener h [] = []
remove_listener h (l ∷ ls) =
    let rest = remove_listener h ls in if identity l == h then ls else l ∷ rest

-- `on`, `once`, `off` and `clear` on the map.
module _ (name : Text) where
  abbrev pub listeners : Entries (List Listener) → List Listener
  listeners m = or_else (lookup name m) []

  abbrev pub add_to :
      Listener → Entries (List Listener) → Option (List Listener) → Entries (List Listener)
  add_to l m none = assign name (l ∷ []) m
  add_to l m (some ls) = assign name (ls ++ l ∷ []) m

  unfoldable pub on : Listener → Entries (List Listener) → Entries (List Listener)
  on l m = add_to l m (lookup name m)

  -- `once`: `own` is the identity of the new function.
  unfoldable pub once : ℕ → ℕ → Entries (List Listener) → Entries (List Listener)
  unfolding on
  once own h m = on (once_of own h) m

  abbrev pub remaining : Option ℕ → List Listener → List Listener
  remaining none ls = []
  remaining (some h) ls = remove_listener h ls

  abbrev pub remove_from :
      Option ℕ → Entries (List Listener) → Option (List Listener) → Entries (List Listener)
  remove_from h m none = m
  remove_from h m (some ls) = assign name (remaining h ls) m

  unfoldable pub off : Option ℕ → Entries (List Listener) → Entries (List Listener)
  unfolding remove_listener
  off h m = remove_from h m (lookup name m)

-- The calls that a handler may make on the emitter.
pub data Call : Type 0 where
  on_call : Text → ℕ → Call
  once_call : Text → ℕ → ℕ → Call
  off_call : Text → Option ℕ → Call
  clear_call : Call

unfoldable pub perform : Call → Entries (List Listener) → Entries (List Listener)
unfolding on once off
perform (on_call name h) m = on name (direct h) m
perform (once_call name own h) m = once name own h m
perform (off_call name h) m = off name h m
perform clear_call m = []

unfoldable pub perform_all : List Call → Entries (List Listener) → Entries (List Listener)
unfolding perform
perform_all [] m = m
perform_all (call ∷ calls) m = perform_all calls (perform call m)

-- `reactions` gives the calls that a handler makes. `list_of` is what `apply` makes of an array of
-- arguments: the elements of an array, none for an object without a length or for what is missing, and a
-- TypeError for a primitive, here `throws`.
module _ {P : Type 0} (list_of : P → Fallible (List P)) (reactions : ℕ → List Call) (name : Text)
    (payload : P) where
  abbrev pub called : ℕ → List P → Emitter P → Emitter P
  called h arguments e = record e {
    handlers = perform_all (reactions h) e.handlers;
    calls = e.calls ++ (h, arguments) ∷ [];
  }

  -- `handler.apply(self, payload)`: whether it threw.
  abbrev pub apply : ℕ → Fallible (List P) → Emitter P → Emitter P × Bool
  apply h throws e = (e, true)
  apply h (returns arguments) e = (called h arguments e, false)

  unfoldable pub call_listener : Listener → Emitter P → Emitter P × Bool
  unfolding perform_all off
  call_listener (direct h) e = (called h (payload ∷ []) e, false)
  call_listener (once_of own h) e =
      apply h (list_of payload) (record e { handlers = off name (some own) e.handlers })

  -- The loop over the handlers, which an error ends.
  unfoldable pub call_all : List Listener → Emitter P → Emitter P × Bool
  unfolding call_listener
  call_all [] e = (e, false)
  call_all (l ∷ ls) e =
      let (next, threw) = call_listener l e in
      let rest = call_all ls next in if threw then (next, true) else rest

  -- `emit`: the loop goes over a copy of the array. The emitter, and whether it threw.
  unfoldable pub emit : Emitter P → Emitter P × Bool
  unfolding call_all
  emit e = call_all (listeners name e.handlers) e

-- `ClientHandlers`: what was registered on a client, whose handlers are those of its emitter.
pub record ClientHandlers : Type 0 where
  pub registrations : List (Text × ℕ)
  pub client : Entries (List Listener)

unfoldable pub register : Text → ℕ → ClientHandlers → ClientHandlers
unfolding on
register name h c = record {
  registrations = c.registrations ++ (name, h) ∷ [];
  client = on name (direct h) c.client;
}

-- `registerHooks`, with the hooks that are functions.
unfoldable pub register_hooks : List (Text × ℕ) → ClientHandlers → ClientHandlers
unfolding register
register_hooks [] c = c
register_hooks ((name, h) ∷ hooks) c = register_hooks hooks (register name h c)

unfoldable pub off_all : List (Text × ℕ) → Entries (List Listener) → Entries (List Listener)
unfolding off
off_all [] m = m
off_all ((name, h) ∷ rest) m = off_all rest (off name (some h) m)

unfoldable pub remove_all : ClientHandlers → ClientHandlers
unfolding off_all
remove_all c = record { registrations = []; client = off_all c.registrations c.client }
