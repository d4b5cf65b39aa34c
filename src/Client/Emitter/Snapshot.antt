-- ===== src/Client/Emitter/Snapshot.antt =====
-- Which handlers an event calls.
use js_sdks.Common.{
  ℕ, ◌≡◌, refl, sym, ◌∙◌, Bool, true, false, some, List, [], ◌∷◌, ◌++◌, Text, append-nil,
  append_assoc, Fallible, returns, throws,
}
use js_sdks.Client.Emitter.{
  Listener, called, off, direct, once_of, Emitter, listeners, Call, call_listener, call_all, emit,
}

-- The calls that handlers get: one of `on` gets the payload, and one of `once` the arguments that are
-- made of the payload; where that throws, neither it nor a handler after it is called.
pub calls_of : {P : Type 0} → P → Fallible (List P) → List Listener → List (ℕ × List P)
calls_of payload applied [] = []
calls_of payload applied (direct h ∷ ls) = (h, payload ∷ []) ∷ calls_of payload applied ls
calls_of payload (returns arguments) (once_of own h ∷ ls) =
    (h, arguments) ∷ calls_of payload (returns arguments) ls
calls_of payload throws (once_of own h ∷ ls) = []

-- Whether an error ends the calls: a handler of `once`, with a payload that is no list of arguments.
pub has_failing : {P : Type 0} → Fallible (List P) → List Listener → Bool
has_failing applied [] = false
has_failing applied (direct h ∷ ls) = has_failing applied ls
has_failing (returns arguments) (once_of own h ∷ ls) = has_failing (returns arguments) ls
has_failing throws (once_of own h ∷ ls) = true

module _ {P : Type 0} (list_of : P → Fallible (List P)) (reactions : ℕ → List Call) (name : Text)
    (payload : P) where
  -- What `call_all` comes to, for what `apply` makes of the payload.
  Calls : Fallible (List P) → List Listener → Emitter P → Type 0
  Calls applied ls e =
      ((call_all list_of reactions name payload ls e).0.calls
        ≡ e.calls ++ calls_of payload applied ls)
      × ((call_all list_of reactions name payload ls e).1 ≡ has_failing applied ls)

  call_all-Calls :
      (applied : Fallible (List P)) (ls : List Listener) (e : Emitter P)
      → list_of payload ≡ applied
      → Calls applied ls e
  unfolding Calls call_all call_listener calls_of has_failing
  call_all-Calls applied [] e h = (sym (append-nil e.calls), refl)
  call_all-Calls applied (direct x ∷ ls) e h =
      let next = (call_listener list_of reactions name payload (direct x) e).0 in
      let ih = call_all-Calls applied ls next h in
      (ih.0 ∙ append_assoc e.calls ((x, payload ∷ []) ∷ []) (calls_of payload applied ls), ih.1)
  call_all-Calls (returns arguments) (once_of own x ∷ ls) e h =
      let next =
        called list_of reactions name payload x arguments
          (record e { handlers = off name (some own) e.handlers }) in
      let ih = call_all-Calls (returns arguments) ls next h in
      rw h (
        ih.0 ∙ append_assoc e.calls ((x, arguments) ∷ []) (calls_of payload (returns arguments) ls),
        ih.1,
      )
  call_all-Calls throws (once_of own x ∷ ls) e h = rw h (sym (append-nil e.calls), refl)

  -- An event calls the handlers that its name has when it is emitted, in their order, whatever these
  -- add, remove or clear. One of `on` gets the payload, and one of `once` the arguments that `apply` makes
  -- of it; where the payload is a primitive, so that this throws, the first handler of `once` and those
  -- behind it are not called, and `emit` throws exactly if there is one.
  pub emit-calls :
      (e : Emitter P)
      → ((emit list_of reactions name payload e).0.calls
          ≡ e.calls ++ calls_of payload (list_of payload) (listeners name e.handlers))
        × ((emit list_of reactions name payload e).1
            ≡ has_failing (list_of payload) (listeners name e.handlers))
  unfolding emit Calls
  emit-calls e = call_all-Calls (list_of payload) (listeners name e.handlers) e refl
