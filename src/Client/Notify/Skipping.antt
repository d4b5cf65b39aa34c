-- ===== src/Client/Notify/Skipping.antt =====
-- A handler of `watch` that removes itself, in the loop over the handlers.
use js_sdks.Common.{
  ℕ, zero, suc, ◌≡◌, refl, sym, ap, ◌∙◌, subst, Option, none, some, List, [], ◌∷◌, ◌++◌, Text,
  append-nil, or_else, get_elem?, length, lookup, ==_iff,
}
use js_sdks.ConfigValue.{JsValue, ConfigState, Parsing}
use js_sdks.Client.Watchers.{
  Watcher, Watchers, array_at, set_elem, set_array, remove_first, unwatch_array,
}
use js_sdks.Client.Watchers
use js_sdks.Client.State.{Client, unwatch_call, Reactions, config_state}
use js_sdks.Client.Evaluating.{
  evaluation_of, perform, perform_all, unwatch, call_watcher, call_watchers, call_array,
  update_watchers_for_config,
}
use js_sdks.Client.Notify.{calls_of, calls_of-append, call_for}

module _ {D : Type 0} where
  get_elem?-set_elem :
      (a : ℕ) (hs : List (Watcher D)) (arrays : List (List (Watcher D))) (x : Watcher D)
      (xs : List (Watcher D))
      → or_else (get_elem? arrays a) [] ≡ x ∷ xs
      → or_else (get_elem? (set_elem a hs arrays) a) [] ≡ hs
  unfolding set_elem
  get_elem?-set_elem a hs [] x xs e = cc
  get_elem?-set_elem zero hs (ys ∷ arrays) x xs e = refl
  get_elem?-set_elem (suc a) hs (ys ∷ arrays) x xs e = get_elem?-set_elem a hs arrays x xs e

  remove_first_here : (h : Watcher D) (hs : List (Watcher D)) → remove_first h.handler (h ∷ hs) ≡ hs
  unfolding remove_first
  remove_first_here h hs = rw ((==_iff h.handler h.handler).1 refl) refl

  -- The array of a key after its first handler is removed.
  array_at-unwatch :
      (key : Text) (array : ℕ) (h : Watcher D) (hs : List (Watcher D)) (w : Watchers D)
      → lookup key w.by_key ≡ some array
      → array_at array w ≡ h ∷ hs
      → array_at array (Watchers.unwatch key (some h.handler) w) ≡ hs
  unfolding Watchers.unwatch array_at
  array_at-unwatch key array h hs w found e =
      subst (λ slot. array_at array (unwatch_array (some h.handler) w slot) ≡ hs) (sym found)
        (get_elem?-set_elem array _ w.arrays h hs e
          ∙ ap (remove_first h.handler) e
          ∙ remove_first_here h hs)

module _ {F : Type 0} where
  -- Handlers that each remove themselves from a key when they are called.
  abbrev pub self_removing : Text → Reactions F
  self_removing key = record {
    on_value = λ h v. unwatch_call key (some h) ∷ [];
    on_event = λ event. [];
  }

module _ {F : Type 0} (env : Parsing F) where
  call_watcher-self_removing :
      (key : Text) (state : Option ConfigState) (h : Watcher (JsValue F)) (c : Client F)
      → ((call_watcher env (self_removing key) key state (some h) c).watchers
          ≡ Watchers.unwatch key (some h.handler) c.watchers)
        × (calls_of (call_watcher env (self_removing key) key state (some h) c).outputs
            ≡ calls_of c.outputs ++ call_for env state h ∷ [])
  unfolding call_watcher evaluation_of perform_all perform unwatch calls_of
  call_watcher-self_removing key none h c = (refl, simp (calls_of-append, append-nil))
  call_watcher-self_removing key (some state) h c = (refl, simp (calls_of-append, append-nil))

  -- Of two handlers of a key that each remove themselves when called, an update calls only the first.
  pub update_watchers-skips :
      (key : Text) (c : Client F) (array : ℕ) (h k : Watcher (JsValue F))
      → lookup key c.watchers.by_key ≡ some array
      → array_at array c.watchers ≡ h ∷ k ∷ []
      → calls_of (update_watchers_for_config env (self_removing key) key c).outputs
        ≡ calls_of c.outputs ++ call_for env (config_state c.config_set key) h ∷ []
  unfolding update_watchers_for_config call_watchers
  update_watchers-skips key c array h k found e =
      let state = config_state c.config_set key in
      let next = call_watcher env (self_removing key) key state (some h) c in
      let (kept, calls) = call_watcher-self_removing key state h c in
      let left : array_at array next.watchers ≡ k ∷ [] =
        ap (array_at array) kept ∙ array_at-unwatch key array h (k ∷ []) c.watchers found e in
      let removing = self_removing key in
      let loop : update_watchers_for_config env removing key c ≡ next =
        ap (λ slot. call_array env removing key state slot c) found
        ∙ ap (λ hs. call_watchers env removing key state array (length hs) 0 c) e
        ∙ ap
            (λ hs.
              call_watchers env removing key state array 1 1
                (call_watcher env removing key state (get_elem? hs 0) c))
            e
        ∙ ap (λ hs. call_watcher env removing key state (get_elem? hs 1) next) left in
      ap (λ d. calls_of d.outputs) loop ∙ calls
