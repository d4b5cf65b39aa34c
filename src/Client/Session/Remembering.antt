-- ===== src/Client/Session/Remembering.antt =====
-- What the storage holds while a launch resolves its session.
use js_sdks.Common.{
  ℕ, zero, suc, ◌<◌, ◌≡◌, refl, sym, ap, ◌∙◌, subst, ◌⊎◌, inl, inr, Bool, true, false, Option, none,
  some, List, [], ◌∷◌, Text, text_eq, text_eq_refl, All, if_both, arith,
}
use js_sdks.Evaluator.Value.{Value}
use js_sdks.Client.CachedEntry.{is_object, property}
use js_sdks.Client.Session.{
  Numbers, StorageRead, stored, nothing_usable, failed, Item, item, is_uuid, is_usable_record,
  stored_or_nothing, read_record, read_stored_instance_id, record_of, persist_instance_id,
  checksum_for, ClientSession, Phase, reading, ended, writing_at, Launch, first_of, settle,
  ephemeral_of, settle_read, LaunchStep, read_ends, write_ends, deadline_passes, read_ended,
  write_ended, deadline_passed, step, run,
}

-- What is documented of `JSON` and numbers, for one value and the time of its creation: the text made
-- of the value is parsed as it, the empty text is not JSON, a number equals itself, and a whole number
-- is known to be one.
pub record IsReadBack {F : Type 0} (env : Numbers F) (v : Value F) (created_at : ℕ) : Type 0 where
  pub parse_stringify : env.json.parse (env.json.stringify v) ≡ some v
  pub parse_empty : env.json.parse [] ≡ none
  pub num_eq_refl : env.json.num_eq (env.json.number_of 1) (env.json.number_of 1) ≡ true
  pub whole_number : env.whole (env.json.number_of created_at) ≡ some created_at

module _ {F : Type 0} (env : Numbers F) where
  read_of_text :
      (text : Text) (v : Value F)
      → env.json.parse [] ≡ none
      → env.json.parse text ≡ some v
      → read_stored_instance_id env (item (some text)) ≡ read_record env (some v)
  unfolding read_stored_instance_id
  read_of_text [] v empty h = cc
  read_of_text (c ∷ text) v empty h = ap (read_record env) h

  is_usable_record-record_of :
      (id : Text) (n : ℕ)
      → IsReadBack env (record_of env id (suc n)) (suc n)
      → is_uuid id ≡ true
      → is_usable_record env (record_of env id (suc n)) ≡ true
  unfolding is_usable_record record_of is_object property text_eq
  is_usable_record-record_of id n h uuid =
      rw (h.num_eq_refl, h.whole_number, uuid, text_eq_refl (checksum_for env.decimal id (suc n)))
        refl

  read_of_persisted :
      (id : Text) (n : ℕ)
      → IsReadBack env (record_of env id (suc n)) (suc n)
      → is_uuid id ≡ true
      → read_stored_instance_id env (item (some (env.json.stringify (record_of env id (suc n)))))
        ≡ stored id
  unfolding record_of property text_eq
  read_of_persisted id n h uuid =
      let v = record_of env id (suc n) in
      read_of_text (env.json.stringify v) v h.parse_empty h.parse_stringify
      ∙ ap (λ usable. stored_or_nothing env usable (some id))
          (is_usable_record-record_of id n h uuid)

  -- Where a launch has come to: its session is ephemeral, or `settleFromStorage` has ended and the storage
  -- gives the session's id.
  abbrev pub IsRemembered : Phase → Option ClientSession → Item → Type 0
  IsRemembered phase none held = Unit
  IsRemembered ended (some s) held =
      (s.ephemeral ≡ true) ⊎ (read_stored_instance_id env held ≡ stored s.instance_id)
  IsRemembered phase (some s) held = s.ephemeral ≡ true

  first_of-IsRemembered :
      (o : Option ClientSession) (s : ClientSession) (before held : Item)
      → IsRemembered reading o before
      → (s.ephemeral ≡ true) ⊎ (read_stored_instance_id env held ≡ stored s.instance_id)
      → IsRemembered ended (some (first_of o s)) held
  first_of-IsRemembered none s before held h new = new
  first_of-IsRemembered (some first) s before held h new = inl h

  ephemeral-IsRemembered :
      (phase : Phase) (s : ClientSession) (held : Item)
      → s.ephemeral ≡ true
      → IsRemembered phase (some s) held
  ephemeral-IsRemembered reading s held h = h
  ephemeral-IsRemembered ended s held h = inl h
  ephemeral-IsRemembered (writing_at n) s held h = h

  -- What stands before `settleFromStorage` ends does so at each phase.
  before_end :
      (now : ℕ) (o : Option ClientSession) (held : Item)
      → (IsRemembered (writing_at now) o held → IsRemembered reading o held)
        × (IsRemembered reading o held → IsRemembered (writing_at now) o held)
  before_end now none held = ((λ h. h), (λ h. h))
  before_end now (some s) held = ((λ h. h), (λ h. h))

  abbrev pub IsLater : Phase → Type 0
  IsLater (writing_at now) = 0 < now
  IsLater phase = Unit

  -- A launch that made the id, and writes after the epoch.
  pub record Remembers (id : Text) (l : Launch) : Type 0 where
    pub same_id : l.provisional_id ≡ id
    pub later : IsLater l.phase
    pub remembered : IsRemembered l.phase l.session l.storage

  settle-Remembers :
      (id : Text) (s : ClientSession) (before : Item) (l : Launch)
      → l.provisional_id ≡ id
      → IsRemembered reading l.session before
      → (s.ephemeral ≡ true) ⊎ (read_stored_instance_id env l.storage ≡ stored s.instance_id)
      → Remembers id (settle s l)
  settle-Remembers id s before l same h new = record {
    same_id = same;
    later = tt;
    remembered = first_of-IsRemembered l.session s before l.storage h new;
  }

  settle_read-Remembers :
      (id : Text) (r : StorageRead) (now : ℕ) (l : Launch)
      → read_stored_instance_id env l.storage ≡ r
      → l.provisional_id ≡ id
      → 0 < now
      → IsRemembered reading l.session l.storage
      → Remembers id (settle_read env r now l)
  settle_read-Remembers id (stored known) now l e same positive h =
      settle-Remembers id _ l.storage l same h (inr e)
  settle_read-Remembers id failed now l e same positive h =
      settle-Remembers id _ l.storage l same h (inl refl)
  settle_read-Remembers id nothing_usable now l e same positive h =
      if_both (Remembers id) l.passed _ _
        (settle-Remembers id (ephemeral_of l) l.storage l same h (inl refl))
        (record {
          same_id = same;
          later = positive;
          remembered = (before_end now l.session l.storage).1 h;
        })

  read_ended-Remembers :
      (id : Text) (now : ℕ) (phase : Phase) (l : Launch)
      → l.phase ≡ phase
      → 0 < now
      → Remembers id l
      → Remembers id (read_ended env now phase l)
  unfolding read_ended
  read_ended-Remembers id now reading l e positive h =
      settle_read-Remembers id _ now l refl h.same_id positive
        (subst (λ x. IsRemembered x l.session l.storage) e h.remembered)
  read_ended-Remembers id now ended l e positive h = h
  read_ended-Remembers id now (writing_at n) l e positive h = h

  -- What is documented of the record of an id, whenever it is made.
  abbrev pub IsJson : Text → Type 0
  IsJson id = (n : ℕ) → IsReadBack env (record_of env id (suc n)) (suc n)

  write_ended-Remembers :
      (id : Text) (succeeds : Bool) (phase : Phase) (l : Launch)
      → IsJson id
      → is_uuid id ≡ true
      → l.phase ≡ phase
      → Remembers id l
      → Remembers id (write_ended env succeeds phase l)
  unfolding write_ended persist_instance_id
  write_ended-Remembers id succeeds reading l json uuid e h = h
  write_ended-Remembers id succeeds ended l json uuid e h = h
  write_ended-Remembers id succeeds (writing_at zero) l json uuid e h =
      let later = subst IsLater e h.later in ground arith
  write_ended-Remembers id true (writing_at (suc n)) l json uuid e h =
      let before = subst (λ x. IsRemembered x l.session l.storage) e h.remembered in
      settle-Remembers id _ l.storage
        (record l {
          storage = item (some (env.json.stringify (record_of env l.provisional_id (suc n))));
        })
        h.same_id ((before_end (suc n) l.session l.storage).0 before)
        (inr (
          subst
            (λ i.
              read_stored_instance_id env
                (item (some (env.json.stringify (record_of env i (suc n)))))
              ≡ stored i)
            (sym h.same_id) (read_of_persisted id n (json n) uuid)))
  write_ended-Remembers id false (writing_at (suc n)) l json uuid e h =
      let before = subst (λ x. IsRemembered x l.session l.storage) e h.remembered in
      settle-Remembers id (ephemeral_of l) l.storage l h.same_id
        ((before_end (suc n) l.session l.storage).0 before) (inl refl)

  deadline_passed-Remembers :
      (id : Text) (o : Option ClientSession) (l : Launch)
      → l.session ≡ o
      → Remembers id l
      → Remembers id (deadline_passed o l)
  unfolding deadline_passed
  deadline_passed-Remembers id none l e h = record {
    same_id = h.same_id;
    later = h.later;
    remembered = ephemeral-IsRemembered l.phase (ephemeral_of l) l.storage refl;
  }
  deadline_passed-Remembers id (some first) l e h = h

  -- The clock is past the epoch.
  abbrev pub IsAfterEpoch : LaunchStep → Type 0
  IsAfterEpoch (read_ends now) = 0 < now
  IsAfterEpoch x = Unit

  pub run-Remembers :
      (id : Text) (steps : List LaunchStep) (l : Launch)
      → IsJson id
      → is_uuid id ≡ true
      → All IsAfterEpoch steps
      → Remembers id l
      → Remembers id (run env steps l)
  unfolding run step
  run-Remembers id [] l json uuid clock h = h
  run-Remembers id (read_ends now ∷ steps) l json uuid (positive, clock) h =
      run-Remembers id steps _ json uuid clock
        (read_ended-Remembers id now l.phase l refl positive h)
  run-Remembers id (write_ends succeeds ∷ steps) l json uuid (_, clock) h =
      run-Remembers id steps _ json uuid clock
        (write_ended-Remembers id succeeds l.phase l json uuid refl h)
  run-Remembers id (deadline_passes ∷ steps) l json uuid (_, clock) h =
      run-Remembers id steps _ json uuid clock (deadline_passed-Remembers id l.session l refl h)
