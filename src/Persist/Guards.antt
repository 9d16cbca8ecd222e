-- ===== src/Persist/Guards.antt =====
-- src/deps/mongoclient/data_persister.go: what a read-only and a loaded persister keep.
use heli.Common.{
  Bool, true, false, String, List, [], ◌∷◌, Option, none, ◌≡◌, refl, ap, subst, sym, ◌∙◌, inl, inr,
  arith, if◌then◌else◌, Bool-cases, All,
}
use heli.Persist.Persister.{
  PersisterMode, read_only, DataPersister, LoadAnswer, no_documents, find_failed, raw_failed,
  not_found, lookup_failed, unmarshal_failed, unmarshalled, load_answer, load, save, set_loaded,
  save_docs, save_all_doc, get_data, set_data, clear, add_update_op, add_unset_op, set_read_only,
  unmarshal_bson,
}

-- A call of a method that keeps the mode.
pub data PersisterCall {ℓ} (D V : Type ℓ) : Type ℓ where
  loads gets_data : LoadAnswer D → PersisterCall D V
  saves : Bool → PersisterCall D V
  sets_loaded saves_docs saves_all_doc clears : PersisterCall D V
  sets_data : D → PersisterCall D V
  unmarshals : (Option D → Option D) → PersisterCall D V
  adds_update_op : String → V → PersisterCall D V
  adds_unset_op : String → PersisterCall D V

-- The call may change the data of a loaded persister.
abbrev pub replaces {ℓ} : {D V : Type ℓ} → PersisterCall D V → Bool
replaces clears = true
replaces (sets_data value) = true
replaces (unmarshals f) = true
replaces _ = false

module _ {ℓ} {D V : Type ℓ} (disabled : Bool) (is_map_field : String → Bool) where
  unfoldable pub call : PersisterCall D V → DataPersister D V → DataPersister D V
  unfolding load get_data save set_loaded save_docs save_all_doc set_data clear add_update_op
      add_unset_op unmarshal_bson
  call (loads answer) p = (load answer p).0
  call (gets_data answer) p = (get_data answer p).0
  call (saves goes_through) p = (save goes_through p).0
  call sets_loaded p = set_loaded p
  call saves_docs p = (save_docs p).0
  call saves_all_doc p = save_all_doc p
  call clears p = clear p
  call (sets_data value) p = set_data value p
  call (unmarshals f) p = unmarshal_bson f p
  call (adds_update_op key_path doc) p = add_update_op disabled is_map_field key_path doc p
  call (adds_unset_op key_path) p = add_unset_op disabled is_map_field key_path p

  unfoldable pub call_all : List (PersisterCall D V) → DataPersister D V → DataPersister D V
  unfolding call
  call_all [] p = p
  call_all (c ∷ cs) p = call_all cs (call c p)

  -- Nothing is recorded or written, and the mode stays.
  abbrev Untouched : DataPersister D V → DataPersister D V → Type ℓ
  Untouched p q = (q.mode ≡ p.mode) × (q.recorder ≡ p.recorder) × (q.writes ≡ p.writes)

  load_answer-Untouched :
      (answer : LoadAnswer D) (p : DataPersister D V) → Untouched p (load_answer answer p).0
  unfolding load_answer
  load_answer-Untouched no_documents p = (refl, refl, refl)
  load_answer-Untouched find_failed p = (refl, refl, refl)
  load_answer-Untouched raw_failed p = (refl, refl, refl)
  load_answer-Untouched not_found p = (refl, refl, refl)
  load_answer-Untouched lookup_failed p = (refl, refl, refl)
  load_answer-Untouched (unmarshal_failed f) p = (refl, refl, refl)
  load_answer-Untouched (unmarshalled f) p = (refl, refl, refl)

  load-Untouched : (answer : LoadAnswer D) (p : DataPersister D V) → Untouched p (load answer p).0
  unfolding load
  load-Untouched answer p =
      elim p.loaded as (λ b. Untouched p (if b then (p, none) else load_answer answer p).0) [
        | true ↦ (refl, refl, refl)
        | false ↦ load_answer-Untouched answer p
      ]

  get_data-load :
      (answer : LoadAnswer D) (p : DataPersister D V) → (get_data answer p).0 ≡ (load answer p).0
  unfolding get_data
  get_data-load answer p = elim (Bool-cases p.loaded) [
    | inl h ↦ rw (h, load) refl
    | inr h ↦ rw h refl
  ]

  locked-Untouched :
      (c : PersisterCall D V) (p : DataPersister D V)
      → Untouched (set_read_only p) (call c (set_read_only p))
  unfolding call set_read_only
  locked-Untouched (loads answer) p = load-Untouched answer (set_read_only p)
  locked-Untouched (gets_data answer) p =
      rw (get_data-load answer (set_read_only p)) (load-Untouched answer (set_read_only p))
  locked-Untouched (saves goes_through) p = (refl, refl, refl)
  locked-Untouched sets_loaded p = (refl, refl, refl)
  locked-Untouched saves_docs p =
      elim p.loaded
        as (λ b.
          Untouched (set_read_only p) (save_docs (record p { mode = read_only; loaded = b })).0) [
            | true ↦ (refl, refl, refl)
            | false ↦ (refl, refl, refl)
          ]
  locked-Untouched saves_all_doc p = (refl, refl, refl)
  locked-Untouched clears p = (refl, refl, refl)
  locked-Untouched (sets_data value) p = (refl, refl, refl)
  locked-Untouched (unmarshals f) p = (refl, refl, refl)
  locked-Untouched (adds_update_op key_path doc) p = (refl, refl, refl)
  locked-Untouched (adds_unset_op key_path) p = (refl, refl, refl)

  locked-eq : (p : DataPersister D V) → p.mode ≡ read_only → set_read_only p ≡ p
  unfolding set_read_only
  locked-eq p h = ap (λ (m : PersisterMode). record p { mode = m }) (sym h)

  call-Untouched :
      (c : PersisterCall D V) (p : DataPersister D V) → p.mode ≡ read_only → Untouched p (call c p)
  call-Untouched c p h =
      subst (λ (q : DataPersister D V). Untouched q (call c q)) (locked-eq p h)
        (locked-Untouched c p)

  read_only_writes_nothing :
      (calls : List (PersisterCall D V)) (p : DataPersister D V)
      → p.mode ≡ read_only
      → let q = call_all calls p in
        (q.mode ≡ read_only) × (q.recorder ≡ p.recorder) × (q.writes ≡ p.writes)
  unfolding call_all
  read_only_writes_nothing [] p h = (h, refl, refl)
  read_only_writes_nothing (c ∷ calls) p h =
      let (m, r, w) = call-Untouched c p h in
      let (m', r', w') = read_only_writes_nothing calls (call c p) (m ∙ h) in (m', r' ∙ r, w' ∙ w)

  call-Loaded :
      (c : PersisterCall D V) (p : DataPersister D V)
      → replaces c ≡ false
      → p.loaded ≡ true
      → ((call c p).loaded ≡ true) × ((call c p).data_of ≡ p.data_of)
  unfolding call
  call-Loaded (loads answer) p c h = rw h (refl, refl)
  call-Loaded (gets_data answer) p c h = rw h (refl, refl)
  call-Loaded (saves goes_through) p c h = ground arith
  call-Loaded sets_loaded p c h = ground arith
  call-Loaded saves_docs p c h = ground arith
  call-Loaded saves_all_doc p c h = ground arith
  call-Loaded clears p c h = absurd (ground arith)
  call-Loaded (sets_data value) p c h = absurd (ground arith)
  call-Loaded (unmarshals f) p c h = absurd (ground arith)
  call-Loaded (adds_update_op key_path doc) p c h = ground arith
  call-Loaded (adds_unset_op key_path) p c h = ground arith

  loaded_stays :
      (calls : List (PersisterCall D V)) (p : DataPersister D V)
      → All (λ c. replaces c ≡ false) calls
      → p.loaded ≡ true
      → let q = call_all calls p in (q.loaded ≡ true) × (q.data_of ≡ p.data_of)
  unfolding call_all
  loaded_stays [] p a h = (h, refl)
  loaded_stays (c ∷ calls) p (keeps, a) h =
      let (l, d) = call-Loaded c p keeps h in
      let (l', d') = loaded_stays calls (call c p) a l in (l', d' ∙ d)

  -- What the flags of a persister guard, through any calls but of SetMode, whatever the database answers: of one
  -- that is read-only no change is recorded, no update goes to the database, and it stays read-only;
  -- of one that is loaded no load puts other data in the place of what memory holds, so that through calls
  -- without a Clear, a SetData or an UnmarshalBSON it is loaded and its data is still the same.
  pub flags_guard :
      (calls : List (PersisterCall D V)) (p : DataPersister D V)
      → let q = call_all calls p in
        (p.mode ≡ read_only
          → (q.mode ≡ read_only) × (q.recorder ≡ p.recorder) × (q.writes ≡ p.writes))
        × (All (λ c. replaces c ≡ false) calls
            → p.loaded ≡ true
            → (q.loaded ≡ true) × (q.data_of ≡ p.data_of))
  flags_guard calls p = (read_only_writes_nothing calls p, loaded_stays calls p)
