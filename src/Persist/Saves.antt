-- ===== src/Persist/Saves.antt =====
-- src/deps/mongoclient/simple_record.go: what a save writes is what has changed in memory.
use text.Mathlib.Text.{◌==◌ as str_eq}
use heli.Common.{
  ◌&&◌, ltb, ◌==◌, true, false, String, List, [], ◌∷◌, Option, none, some, ◌≡◌, ◌⊎◌, refl, ap, ◌∙◌,
  inl, inr, arith, if◌then◌else◌, string_eq, Bool-cases, All, All-mono,
}
use heli.Common.Table.{find, erase, find-erase, find-erase_self, insert-All, erase-All}
use heli.Persist.Recorder.{
  SingleDocRecorder, no_update, whole_doc, fields, count_dots, is_empty, part, full_paths,
  new_single_doc_recorder, set_field, unset_field, save_all, gen_update_doc,
}
use heli.Persist.Store.{
  Memory, full, assigned, Apart, Leaves, Mongo, find-full_paths, whole-part, full_paths-Leaves,
  full_paths-Apart, unset-Apart, assigned_set, assigned_unset,
}

-- What happens to a player's data: a field is written or removed and recorded, all of it is to be
-- saved, or it is saved. A save is `DataPersister.Save` of data that is loaded and not read-only.
pub data SaveEvent {ℓ} (V : Type ℓ) : Type ℓ where
  sets : String → V → SaveEvent V
  unsets : String → SaveEvent V
  saves_all saves : SaveEvent V

abbrev pub write {ℓ} : {V : Type ℓ} → String → Option V → Memory V → Memory V
write p o mem = λ q. if str_eq p q then o else mem q

module _ {ℓ} {V : Type ℓ} (IsLeaf : String → Type 0) (mongo : Mongo V IsLeaf)
    (parent : String) where
  abbrev pub State : Type ℓ
  State = Memory V × SingleDocRecorder V × mongo.Doc

  unfoldable pub save_doc : State → State
  save_doc (mem, r, d) =
      let (r', update) = gen_update_doc r in
      (
        mem,
        r',
        elim update as (λ _. mongo.Doc) [
          | no_update ↦ d
          | whole_doc p ↦ mongo.update_one (whole_doc p) mem d
          | fields a b ↦ mongo.update_one (fields a b) mem d
        ],
      )

  unfoldable pub handle : SaveEvent V → State → State
  unfolding save_doc
  handle (sets p v) (mem, r, d) = (write p (some v) mem, (set_field p v r).0, d)
  handle (unsets p) (mem, r, d) = (write p none mem, (unset_field p r).0, d)
  handle saves_all (mem, r, d) = (mem, save_all r, d)
  handle saves s = save_doc s

  unfoldable pub handle_all : List (SaveEvent V) → State → State
  unfolding handle
  handle_all [] s = s
  handle_all (e ∷ es) s = handle_all es (handle e s)

  -- The path names a field that the recorder takes.
  abbrev pub Fits : SaveEvent V → Type 0
  Fits (sets p v) = IsLeaf (full parent p) × (ltb 1 (count_dots p) ≡ false)
  Fits (unsets p) = IsLeaf (full parent p) × ((count_dots p == 1) ≡ true)
  Fits saves_all = Unit
  Fits saves = Unit

  -- What the database holds, with what is recorded on top, is what memory holds.
  pub record Synced (s : State) : Type ℓ where
    pub under : s.1.parent_field ≡ parent
    pub apart : Apart s.1.set_field_map s.1.unset_field_map
    pub set_leaves : Leaves (λ p. IsLeaf (full parent p)) s.1.set_field_map
    pub unset_leaves : Leaves (λ p. IsLeaf (full parent p)) s.1.unset_field_map
    pub agrees :
        (p : String)
        → IsLeaf (full parent p)
        → (s.1.save_all_doc ≡ true)
          ⊎ (assigned s.1.set_field_map s.1.unset_field_map p (mongo.read s.2 (full parent p))
              ≡ s.0 p)

  abbrev pub Saved : State → Type ℓ
  Saved s = (p : String) → IsLeaf (full parent p) → mongo.read s.2 (full parent p) ≡ s.0 p

  set-Synced :
      (p : String) (v : V) (s : State) → Fits (sets p v) → Synced s → Synced (handle (sets p v) s)
  unfolding handle set_field
  set-Synced p v (mem, r, d) (leaf, dots) y =
      rw (dots, set_field)
        (record {
          under = y.under;
          apart =
              insert-All (λ e. find e.0 (erase p r.unset_field_map) ≡ none) p v r.set_field_map
                (All-mono (λ e. find e.0 r.unset_field_map ≡ none) _ r.set_field_map
                  (λ e h. find-erase p e.0 r.unset_field_map ∙ rw h (ground arith)) y.apart)
                (find-erase_self p r.unset_field_map);
          set_leaves = insert-All _ p v r.set_field_map y.set_leaves leaf;
          unset_leaves = erase-All _ p r.unset_field_map y.unset_leaves;
          agrees = λ q l. elim (y.agrees q l) [
            | inl all ↦ inl all
            | inr same ↦ inr (
                assigned_set p q v r.set_field_map r.unset_field_map (mongo.read d (full parent q))
                ∙ ap (λ (o : Option V). if str_eq p q then some v else o) same)
          ];
        })

  unset-Synced :
      (p : String) (s : State) → Fits (unsets p) → Synced s → Synced (handle (unsets p) s)
  unfolding handle unset_field
  unset-Synced p (mem, r, d) (leaf, dots) y =
      rw (dots, unset_field)
        (record {
          under = y.under;
          apart = unset-Apart p r.set_field_map r.unset_field_map y.apart;
          set_leaves = erase-All _ p r.set_field_map y.set_leaves;
          unset_leaves = insert-All _ p tt r.unset_field_map y.unset_leaves leaf;
          agrees = λ q l. elim (y.agrees q l) [
            | inl all ↦ inl all
            | inr same ↦ inr (
                assigned_unset p q r.set_field_map r.unset_field_map (mongo.read d (full parent q))
                ∙ ap (λ (o : Option V). if str_eq p q then none else o) same)
          ];
        })

  abbrev cleared : SingleDocRecorder V → SingleDocRecorder V
  cleared r = record r { set_field_map = []; unset_field_map = []; save_all_doc = false }

  cleared-Synced :
      (mem : Memory V) (r : SingleDocRecorder V) (d : mongo.Doc)
      → r.parent_field ≡ parent
      → Saved (mem, cleared r, d)
      → Synced (mem, cleared r, d)
  cleared-Synced mem r d under done = record {
    under = under;
    apart = tt;
    set_leaves = tt;
    unset_leaves = tt;
    agrees = λ p l. inr (unfold find in (done p l));
  }

  whole-Saved :
      (mem : Memory V) (r : SingleDocRecorder V) (d : mongo.Doc)
      → r.parent_field ≡ parent
      → Saved (mem, cleared r, mongo.update_one (whole_doc r.parent_field) mem d)
  whole-Saved mem r d under = rw under (λ p l. mongo.read_whole parent mem d p l)

  fields-Saved :
      (mem : Memory V) (r : SingleDocRecorder V) (d : mongo.Doc)
      → Synced (mem, r, d)
      → r.save_all_doc ≡ false
      → Saved (
        mem,
        cleared r,
        mongo.update_one
            (fields
              (part (full_paths r.parent_field r.set_field_map))
              (part (full_paths r.parent_field r.unset_field_map)))
            mem
            d,
      )
  fields-Saved mem r d y partial = rw y.under (λ p l.
      let a = full_paths parent r.set_field_map in
      let b = full_paths parent r.unset_field_map in
      let a_eq = whole-part a in
      let b_eq = whole-part b in
      let law =
        mongo.read_fields (part a) (part b) mem d (full parent p)
          (rw a_eq (full_paths-Leaves IsLeaf parent r.set_field_map y.set_leaves))
          (rw b_eq (full_paths-Leaves IsLeaf parent r.unset_field_map y.unset_leaves))
          (rw (a_eq, b_eq) (full_paths-Apart parent r.set_field_map r.unset_field_map y.apart)) l in
      let law' : mongo.read (mongo.update_one (fields (part a) (part b)) mem d) (full parent p)
          ≡ assigned a b (full parent p) (mongo.read d (full parent p)) =
        law ∙ rw (a_eq, b_eq) refl in
      let here : assigned a b (full parent p) (mongo.read d (full parent p))
          ≡ assigned r.set_field_map r.unset_field_map p (mongo.read d (full parent p)) =
        rw
          (
            assigned,
            find-full_paths parent p r.set_field_map,
            find-full_paths parent p r.unset_field_map,
          )
          refl in
      elim (y.agrees p l) [ inl all ↦ absurd (ground arith) | inr same ↦ law' ∙ here ∙ same ])

  nothing-Saved :
      (mem : Memory V) (r : SingleDocRecorder V) (d : mongo.Doc)
      → Synced (mem, r, d)
      → r.save_all_doc ≡ false
      → (is_empty r.set_field_map && is_empty r.unset_field_map) ≡ true
      → Saved (mem, r, d)
  unfolding find
  nothing-Saved mem r d y partial nothing p l = elim (y.agrees p l) [
    | inl all ↦ absurd (ground arith)
    | inr same ↦ ground arith
  ]

  gen_nothing :
      (r : SingleDocRecorder V)
      → r.save_all_doc ≡ false
      → (is_empty r.set_field_map && is_empty r.unset_field_map) ≡ true
      → gen_update_doc r ≡ (r, no_update)
  unfolding gen_update_doc
  gen_nothing r partial nothing = ground arith

  -- A save brings the database up to date, and leaves nothing recorded.
  save-Saved : (s : State) → Synced s → Synced (save_doc s) × Saved (save_doc s)
  unfolding save_doc gen_update_doc
  save-Saved (mem, r, d) y = elim (Bool-cases r.save_all_doc) [
    | inl all ↦
        let done = whole-Saved mem r d y.under in
        rw (all, gen_update_doc, save_doc) (cleared-Synced mem r _ y.under done, done)
    | inr some_fields ↦ elim (Bool-cases (is_empty r.set_field_map && is_empty r.unset_field_map)) [
      | inl nothing ↦
          rw (gen_nothing r some_fields nothing, save_doc)
            (y, nothing-Saved mem r d y some_fields nothing)
      | inr changed ↦
          let done = fields-Saved mem r d y some_fields in
          rw (some_fields, changed, gen_update_doc, save_doc)
            (cleared-Synced mem r _ y.under done, done)
    ]
  ]

  handle-Synced : (e : SaveEvent V) (s : State) → Fits e → Synced s → Synced (handle e s)
  unfolding handle save_all
  handle-Synced (sets p v) s f y = set-Synced p v s f y
  handle-Synced (unsets p) s f y = unset-Synced p s f y
  handle-Synced saves_all (mem, r, d) f y = record {
    under = y.under;
    apart = y.apart;
    set_leaves = y.set_leaves;
    unset_leaves = y.unset_leaves;
    agrees = λ p l. inl refl;
  }
  handle-Synced saves s f y = (save-Saved s y).0

  handle_all-Synced :
      (es : List (SaveEvent V)) (s : State) → All Fits es → Synced s → Synced (handle_all es s)
  unfolding handle_all
  handle_all-Synced [] s f y = y
  handle_all-Synced (e ∷ es) s (f, fs) y =
      handle_all-Synced es (handle e s) fs (handle-Synced e s f y)

  -- Nothing that is recorded is lost: begin with a new recorder and a database that holds what memory
  -- holds; whatever fields are written, removed, marked to be saved as a whole, and saved in between, the
  -- database holds at every field what memory holds once the changes are saved. The fields are leaves
  -- that the recorder takes, and each save reaches the database.
  pub saved-eq_memory :
      (mem : Memory V) (d : mongo.Doc) (es : List (SaveEvent V)) (p : String)
      → All Fits es
      → ((q : String) → IsLeaf (full parent q) → mongo.read d (full parent q) ≡ mem q)
      → IsLeaf (full parent p)
      → let s = save_doc (handle_all es (mem, new_single_doc_recorder parent, d)) in
        mongo.read s.2 (full parent p) ≡ s.0 p
  unfolding new_single_doc_recorder
  saved-eq_memory mem d es p f same l =
      let r = new_single_doc_recorder parent in
      (save-Saved (handle_all es (mem, r, d))
          (handle_all-Synced es (mem, r, d) f (cleared-Synced mem r d refl same))).1
        p l
