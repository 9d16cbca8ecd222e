-- ===== src/Persist/Persister.antt =====
-- src/deps/mongoclient/data_persister.go: a sub-document in memory that is loaded and saved on its own. What the
-- database answers, and what reflection says of the fields, are arguments.
use heli.Common.Text.{before_char}
use heli.Common.{
  Bool, true, false, not, ◌||◌, String, List, [], ◌∷◌, ◌++◌, Option, none, some, if◌then◌else◌,
  ◌==◌,
}
use heli.Persist.Recorder.{
  UpdateDoc, no_update, whole_doc, fields, SingleDocRecorder, count_dots, new_single_doc_recorder,
  set_field, unset_field, save_all, gen_update_doc,
}

pub data PersisterMode : Type 0 where
  default read_only no_default_load : PersisterMode

abbrev pub is_read_only : PersisterMode → Bool
is_read_only read_only = true
is_read_only _ = false

-- `data` is none for a nil pointer. `writes` are the updates handed to `UpdateOne`, oldest first.
pub record DataPersister {ℓ} (D V : Type ℓ) : Type ℓ where
  pub data_of : Option D
  pub recorder : SingleDocRecorder V
  pub loaded : Bool
  pub mode : PersisterMode
  pub writes : List (UpdateDoc V)

-- What `FindOne`, `Raw`, `LookupErr` and `Unmarshal` come to. `Unmarshal` writes into the data, also where it
-- fails half-way.
pub data LoadAnswer {ℓ} (D : Type ℓ) : Type ℓ where
  no_documents find_failed raw_failed not_found lookup_failed : LoadAnswer D
  unmarshal_failed unmarshalled : (Option D → Option D) → LoadAnswer D

pub data LoadError : Type 0 where
  find_error raw_error lookup_error unmarshal_error : LoadError

abbrev pub is_nothing {ℓ} : {V : Type ℓ} → UpdateDoc V → Bool
is_nothing no_update = true
is_nothing (whole_doc parent) = false
is_nothing (fields sets unsets) = false

module _ {ℓ} {D V : Type ℓ} where
  unfoldable pub new_data_persister : D → String → DataPersister D V
  unfolding new_single_doc_recorder
  new_data_persister value tag = record {
    data_of = some value;
    recorder = new_single_doc_recorder tag;
    loaded = false;
    mode = default;
    writes = [];
  }

  -- The part of `Load` for a persister that is not loaded.
  unfoldable pub load_answer :
      LoadAnswer D → DataPersister D V → DataPersister D V × Option LoadError
  load_answer no_documents p = (record p { loaded = true }, none)
  load_answer find_failed p = (p, some LoadError.find_error)
  load_answer raw_failed p = (p, some LoadError.raw_error)
  load_answer not_found p = (record p { loaded = true }, none)
  load_answer lookup_failed p = (p, some LoadError.lookup_error)
  load_answer (unmarshal_failed f) p =
      (record p { data_of = f p.data_of }, some LoadError.unmarshal_error)
  load_answer (unmarshalled f) p = (record p { data_of = f p.data_of; loaded = true }, none)

  unfoldable pub load : LoadAnswer D → DataPersister D V → DataPersister D V × Option LoadError
  unfolding load_answer
  load answer p = if p.loaded then (p, none) else load_answer answer p

  -- Whether `UpdateOne` goes through is an argument; the result says whether `Save` returns nil.
  unfoldable pub save : Bool → DataPersister D V → DataPersister D V × Bool
  unfolding gen_update_doc
  save goes_through p =
      if is_read_only p.mode || not p.loaded
      then (p, true)
      else (let (r, docs) = gen_update_doc p.recorder in
          if is_nothing docs
          then (record p { recorder = r }, true)
          else (record p { recorder = r; writes = p.writes ++ docs ∷ [] }, goes_through))

  unfoldable pub set_loaded : DataPersister D V → DataPersister D V
  set_loaded p = if is_read_only p.mode then p else record p { loaded = true }

  unfoldable pub save_docs : DataPersister D V → DataPersister D V × UpdateDoc V
  unfolding gen_update_doc
  save_docs p =
      if not p.loaded || is_read_only p.mode
      then (p, no_update)
      else (let (r, docs) = gen_update_doc p.recorder in (record p { recorder = r }, docs))

  unfoldable pub save_all_doc : DataPersister D V → DataPersister D V
  unfolding save_all
  save_all_doc p =
      if is_read_only p.mode then p else record p { loaded = true; recorder = save_all p.recorder }

  -- `Data`: nil when the data cannot be loaded.
  unfoldable pub get_data : LoadAnswer D → DataPersister D V → DataPersister D V × Option D
  unfolding load
  get_data answer p =
      if p.loaded
      then (p, p.data_of)
      else (let (p', error) = load answer p in
          (p', elim error [ none ↦ p'.data_of | some _ ↦ none ]))

  unfoldable pub set_data : D → DataPersister D V → DataPersister D V
  unfolding save_all_doc
  set_data value p =
      if is_read_only p.mode
      then p
      else save_all_doc (record p { loaded = true; data_of = some value })

  -- `UnmarshalBSON`, which decodes a whole document: the data is written whether it was loaded or not, and the
  -- persister is not marked as loaded.
  unfoldable pub unmarshal_bson : (Option D → Option D) → DataPersister D V → DataPersister D V
  unmarshal_bson f p = record p { data_of = f p.data_of }

  unfoldable pub set_mode : PersisterMode → DataPersister D V → DataPersister D V
  set_mode mode p = record p { mode = mode }

  unfoldable pub set_read_only : DataPersister D V → DataPersister D V
  unfolding set_mode
  set_read_only p = set_mode read_only p

  unfoldable pub clear : DataPersister D V → DataPersister D V
  clear p = if is_read_only p.mode then p else record p { data_of = none; loaded = false }

-- `disabled` is `deadlock.Opts.Disable`, and `is_map_field` the answer of reflection.
module _ (disabled : Bool) (is_map_field : String → Bool) where
  unfoldable pub validate_nested_map_path : String → Bool
  unfolding before_char
  validate_nested_map_path key_path = disabled || is_map_field (before_char 46 key_path)

  unfoldable pub validate_update_path : String → Bool
  unfolding validate_nested_map_path
  validate_update_path key_path =
      if disabled
      then true
      else if count_dots key_path == 1
      then validate_nested_map_path key_path
      else true

  unfoldable pub add_update_op {ℓ} :
      {D V : Type ℓ} → String → V → DataPersister D V → DataPersister D V
  unfolding validate_update_path set_field
  add_update_op key_path doc p =
      if is_read_only p.mode
      then p
      else if not (validate_update_path key_path)
      then p
      else record p { recorder = (set_field key_path doc p.recorder).0 }

  unfoldable pub add_unset_op {ℓ} : {D V : Type ℓ} → String → DataPersister D V → DataPersister D V
  unfolding validate_nested_map_path unset_field
  add_unset_op key_path p =
      if is_read_only p.mode
      then p
      else if not (validate_nested_map_path key_path)
      then p
      else record p { recorder = (unset_field key_path p.recorder).0 }
