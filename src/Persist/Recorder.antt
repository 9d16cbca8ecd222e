-- ===== src/Persist/Recorder.antt =====
-- src/deps/mongoclient/simple_record.go: the changes of a sub-document that are not yet saved. `enter` and
-- `exit`, which detect concurrent use in development, are left out.
use heli.Common.Text.{count_char}
use Prim.Native.String.{◌++◌ as ◌+++◌}
use heli.Common.{
  ℕ, ltb, ◌==◌, ◌||◌, ◌&&◌, not, Bool, true, false, String, List, [], ◌∷◌, Option, none, some,
  if◌then◌else◌, string_eq,
}
use heli.Common.Table.{Table, insert, erase}

pub data RecordError : Type 0 where
  key_value_not_map key_value_deep : RecordError

-- `save_all_doc` is nil, or the pointer to the sub-document, which is the data itself.
pub record SingleDocRecorder {ℓ} (V : Type ℓ) : Type ℓ where
  pub parent_field : String
  pub set_field_map : Table String V
  pub unset_field_map : Table String (Unit {0})
  pub save_all_doc : Bool

-- The document of an update: nil; `$set` of the whole sub-document; or `$set` and `$unset` of its fields, by
-- their full paths, where a part that is empty is left out.
pub data UpdateDoc {ℓ} (V : Type ℓ) : Type ℓ where
  no_update : UpdateDoc V
  whole_doc : String → UpdateDoc V
  fields : Option (Table String V) → Option (Table String (Unit {0})) → UpdateDoc V

-- `strings.Count(fieldPath, ".")`
abbrev pub count_dots : String → ℕ
count_dots path = count_char 46 path

abbrev pub is_empty {ℓ} : {A : Type ℓ} → List A → Bool
is_empty [] = true
is_empty (x ∷ xs) = false

-- The part of `buildSingleDocBsonDoc` for one of its two maps.
abbrev pub part {ℓ} : {A : Type ℓ} → List A → Option (List A)
part [] = none
part (x ∷ xs) = some (x ∷ xs)

-- The loops of `GenUpdateDoc`: each path under the parent field.
unfoldable pub full_paths {ℓ} : {V : Type ℓ} → String → Table String V → Table String V
full_paths parent [] = []
full_paths parent ((path, v) ∷ m) = (parent +++ ("." +++ path), v) ∷ full_paths parent m

abbrev pub build_single_doc_bson_doc {ℓ} :
    {V : Type ℓ} → Table String V → Table String (Unit {0}) → UpdateDoc V
build_single_doc_bson_doc set_ops unset_ops = fields (part set_ops) (part unset_ops)

module _ {ℓ} {V : Type ℓ} where
  unfoldable pub new_single_doc_recorder : String → SingleDocRecorder V
  new_single_doc_recorder parent_field = record {
    parent_field = parent_field;
    set_field_map = [];
    unset_field_map = [];
    save_all_doc = false;
  }

  unfoldable pub set_field :
      String → V → SingleDocRecorder V → SingleDocRecorder V × Option RecordError
  set_field field_path value r =
      if ltb 1 (count_dots field_path) then (r, some RecordError.key_value_deep) else (
        record r {
          set_field_map = insert field_path value r.set_field_map;
          unset_field_map = erase field_path r.unset_field_map;
        },
        none,
      )

  unfoldable pub unset_field :
      String → SingleDocRecorder V → SingleDocRecorder V × Option RecordError
  unset_field field_path r =
      if not (count_dots field_path == 1) then (r, some RecordError.key_value_not_map) else (
        record r {
          set_field_map = erase field_path r.set_field_map;
          unset_field_map = insert field_path tt r.unset_field_map;
        },
        none,
      )

  unfoldable pub save_all : SingleDocRecorder V → SingleDocRecorder V
  save_all r = record r { save_all_doc = true }

  unfoldable pub has_changes : SingleDocRecorder V → Bool
  has_changes r = not (is_empty r.set_field_map) || not (is_empty r.unset_field_map)

  unfoldable pub gen_update_doc : SingleDocRecorder V → SingleDocRecorder V × UpdateDoc V
  unfolding full_paths
  gen_update_doc r =
      let cleared : SingleDocRecorder V = record r {
        set_field_map = [];
        unset_field_map = [];
        save_all_doc = false;
      } in
      if r.save_all_doc
      then (cleared, whole_doc r.parent_field)
      else if is_empty r.set_field_map && is_empty r.unset_field_map
      then (r, no_update)
      else (
        cleared,
        build_single_doc_bson_doc (full_paths r.parent_field r.set_field_map)
            (full_paths r.parent_field r.unset_field_map),
      )
