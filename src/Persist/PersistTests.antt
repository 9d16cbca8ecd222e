-- ===== src/Persist/PersistTests.antt =====
-- The theorems on saves, at a database that is a function from paths to values, and on a persister's flags.
use Prim.Native.String.{◌++◌ as ◌+++◌, slice, len}
use text.Mathlib.Text.{starts_with, ◌==◌}
use text.Mathlib.TextLemmas.{append_assoc}
use text.Mathlib.TextPositions.{starts_with-append, slice-append_right, len-append}
use heli.Common.{
  ℤ, pos, String, List, [], ◌∷◌, Option, none, some, true, false, ◌≡◌, refl, subst, if◌then◌else◌,
  All,
}
use heli.Common.Text.{count_char, before_char}
use heli.Persist.Recorder.{UpdateDoc, no_update, whole_doc, fields, new_single_doc_recorder}
use heli.Persist.Store.{Memory, assigned, whole_part, Mongo}
use heli.Persist.Persister.{read_only, DataPersister, not_found, unmarshalled, validate_update_path}
use heli.Persist.Guards.{
  PersisterCall, loads, gets_data, saves as saves_now, adds_update_op, replaces, call_all,
  flags_guard,
}
use heli.Persist.Saves.{
  SaveEvent, sets, unsets, saves_all, saves, save_doc, handle_all, Fits, saved-eq_memory,
}

abbrev Paths : Type 0
Paths = String → Option ℤ

abbrev within : String → Memory ℤ → Paths → String → Option ℤ
within prefix mem d q = if starts_with q prefix then mem (slice q (len prefix) (len q)) else d q

abbrev update : UpdateDoc ℤ → Memory ℤ → Paths → Paths
update no_update mem d = d
update (whole_doc parent) mem d = within (parent +++ ".") mem d
update (fields a b) mem d = λ q. assigned (whole_part a) (whole_part b) q (d q)

within-eq :
    (prefix path : String) (mem : Memory ℤ) (d : Paths)
    → within prefix mem d (prefix +++ path) ≡ mem path
within-eq prefix path mem d =
    let there = starts_with-append prefix path in
    let long = len-append prefix path in
    let rest = slice-append_right prefix path in rw (there, long, rest) refl

abbrev mongo : Mongo ℤ (λ path. Unit {0})
mongo = record {
  Doc = Paths;
  read = λ d. d;
  update_one = update;
  read_fields = λ a b mem d path la lb apart l. refl;
  read_whole = λ parent mem d path l.
      subst (λ (q : String). within (parent +++ ".") mem d q ≡ mem path)
        (append_assoc parent "." path) (within-eq (parent +++ ".") path mem d);
}

abbrev nothing : Paths
nothing path = none

abbrev changes : List (SaveEvent ℤ)
changes = sets "it.5" (pos 3) ∷ saves ∷ unsets "it.5" ∷ sets "gold" (pos 9) ∷ saves_all ∷ []

changes-Fits : All (Fits (λ path. Unit {0}) mongo "pack") changes
unfolding count_char
changes-Fits = ((tt, refl), (tt, ((tt, refl), ((tt, refl), (tt, tt)))))

saved-eq_memory_example :
    let s =
      save_doc
        (λ path. Unit {0})
        mongo
        "pack"
        (handle_all
          (λ path. Unit {0})
          mongo
          "pack"
          changes
          (nothing, new_single_doc_recorder "pack", nothing)) in
    s.2 "pack.it.5" ≡ s.0 "it.5"
saved-eq_memory_example =
    saved-eq_memory (λ path. Unit {0}) mongo "pack" nothing nothing changes "it.5" changes-Fits
      (λ q l. refl) tt

-- A persister of a number that was loaded, and is read-only.
abbrev viewed : DataPersister ℤ ℤ
viewed = record {
  data_of = some (pos 7);
  recorder = new_single_doc_recorder "task";
  loaded = true;
  mode = read_only;
  writes = [];
}

abbrev reads : List (PersisterCall ℤ ℤ)
reads =
    loads (unmarshalled (λ old. some (pos 8)))
    ∷ adds_update_op "gold" (pos 3)
    ∷ saves_now true
    ∷ gets_data not_found
    ∷ []

-- The part before the dot must be a map's field.
nested_path : validate_update_path false (λ path. path == "it") "it.5" ≡ true
unfolding validate_update_path count_char before_char
nested_path = refl

flags_guard_example :
    let q = call_all false (λ path. true) reads viewed in
    (read_only ≡ read_only
      → (q.mode ≡ read_only) × (q.recorder ≡ viewed.recorder) × (q.writes ≡ []))
    × (All (λ c. replaces c ≡ false) reads
        → true ≡ true
        → (q.loaded ≡ true) × (q.data_of ≡ some (pos 7)))
flags_guard_example = flags_guard false (λ path. true) reads viewed
