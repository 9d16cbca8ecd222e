-- ===== src/Persist/Store.antt =====
-- src/deps/mongoclient/simple_record.go: what the updates that it generates do to a document.
use Prim.Native.String.{◌++◌ as ◌+++◌}
use text.Mathlib.Text.{◌==◌ as str_eq}
use text.Mathlib.TextLemmas.{append_cancel_left}
use text.Mathlib.TextEquality.{eq_iff}
use heli.Common.{
  String, List, [], ◌∷◌, Option, none, some, ◌≡◌, ◌≢◌, refl, sym, ap, ◌∙◌, inl, inr, arith,
  if◌then◌else◌, string_eq, Bool-cases, All,
}
use heli.Common.Table.{Table, find, insert, erase, find-insert, find-erase, find-insert_ne}
use heli.Persist.Recorder.{UpdateDoc, whole_doc, fields, part, full_paths}

-- The values in memory, by their paths in the sub-document.
abbrev pub Memory {ℓ} : Type ℓ → Type ℓ
Memory V = String → Option V

abbrev pub full : String → String → String
full parent path = parent +++ ("." +++ path)

-- The new value, or none if the path is to be removed, or the old one.
abbrev pub chosen {ℓ} : {V : Type ℓ} → Option V → Option (Unit {0}) → Option V → Option V
chosen (some v) _ old = some v
chosen none (some u) old = none
chosen none none old = old

-- What `$set` and `$unset` leave at a path that held `old`.
abbrev pub assigned {ℓ} :
    {V : Type ℓ} → Table String V → Table String (Unit {0}) → String → Option V → Option V
assigned sets unsets path old = chosen (find path sets) (find path unsets) old

abbrev pub whole_part {ℓ} : {A : Type ℓ} → Option (List A) → List A
whole_part none = []
whole_part (some xs) = xs

-- The maps name no path twice.
abbrev pub Apart {ℓ} : {V : Type ℓ} → Table String V → Table String (Unit {0}) → Type 0
Apart sets unsets = All (λ e. find e.0 unsets ≡ none) sets

abbrev pub Leaves {ℓ} : {V : Type ℓ} → (String → Type 0) → Table String V → Type 0
Leaves IsLeaf m = All (λ e. IsLeaf e.0) m

-- A collection of MongoDB. `IsLeaf` are the paths of fields none of which lies in another, and `read` is
-- what a document holds at a path. `$set` and `$unset` of such fields change these and no other; `$set` of
-- a whole sub-document puts its fields in.
pub record Mongo {ℓ} (V : Type ℓ) (IsLeaf : String → Type 0) : Type (ℓ + 1) where
  pub Doc : Type ℓ
  pub read : Doc → String → Option V
  pub update_one : UpdateDoc V → Memory V → Doc → Doc
  pub read_fields :
      (sets : Option (Table String V)) (unsets : Option (Table String (Unit {0}))) (mem : Memory V)
      (d : Doc) (path : String)
      → Leaves IsLeaf (whole_part sets)
      → Leaves IsLeaf (whole_part unsets)
      → Apart (whole_part sets) (whole_part unsets)
      → IsLeaf path
      → read (update_one (fields sets unsets) mem d) path
        ≡ assigned (whole_part sets) (whole_part unsets) path (read d path)
  pub read_whole :
      (parent : String) (mem : Memory V) (d : Doc) (path : String)
      → IsLeaf (full parent path)
      → read (update_one (whole_doc parent) mem d) (full parent path) ≡ mem path

pub full-eq : (parent p q : String) → str_eq (full parent p) (full parent q) ≡ str_eq p q
full-eq parent p q = elim (Bool-cases (str_eq p q)) [
  | inl same ↦
      let e = (eq_iff p q).0 same in
      ((eq_iff (full parent p) (full parent q)).1 (ap (full parent) e)) ∙ sym same
  | inr other ↦ elim (Bool-cases (str_eq (full parent p) (full parent q))) [
    | inr other' ↦ other' ∙ sym other
    | inl same' ↦
        let e = (eq_iff (full parent p) (full parent q)).0 same' in
        let e' = append_cancel_left "." p q (append_cancel_left parent ("." +++ p) ("." +++ q) e) in
        absurd (ground (arith, (eq_iff p q).1 e'))
  ]
]

pub find-full_paths {ℓ} :
    {W : Type ℓ} (parent path : String) (m : Table String W)
    → find (full parent path) (full_paths parent m) ≡ find path m
unfolding find full_paths
find-full_paths parent path [] = refl
find-full_paths parent path ((p, v) ∷ m) =
    rw (full-eq parent p path) (ground (arith, find-full_paths parent path m))

pub whole-part {ℓ} : {A : Type ℓ} (xs : List A) → whole_part (part xs) ≡ xs
whole-part [] = refl
whole-part (x ∷ xs) = refl

pub full_paths-Leaves {ℓ} :
    {W : Type ℓ} (IsLeaf : String → Type 0) (parent : String) (m : Table String W)
    → Leaves (λ p. IsLeaf (full parent p)) m
    → Leaves IsLeaf (full_paths parent m)
unfolding full_paths
full_paths-Leaves IsLeaf parent [] a = tt
full_paths-Leaves IsLeaf parent ((p, v) ∷ m) (l, a) = (l, full_paths-Leaves IsLeaf parent m a)

pub full_paths-Apart {ℓ} :
    {V : Type ℓ} (parent : String) (sets : Table String V) (unsets : Table String (Unit {0}))
    → Apart sets unsets
    → Apart (full_paths parent sets) (full_paths parent unsets)
unfolding full_paths
full_paths-Apart parent [] unsets a = tt
full_paths-Apart parent ((p, v) ∷ sets) unsets (n, a) =
    (find-full_paths parent p unsets ∙ n, full_paths-Apart parent sets unsets a)

pub unset-Apart {ℓ} :
    {V : Type ℓ} (p : String) (m : Table String V) (u : Table String (Unit {0}))
    → Apart m u
    → Apart (erase p m) (insert p tt u)
unfolding erase
unset-Apart p [] u a = tt
unset-Apart p ((j, w) ∷ m) u (n, a) = elim (Bool-cases (str_eq j p)) [
  | inl same ↦ rw (same, erase) (unset-Apart p m u a)
  | inr other ↦
      let apart : p ≢ j = λ e. ground (arith, (eq_iff j p).1 (sym e)) in
      rw (other, erase) (find-insert_ne p j tt u apart ∙ n, unset-Apart p m u a)
]

pub assigned_set {ℓ} :
    {V : Type ℓ} (p q : String) (v : V) (m : Table String V) (u : Table String (Unit {0}))
    (old : Option V)
    → assigned (insert p v m) (erase p u) q old
      ≡ (if str_eq p q then some v else assigned m u q old)
assigned_set p q v m u old = rw (assigned, find-insert p q v m, find-erase p q u) (ground arith)

pub assigned_unset {ℓ} :
    {V : Type ℓ} (p q : String) (m : Table String V) (u : Table String (Unit {0})) (old : Option V)
    → assigned (erase p m) (insert p tt u) q old ≡ (if str_eq p q then none else assigned m u q old)
assigned_unset p q m u old = rw (assigned, find-erase p q m, find-insert p q tt u) (ground arith)
