-- ===== src/Operation/Metadata.antt =====
-- The loop of `__post_init__` over the metadata.
use Prim.Native.String.{◌++◌ as text_append}
use mathlib.Core.List.{append_assoc, append-nil}
use pasi_engineering_workspa.Prelude.{
  ◌≡◌, refl, true, false, String, str_eq, Result, ok, ◌>>=◌, ◌≤◌, ◌+◌, none, [], ◌∷◌, ◌++◌, length,
  All, arith, eq_iff, >>=-eq-ok, Bool-cases, inl, inr, subst, sym, ap, suc, ◌∙◌,
}
use pasi_engineering_workspa.Dict.{Dict, lookup, put, lookup-put, length-put}
use pasi_engineering_workspa.Json.{Value, Fields, str, end, field, entries}
use pasi_engineering_workspa.Operation.Text.{
  OperationError, bounded_string, IsNormal, bounded_string-IsNormal, bounded_string-eq_of_IsNormal,
}

unfoldable pub normalize_metadata : Dict String → Fields → Result OperationError (Dict String)
normalize_metadata done end = ok done
normalize_metadata done (field k v rest) = do
  key ← bounded_string "metadata key" 128 false (str k)
  value ← bounded_string (text_append "metadata[" (text_append key "]")) 1024 true v
  normalize_metadata (put key value done) rest

abbrev pub to_fields : Dict String → Fields
to_fields [] = end
to_fields ((k, v) ∷ d) = field k (str v) (to_fields d)

abbrev pub Entry : String × String → Type 0
Entry e = IsNormal 128 false e.0 × IsNormal 1024 true e.1

-- No key stands twice.
abbrev pub Distinct : Dict String → Type 0
Distinct [] = Unit
Distinct ((k, v) ∷ d) = (lookup k d ≡ none) × Distinct d

pub record IsMetadata (d : Dict String) : Type 0 where
  pub entry : All Entry d
  pub distinct : Distinct d

put-Entry : (k v : String) (d : Dict String) → Entry (k, v) → All Entry d → All Entry (put k v d)
unfolding put
put-Entry k v [] e h = (e, tt)
put-Entry k v ((i, w) ∷ d) e (he, h) = elim (Bool-cases (str_eq i k)) [
  | inl same ↦ rw same ((subst (IsNormal 128 false) (sym ((eq_iff i k).0 same)) e.0, e.1), h)
  | inr other ↦ rw other (he, put-Entry k v d e h)
]

put-Distinct : (k v : String) (d : Dict String) → Distinct d → Distinct (put k v d)
unfolding put lookup
put-Distinct k v [] h = (refl, tt)
put-Distinct k v ((i, w) ∷ d) (f, h) =
    ground (arith, eq_iff i k, eq_iff k i, lookup-put k i v d, put-Distinct k v d h)

-- One accepted entry: its normal key and value are put, and the loop goes on.
normalize_metadata_step :
    (done : Dict String) (k : String) (v : Value) (rest : Fields) {d : Dict String}
    → normalize_metadata done (field k v rest) ≡ ok d
    → (key value : String) × Entry (key, value)
      × (normalize_metadata (put key value done) rest ≡ ok d)
unfolding normalize_metadata
normalize_metadata_step done k v rest e =
    let (key, ek, e₁) = >>=-eq-ok _ _ e in
    let (value, ev, e₂) = >>=-eq-ok _ _ e₁ in
    (
      key,
      value,
      (bounded_string-IsNormal _ 128 false (str k) ek, bounded_string-IsNormal _ 1024 true v ev),
      e₂,
    )

pub normalize_metadata-IsMetadata :
    (done : Dict String) (fields : Fields) {d : Dict String}
    → IsMetadata done
    → normalize_metadata done fields ≡ ok d
    → IsMetadata d
normalize_metadata-IsMetadata done end h e =
    subst IsMetadata {x = done} (unfold normalize_metadata in cc) h
normalize_metadata-IsMetadata done (field k v rest) h e =
    let (key, value, entry, e₁) = normalize_metadata_step done k v rest e in
    normalize_metadata-IsMetadata (put key value done) rest
      (record {
        entry = put-Entry key value done entry h.entry;
        distinct = put-Distinct key value done h.distinct;
      })
      e₁

pub length-normalize_metadata :
    (done : Dict String) (fields : Fields) {d : Dict String}
    → normalize_metadata done fields ≡ ok d
    → length d ≤ length done + length (entries fields)
length-normalize_metadata done end e = unfold normalize_metadata in ground arith
length-normalize_metadata done (field k v rest) e =
    let (key, value, entry, e₁) = normalize_metadata_step done k v rest e in
    omega (arith, length-put key value done, length-normalize_metadata (put key value done) rest e₁)

-- A key that stands further on is found.
lookup-append_middle :
    (i k v : String) (done rest : Dict String)
    → lookup i (done ++ (k, v) ∷ rest) ≡ none
    → str_eq k i ≡ false
unfolding lookup
lookup-append_middle i k v [] rest h = ground arith
lookup-append_middle i k v ((j, w) ∷ done) rest h =
    ground (arith, lookup-append_middle i k v done rest)

put-eq-append :
    (k v : String) (done rest : Dict String)
    → Distinct (done ++ (k, v) ∷ rest)
    → put k v done ≡ done ++ (k, v) ∷ []
unfolding put lookup
put-eq-append k v [] rest h = refl
put-eq-append k v ((i, w) ∷ done) rest (f, h) =
    ground (arith, eq_iff i k, put-eq-append k v done rest h, lookup-append_middle i k v done rest)

-- Metadata in normal form is left as it is.
pub normalize_metadata-to_fields :
    (done d : Dict String)
    → All Entry d
    → Distinct (done ++ d)
    → normalize_metadata done (to_fields d) ≡ ok (done ++ d)
unfolding normalize_metadata
normalize_metadata-to_fields done [] e h = rw append-nil
normalize_metadata-to_fields done ((k, v) ∷ d) (e, es) h =
    simp
      (
        bounded_string-eq_of_IsNormal "metadata key" k e.0,
        bounded_string-eq_of_IsNormal (text_append "metadata[" (text_append k "]")) v e.1,
        put-eq-append k v done d h,
      )
      (normalize_metadata-to_fields (done ++ (k, v) ∷ []) d es (rw append_assoc h)
        ∙ ap ok (append_assoc done ((k, v) ∷ []) d))

pub length-to_fields : (d : Dict String) → length (entries (to_fields d)) ≡ length d
length-to_fields [] = refl
length-to_fields ((k, v) ∷ d) = ap suc (length-to_fields d)
