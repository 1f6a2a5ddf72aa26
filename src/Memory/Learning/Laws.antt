-- ===== src/Memory/Learning/Laws.antt =====
-- What `promote` of src/pasi/core/cross_run_learning.py asks of the sources, and what it writes.
use pasi_engineering_workspa.Prelude.{
  ℤ, ltb_ℤ, ◌≡◌, refl, sym, ap, subst, ◌∙◌, ◌⊎◌, inl, inr, Bool, true, false, not, ◌&&◌, String,
  str_eq, eq_iff, &&_true, ok, map_err, map_err-eq-ok, >>=-eq-ok, raise_if->>=-eq-ok,
  raise_if-eq-ok, ok-injective, none, Option-cases, List, [], ◌∷◌, is_empty, All, arith,
}
use pasi_engineering_workspa.Text.{is_blank, subset}
use pasi_engineering_workspa.Text.Order.{leb_text}
use pasi_engineering_workspa.Dict.{lookup, put}
use pasi_engineering_workspa.Sort.{sort, All-map}
use pasi_engineering_workspa.Memory.{
  MemoryRecord, MemoryTable, is_active_memory, make_memory, get_memory, create_memory,
}
use pasi_engineering_workspa.Memory.Writes.{make_memory-eq-ok}
use pasi_engineering_workspa.Memory.Compaction.{set_of, all_refs}
use pasi_engineering_workspa.Memory.Compaction.Plans.{refs_of_member, elem-refs}
use pasi_engineering_workspa.Memory.Learning.{
  LearningProposal, store_error, check_proposal, get_all, check_source, check_sources, promoted,
  least_of, eq_texts, same_learning, create_or_find, promote,
}

-- A source that may be promoted
pub record IsFit (minimum : ℤ) (m : MemoryRecord) : Type 0 where
  pub active : is_active_memory m.status ≡ true
  pub referenced : is_empty m.provenance_refs ≡ false
  pub operation : is_blank m.source_operation_id ≡ false
  pub confident : ltb_ℤ m.confidence minimum ≡ false

pub true_of_not : (b : Bool) → not b ≡ false → b ≡ true
true_of_not b h = ground arith

check_source-IsFit :
    (minimum : ℤ) (m : MemoryRecord) {u : Unit {0}}
    → check_source minimum m ≡ ok u
    → IsFit minimum m
unfolding check_source
check_source-IsFit minimum m h =
    let (active, h₁) = raise_if->>=-eq-ok (not (is_active_memory m.status)) _ _ h in
    let (referenced, h₂) = raise_if->>=-eq-ok (is_empty m.provenance_refs) _ _ h₁ in
    let (operation, h₃) = raise_if->>=-eq-ok (is_blank m.source_operation_id) _ _ h₂ in
    record {
      active = true_of_not (is_active_memory m.status) active;
      referenced = referenced;
      operation = operation;
      confident = raise_if-eq-ok (ltb_ℤ m.confidence minimum) _ h₃;
    }

check_sources-IsFit :
    (minimum : ℤ) (sources : List MemoryRecord) {u : Unit {0}}
    → check_sources minimum sources ≡ ok u
    → All (IsFit minimum) sources
unfolding check_sources
check_sources-IsFit minimum [] h = tt
check_sources-IsFit minimum (m ∷ sources) h =
    let (u, first, rest) =
      >>=-eq-ok (check_source minimum m) (λ u. check_sources minimum sources) h in
    (check_source-IsFit minimum m first, check_sources-IsFit minimum sources rest)

pub eq_texts-eq : (xs ys : List String) → eq_texts xs ys ≡ true → xs ≡ ys
unfolding eq_texts
eq_texts-eq [] [] h = refl
eq_texts-eq [] (y ∷ ys) h = cc
eq_texts-eq (x ∷ xs) [] h = cc
eq_texts-eq (x ∷ xs) (y ∷ ys) h =
    let (first, rest) = &&_true (str_eq x y) (eq_texts xs ys) h in
    let head : x ≡ y = ground (arith, eq_iff x y) in
    ap (λ z. z ∷ xs) head ∙ ap (λ zs. y ∷ zs) (eq_texts-eq xs ys rest)

-- The record that is returned says what the new one says. Either it is new, or nothing is written.
record IsFound (new : MemoryRecord) (table next : MemoryTable) (found : MemoryRecord) : Type 0 where
  scope : found.scope ≡ new.scope
  content : found.content ≡ new.content
  refs : found.provenance_refs ≡ new.provenance_refs
  written :
      (next ≡ table)
      ⊎ ((lookup new.memory_id table ≡ none)
          × (next ≡ put new.memory_id found table)
          × (found ≡ new))

same_learning-IsFound :
    (new existing : MemoryRecord) (table : MemoryTable)
    → same_learning existing new ≡ true
    → IsFound new table table existing
unfolding same_learning
same_learning-IsFound new existing table h =
    let (names, refs) =
      &&_true (str_eq existing.scope new.scope && str_eq existing.content new.content) _ h in
    let (scope, content) = &&_true (str_eq existing.scope new.scope) _ names in
    record {
      scope = ground (arith, eq_iff existing.scope new.scope);
      content = ground (arith, eq_iff existing.content new.content);
      refs = eq_texts-eq existing.provenance_refs new.provenance_refs refs;
      written = inl refl;
    }

create_or_find-IsFound :
    (now : String) (new : MemoryRecord) (table : MemoryTable) {next : MemoryTable}
    {found : MemoryRecord}
    → create_or_find now new table ≡ ok (next, found)
    → IsFound new table next found
unfolding create_or_find create_memory
create_or_find-IsFound now new table {next} {found} h =
    elim (Option-cases (lookup new.memory_id table)) [
      | inl free ↦
          let pair = ok-injective (rw (create_or_find, create_memory, free) at h) in
          let found_is : new ≡ found = ap (λ (w : MemoryTable × MemoryRecord). w.1) pair in
          record {
            scope = ap (λ (m : MemoryRecord). m.scope) (sym found_is);
            content = ap (λ (m : MemoryRecord). m.content) (sym found_is);
            refs = ap (λ (m : MemoryRecord). m.provenance_refs) (sym found_is);
            written = inr (
              free,
              ap (λ (w : MemoryTable × MemoryRecord). w.0) (sym pair)
                  ∙ ap (λ m. put new.memory_id m table) found_is,
              sym found_is,
            );
          }
      | inr (row, taken) ↦
          let (existing, got, h₁) =
            >>=-eq-ok (map_err store_error (get_memory now new.memory_id table)) _
              (rw (create_or_find, create_memory, taken) at h) in
          let (same, h₂) = raise_if->>=-eq-ok (not (same_learning existing new)) _ _ h₁ in
          let pair = ok-injective h₂ in
          subst (λ (w : MemoryTable × MemoryRecord). IsFound new table w.0 w.1) pair
            (same_learning-IsFound new existing table
              (true_of_not (same_learning existing new) same))
    ]

-- What was promoted
pub record IsPromoted (p : LearningProposal) (sources : List MemoryRecord)
    (table next : MemoryTable) (learned : MemoryRecord) : Type 0 where
  pub fit : All (IsFit p.minimum_confidence) sources
  pub scope : learned.scope ≡ p.target_scope
  pub content : learned.content ≡ p.content
  pub refs :
      All (λ (m : MemoryRecord). subset m.provenance_refs learned.provenance_refs ≡ true) sources
  pub written :
      (next ≡ table)
      ⊎ ((id : String) × (lookup id table ≡ none)
          × (next ≡ put id learned table)
          × (learned.confidence ≡ least_of sources))

module _ (sha256 : String → String) (now : String) (p : LearningProposal)
    (table : MemoryTable) where
  -- A promotion that succeeds has read every source it names: each is active, has references and an
  -- operation, and has at least the confidence that is asked for. The record that is returned is about
  -- the scope and the content of the proposal and has all the references of the sources; either it is
  -- written under a name that was free, with the least of the confidences, or nothing is written.
  pub promote-IsPromoted :
      {next : MemoryTable} {learned : MemoryRecord}
      → promote sha256 now p table ≡ ok (next, learned)
      → (sources : List MemoryRecord) × (get_all now table p.source_memory_ids ≡ ok sources)
        × IsPromoted p sources table next learned
  unfolding promote promoted
  promote-IsPromoted {next} {learned} h =
      let (u, checked, h₁) = >>=-eq-ok (check_proposal p) _ h in
      let (sources, got, h₂) =
        >>=-eq-ok (map_err store_error (get_all now table p.source_memory_ids)) _ h₁ in
      let (v, fit, h₃) = >>=-eq-ok (check_sources p.minimum_confidence sources) _ h₂ in
      let args = promoted sha256 p sources (least_of sources) in
      let (new, made, h₄) =
        >>=-eq-ok (map_err store_error (make_memory now args)) (λ m. create_or_find now m table)
          h₃ in
      let new_is = make_memory-eq-ok now args (map_err-eq-ok store_error _ made) in
      let found = create_or_find-IsFound now new table h₄ in
      let refs_is : learned.provenance_refs ≡ sort leb_text (set_of (all_refs sources)) =
        found.refs ∙ ap (λ (m : MemoryRecord). m.provenance_refs) new_is in
      (
        sources,
        map_err-eq-ok store_error _ got,
        record {
          fit = check_sources-IsFit p.minimum_confidence sources fit;
          scope = found.scope ∙ ap (λ (m : MemoryRecord). m.scope) new_is;
          content = found.content ∙ ap (λ (m : MemoryRecord). m.content) new_is;
          refs =
              All-map sources (λ m e. ap (subset m.provenance_refs) refs_is ∙ e)
                (refs_of_member _ sources (elem-refs sources));
          written = elim found.written [
            | inl same ↦ inl same
            | inr (free, next_is, learned_is) ↦ inr (
              new.memory_id,
              free,
              next_is,
              ap (λ (m : MemoryRecord). m.confidence) (learned_is ∙ new_is),
            )
          ];
        },
      )
