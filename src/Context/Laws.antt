-- ===== src/Context/Laws.antt =====
-- What a compiled context of src/pasi/core/context_compiler.py holds.
use Prim.Native.String.{count}
use pasi_engineering_workspa.Prelude.{
  ℕ, ◌≤◌, ◌≡◌, refl, sym, ap, subst, ◌∙◌, inl, inr, true, false, ◌&&◌, ◌||◌, String, str_eq, eq_iff,
  eq_refl, &&_true, ok, >>=-eq-ok, raise_if->>=-eq-ok, ok-injective, Option, some, Bool-cases, List,
  [], ◌∷◌, ◌++◌, map, any, All, leb, ltb, arith,
}
use pasi_engineering_workspa.Text.{strip, is_blank, elem, subset}
use pasi_engineering_workspa.Text.Order.{leb_text, leb_text_total, leb_text_trans}
use pasi_engineering_workspa.Text.Elem.{elem-append, elem-sort, subset_of_elem}
use pasi_engineering_workspa.Dict.{Dict, lookup, put, lookup-put_same, lookup-put_other}
use pasi_engineering_workspa.Sort.{sort, any-sort, IsOrdered, sort-IsOrdered, All-map}
use pasi_engineering_workspa.Roadmap.Model.{RoadmapTask}
use pasi_engineering_workspa.Memory.{MemoryTable}
use pasi_engineering_workspa.Memory.Compaction.Plans.{either, elem-set_of}
use pasi_engineering_workspa.Memory.Learning.{join_by, eq_texts}
use pasi_engineering_workspa.Memory.Learning.Laws.{eq_texts-eq, true_of_not}
use pasi_engineering_workspa.Context.{
  ContextSource, CompiledContext, make_source, same_source, check_context_source, context_part,
  is_conflict, task_source, source_before, dedupe, dict_values, refs_of, retrieved_sources,
  compiled, compile_context,
}

source_of : String → String → String → List String → ContextSource
source_of id kind text refs = record {
  source_id = id;
  kind = kind;
  text = text;
  provenance_refs = refs;
}

equal : (s t : String) → str_eq s t ≡ true → s ≡ t
equal s t h = ground (arith, eq_iff s t)

eq_texts_refl : (xs : List String) → eq_texts xs xs ≡ true
unfolding eq_texts
eq_texts_refl [] = refl
eq_texts_refl (x ∷ xs) = rw (eq_refl x, eq_texts_refl xs) refl

some-injective : {a b : ContextSource} → some a ≡ some b → a ≡ b
some-injective h = cc

-- Two sources that are the same are equal.
same_source-eq : (a b : ContextSource) → same_source a b ≡ true → a ≡ b
unfolding same_source source_of
same_source-eq a b h =
    let (h₁, refs) =
      &&_true (str_eq a.source_id b.source_id && str_eq a.kind b.kind && str_eq a.text b.text) _
        h in
    let (h₂, text) =
      &&_true (str_eq a.source_id b.source_id && str_eq a.kind b.kind) (str_eq a.text b.text) h₁ in
    let (id, kind) = &&_true (str_eq a.source_id b.source_id) (str_eq a.kind b.kind) h₂ in
    ap (λ x. source_of x a.kind a.text a.provenance_refs) (equal a.source_id b.source_id id)
    ∙ ap (λ x. source_of b.source_id x a.text a.provenance_refs) (equal a.kind b.kind kind)
    ∙ ap (λ x. source_of b.source_id b.kind x a.provenance_refs) (equal a.text b.text text)
    ∙ ap (source_of b.source_id b.kind b.text)
        (eq_texts-eq a.provenance_refs b.provenance_refs refs)

same_source_refl : (a : ContextSource) → same_source a a ≡ true
unfolding same_source
same_source_refl a =
    rw (eq_refl a.source_id, eq_refl a.kind, eq_refl a.text, eq_texts_refl a.provenance_refs) refl

no_conflict :
    (s t : ContextSource) (found : Option ContextSource)
    → found ≡ some s
    → is_conflict found t ≡ false
    → s ≡ t
unfolding is_conflict
no_conflict s t found h k =
    same_source-eq s t (true_of_not (same_source s t) (sym (ap (λ o. is_conflict o t) h) ∙ k))

dedupe-cons :
    (t : ContextSource) (sources : List ContextSource) (d : Dict ContextSource)
    {e : Dict ContextSource}
    → dedupe (t ∷ sources) d ≡ ok e
    → (is_conflict (lookup t.source_id d) t ≡ false) × (dedupe sources (put t.source_id t d) ≡ ok e)
unfolding dedupe
dedupe-cons t sources d h = raise_if->>=-eq-ok (is_conflict (lookup t.source_id d) t) _ _ h

-- What is filed stays filed, as it is, and what is added is filed.
dedupe-lookup :
    (sources : List ContextSource) (d : Dict ContextSource) {e : Dict ContextSource} (id : String)
    {s : ContextSource}
    → dedupe sources d ≡ ok e
    → lookup id d ≡ some s
    → lookup id e ≡ some s
unfolding dedupe
dedupe-lookup [] d id h found = ap (lookup id) (sym (ok-injective h)) ∙ found
dedupe-lookup (t ∷ sources) d id h found =
    let (fits, rest) = dedupe-cons t sources d h in
    elim (Bool-cases (str_eq t.source_id id)) [
      | inl e ↦
          let name = equal t.source_id id e in
          let same = no_conflict _ t _ (ap (λ k. lookup k d) name ∙ found) fits in
          dedupe-lookup sources (put t.source_id t d) id rest
            (lookup-put_same t.source_id id t d e ∙ ap some (sym same))
      | inr e ↦
          dedupe-lookup sources (put t.source_id t d) id rest
            (lookup-put_other t.source_id id t d e ∙ found)
    ]

dedupe-filed :
    (sources : List ContextSource) (d : Dict ContextSource) {e : Dict ContextSource}
    → dedupe sources d ≡ ok e
    → All (λ (s : ContextSource). lookup s.source_id e ≡ some s) sources
dedupe-filed [] d h = tt
dedupe-filed (t ∷ sources) d h =
    let (fits, rest) = dedupe-cons t sources d h in
    (
      dedupe-lookup sources (put t.source_id t d) t.source_id rest
          (lookup-put_same t.source_id t.source_id t d (eq_refl t.source_id)),
      dedupe-filed sources (put t.source_id t d) rest,
    )

any-dict_values :
    (id : String) (s : ContextSource) (d : Dict ContextSource)
    → lookup id d ≡ some s
    → any (same_source s) (dict_values d) ≡ true
unfolding lookup any
any-dict_values id s [] h = cc
any-dict_values id s ((k, t) ∷ d) h = elim (Bool-cases (str_eq k id)) [
  | inl e ↦ let t_is : t ≡ s = some-injective (rw e at h) in rw (t_is, same_source_refl s) refl
  | inr e ↦ either (same_source s t) _ (any-dict_values id s d (rw e at h))
]

-- All references of each source are among those of the whole.
refs_of-subset :
    (refs : List String) (sources : List ContextSource)
    → ((x : String) → elem x (refs_of sources) ≡ true → elem x refs ≡ true)
    → All (λ (s : ContextSource). subset s.provenance_refs refs ≡ true) sources
unfolding refs_of
refs_of-subset refs [] h = tt
refs_of-subset refs (s ∷ sources) h = (
  subset_of_elem s.provenance_refs refs
      (λ x e. h x (elem-append x s.provenance_refs (refs_of sources) ∙ rw e refl)),
  refs_of-subset refs sources
      (λ x e. h x (elem-append x s.provenance_refs (refs_of sources) ∙ either _ _ e)),
)

-- What a compiled context holds
pub record IsCompiled (first : ContextSource) (extra retrieved : List ContextSource) (max_chars : ℕ)
    (c : CompiledContext) : Type 0 where
  pub fits : count c.context_text ≤ max_chars
  pub bounded : max_chars ≤ 32000
  pub holds :
      All
        (λ (s : ContextSource). any (same_source s) c.sources ≡ true)
        (first ∷ sort source_before extra ++ retrieved)
  pub ordered : IsOrdered source_before c.sources
  pub refs :
      All (λ (s : ContextSource). subset s.provenance_refs c.provenance_refs ≡ true) c.sources

bounded : (n : ℕ) → (leb n 0 || ltb 32000 n) ≡ false → n ≤ 32000
bounded n h = ground arith

at_most : (n m : ℕ) → ltb m n ≡ false → n ≤ m
at_most n m h = ground arith

module _ (digest : String → String → List String → String → List String → String)
    (lower : String → String) (now : String) (task : RoadmapTask) (scope : String)
    (extra : List ContextSource) (query : Option String) (max_chars : ℕ) (table : MemoryTable) where
  -- A context that is compiled is at most as long as asked for, and 32000 characters at most. It holds
  -- the source of the task, all the extra ones and all that the query retrieved, as they are, in the
  -- order of their ids, and its references have all of theirs.
  pub compile_context-IsCompiled :
      {c : CompiledContext}
      → compile_context digest lower now task scope extra query max_chars table ≡ ok c
      → (retrieved : List ContextSource) × (retrieved_sources lower now (strip scope) query table
          ≡ ok retrieved)
        × IsCompiled (task_source task) extra retrieved max_chars c
  unfolding compile_context compiled make_source
  compile_context-IsCompiled h =
      let (named, h₁) = raise_if->>=-eq-ok (is_blank (strip scope)) _ _ h in
      let (bound, h₂) = raise_if->>=-eq-ok (leb max_chars 0 || ltb 32000 max_chars) _ _ h₁ in
      let (first, made, h₃) = >>=-eq-ok (make_source (task_source task)) _ h₂ in
      let (u, checked, first_is) = >>=-eq-ok (check_context_source (task_source task)) _ made in
      let (retrieved, found, h₄) =
        >>=-eq-ok (retrieved_sources lower now (strip scope) query table) _ h₃ in
      let given = sort source_before extra ++ retrieved in
      let (deduped, filed, h₅) = >>=-eq-ok (dedupe (first ∷ given) []) _ h₄ in
      let kept = sort source_before (dict_values deduped) in
      let (fits, h₆) =
        raise_if->>=-eq-ok (ltb max_chars (count (join_by "\n\n" (map context_part kept)))) _ _
          h₅ in
      (
        retrieved,
        found,
        subst (IsCompiled (task_source task) extra retrieved max_chars) (ok-injective h₆) (record {
          fits = at_most _ max_chars fits;
          bounded = bounded max_chars bound;
          holds =
              subst (λ s. All (λ (s : ContextSource). any (same_source s) kept ≡ true) (s ∷ given))
                (sym (ok-injective first_is))
                (All-map (first ∷ given)
                  (λ s e.
                    any-sort source_before (same_source s) (dict_values deduped)
                    ∙ any-dict_values s.source_id s deduped e)
                  (dedupe-filed (first ∷ given) [] filed));
          ordered =
              sort-IsOrdered source_before (λ a b. leb_text_total a.source_id b.source_id)
                (λ a b c. leb_text_trans a.source_id b.source_id c.source_id) (dict_values deduped);
          refs =
              refs_of-subset _ kept
                (λ x e. elem-sort leb_text x _ ∙ elem-set_of x (refs_of kept) ∙ e);
        }),
      )
