-- ===== src/Context.antt =====
-- `ContextCompiler` of src/pasi/core/context_compiler.py. What `json.dumps` and SHA-256 make of the
-- contents is an argument, and so is `str.lower`, for the retriever.
pub mod Laws
mod Tests
use Prim.Native.String.{count, ◌++◌ as text_append}
use pasi_engineering_workspa.Prelude.{
  ℕ, Bool, true, false, not, ◌&&◌, ◌||◌, String, str_eq, Result, ok, err, raise_if, map_err, ◌>>=◌,
  ◌>>◌, Option, none, some, List, [], ◌∷◌, ◌++◌, map, any, is_empty, ltb, leb, if◌then◌else◌,
}
use pasi_engineering_workspa.Text.{strip, is_blank}
use pasi_engineering_workspa.Text.Order.{leb_text}
use pasi_engineering_workspa.Dict.{Dict, lookup, put}
use pasi_engineering_workspa.Sort.{sort}
use pasi_engineering_workspa.Roadmap.Model.{RoadmapTask}
use pasi_engineering_workspa.Memory.{MemoryTable}
use pasi_engineering_workspa.Memory.Compaction.{set_of}
use pasi_engineering_workspa.Memory.Learning.{join_by, eq_texts}
use pasi_engineering_workspa.Memory.Retrieval.{RetrievedMemory, RetrievalError, search_memory}

-- The arguments of a `ContextSource`
pub record ContextSource : Type 0 where
  pub source_id : String
  pub kind : String
  pub text : String
  pub provenance_refs : List String

-- The messages of `ContextCompilationError`, and what the retriever raises
pub data ContextError : Type 0 where
  no_source_id no_source_kind empty_text long_text bad_provenance : ContextError
  no_context_scope bad_max_chars conflicting_source long_context : ContextError
  retrieval_error : RetrievalError → ContextError

-- `ContextSource.__post_init__`
unfoldable pub check_context_source : ContextSource → Result ContextError (Unit {0})
check_context_source s = do
  raise_if (is_blank (strip s.source_id)) no_source_id
  raise_if (is_blank (strip s.kind)) no_source_kind
  raise_if (is_blank (strip s.text)) empty_text
  raise_if (ltb 8000 (count s.text)) long_text
  raise_if (is_empty s.provenance_refs || any (λ ref. is_blank (strip ref)) s.provenance_refs)
      bad_provenance

-- The constructor
unfoldable pub make_source : ContextSource → Result ContextError ContextSource
unfolding check_context_source
make_source s = check_context_source s >> ok s

-- `==` of two sources
unfoldable pub same_source : ContextSource → ContextSource → Bool
same_source a b =
    str_eq a.source_id b.source_id
    && str_eq a.kind b.kind
    && str_eq a.text b.text
    && eq_texts a.provenance_refs b.provenance_refs

-- The first source, that of the task
unfoldable pub task_source : RoadmapTask → ContextSource
unfolding join_by
task_source t = record {
  source_id = text_append "task:" t.id;
  kind = "roadmap_task";
  text = join_by "" (
      "Task: "
      ∷ t.title
      ∷ "\nAcceptance:\n- "
      ∷ join_by "\n- " t.acceptance_requirements
      ∷ "\nEvidence:\n- "
      ∷ join_by "\n- " t.evidence_requirements
      ∷ []);
  provenance_refs = text_append "roadmap://task/" t.id ∷ [];
}

abbrev pub source_before : ContextSource → ContextSource → Bool
source_before a b = leb_text a.source_id b.source_id

abbrev pub memory_source : RetrievedMemory → ContextSource
memory_source m = record {
  source_id = text_append "memory:" m.memory_id;
  kind = m.kind;
  text = m.content;
  provenance_refs = m.provenance_refs;
}

-- The constructors of the sources that are retrieved
unfoldable pub memory_sources : List RetrievedMemory → Result ContextError (List ContextSource)
unfolding make_source
memory_sources [] = ok []
memory_sources (m ∷ retrieved) = do
  s ← make_source (memory_source m)
  rest ← memory_sources retrieved
  ok (s ∷ rest)

-- `existing is not None and existing != source`
unfoldable pub is_conflict : Option ContextSource → ContextSource → Bool
unfolding same_source
is_conflict none s = false
is_conflict (some existing) s = not (same_source existing s)

-- The loop that fills `deduped`
unfoldable pub dedupe :
    List ContextSource → Dict ContextSource → Result ContextError (Dict ContextSource)
unfolding is_conflict
dedupe [] deduped = ok deduped
dedupe (s ∷ sources) deduped =
    raise_if (is_conflict (lookup s.source_id deduped) s) conflicting_source
    >> dedupe sources (put s.source_id s deduped)

abbrev pub dict_values : Dict ContextSource → List ContextSource
dict_values [] = []
dict_values ((id, s) ∷ d) = s ∷ dict_values d

-- One of the parts of the text
unfoldable pub context_part : ContextSource → String
unfolding join_by
context_part s = join_by "" (
    "["
    ∷ s.source_id
    ∷ "]\n"
    ∷ s.text
    ∷ "\nPROVENANCE: "
    ∷ join_by ", " (sort leb_text s.provenance_refs)
    ∷ [])

unfoldable pub refs_of : List ContextSource → List String
refs_of [] = []
refs_of (s ∷ sources) = s.provenance_refs ++ refs_of sources

-- `CompiledContext`, but for the version of the compiler, which is 1
pub record CompiledContext : Type 0 where
  pub task_id : String
  pub scope : String
  pub sources : List ContextSource
  pub context_text : String
  pub source_ids : List String
  pub provenance_refs : List String
  pub sha256 : String

module _ (lower : String → String) where
  -- The sources that the query adds
  unfoldable pub retrieved_sources :
      String → String → Option String → MemoryTable → Result ContextError (List ContextSource)
  unfolding memory_sources
  retrieved_sources now scope none table = ok []
  retrieved_sources now scope (some query) table = elim (is_blank (strip query)) [
    | true ↦ ok []
    | false ↦ do
      found ← map_err retrieval_error (search_memory lower now (strip query) scope none 20 table)
      memory_sources found
  ]

-- The argument `digest` is given the contents: the task, the scope, the ids, the text and the
-- references.
module _ (digest : String → String → List String → String → List String → String)
    (lower : String → String) where
  -- The end of `compile`, with the sources in the order of their ids
  unfoldable pub compiled :
      RoadmapTask → String → ℕ → List ContextSource → Result ContextError CompiledContext
  unfolding context_part refs_of set_of
  compiled task scope max_chars ordered =
      let text = join_by "\n\n" (map context_part ordered) in
      let ids = map (λ (s : ContextSource). s.source_id) ordered in
      let refs = sort leb_text (set_of (refs_of ordered)) in
      raise_if (ltb max_chars (count text)) long_context
      >> ok (record {
        task_id = task.id;
        scope = scope;
        sources = ordered;
        context_text = text;
        source_ids = ids;
        provenance_refs = refs;
        sha256 = digest task.id scope ids text refs;
      })

  -- `compile`
  unfoldable pub compile_context :
      String
      → RoadmapTask
      → String
      → List ContextSource
      → Option String
      → ℕ
      → MemoryTable
      → Result ContextError CompiledContext
  unfolding task_source make_source retrieved_sources dedupe compiled
  compile_context now task scope extra query max_chars table = do
    raise_if (is_blank (strip scope)) no_context_scope
    raise_if (leb max_chars 0 || ltb 32000 max_chars) bad_max_chars
    first ← make_source (task_source task)
    retrieved ← retrieved_sources lower now (strip scope) query table
    deduped ← dedupe (first ∷ sort source_before extra ++ retrieved) []
    compiled task (strip scope) max_chars (sort source_before (dict_values deduped))
