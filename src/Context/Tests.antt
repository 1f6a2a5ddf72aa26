-- ===== src/Context/Tests.antt =====
-- Tests of src/pasi/core/context_compiler.py at small inputs.
use pasi_engineering_workspa.Prelude.{
  pos, ◌≡◌, refl, String, ok, err, none, some, List, [], ◌∷◌, any,
}
use pasi_engineering_workspa.Text.{strip, elem}
use pasi_engineering_workspa.Dict.{lookup, put}
use pasi_engineering_workspa.Sort.{sort}
use pasi_engineering_workspa.Roadmap.Model.{RoadmapTask, TaskStatus}
use pasi_engineering_workspa.Memory.Compaction.{set_of}
use pasi_engineering_workspa.Memory.Learning.{join_by}
use pasi_engineering_workspa.Context.{
  ContextSource, ContextError, CompiledContext, check_context_source, make_source, task_source,
  retrieved_sources, is_conflict, same_source, dedupe, context_part, refs_of, compiled,
  compile_context,
}
use pasi_engineering_workspa.Context.Laws.{IsCompiled, compile_context-IsCompiled}

abbrev task : RoadmapTask
task = record {
  id = "t";
  title = "Title";
  phase_id = "p";
  depends_on = [];
  acceptance_requirements = "a" ∷ [];
  evidence_requirements = "e" ∷ "f" ∷ [];
  parent_task_id = "";
  source_issue_number = none;
  source_url = "";
  source_title = "";
  status = TaskStatus.planned;
  revision = pos 0;
}

abbrev doc : String → ContextSource
doc text = record { source_id = "doc"; kind = "doc"; text = text; provenance_refs = "r" ∷ [] }

abbrev digest : String → String → List String → String → List String → String
digest id scope ids text refs = join_by "," ids

abbrev as_it_is : String → String
as_it_is s = s

abbrev context : CompiledContext
context = record {
  task_id = "t";
  scope = "repo";
  sources = doc "text" ∷ task_source task ∷ [];
  context_text =
      "[doc]\ntext\nPROVENANCE: r\n\n[task:t]\nTask: Title\nAcceptance:\n- a\nEvidence:\n- e\n- f\nPROVENANCE: roadmap://task/t";
  source_ids = "doc" ∷ "task:t" ∷ [];
  provenance_refs = "r" ∷ "roadmap://task/t" ∷ [];
  sha256 = "doc,task:t";
}

made :
    compile_context digest as_it_is "now" task " repo" (doc "text" ∷ []) (some " ") 200 []
    ≡ ok context
unfolding compile_context make_source check_context_source task_source retrieved_sources dedupe
    is_conflict compiled context_part refs_of join_by set_of strip elem any lookup put sort
made = refl

conflicting :
    compile_context digest as_it_is "now" task "repo" (doc "text" ∷ doc "other" ∷ []) none 200 []
    ≡ err ContextError.conflicting_source
unfolding compile_context make_source check_context_source task_source retrieved_sources dedupe
    is_conflict same_source join_by strip any lookup put sort
conflicting = refl

too_long :
    compile_context digest as_it_is "now" task "repo" [] none 10 [] ≡ err ContextError.long_context
unfolding compile_context make_source check_context_source task_source retrieved_sources dedupe
    is_conflict compiled context_part refs_of join_by set_of strip elem any lookup put sort
too_long = refl

compile_context-IsCompiled_example :
    (retrieved : List ContextSource) × (retrieved_sources as_it_is "now"
        (strip " repo")
        (some " ")
        []
      ≡ ok retrieved)
    × IsCompiled (task_source task) (doc "text" ∷ []) retrieved 200 context
compile_context-IsCompiled_example =
    compile_context-IsCompiled digest as_it_is "now" task " repo" (doc "text" ∷ []) (some " ") 200
      [] made
