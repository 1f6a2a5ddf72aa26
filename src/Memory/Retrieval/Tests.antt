-- ===== src/Memory/Retrieval/Tests.antt =====
-- Tests of src/pasi/core/retrieval.py at small inputs.
use pasi_engineering_workspa.Prelude.{
  ℕ, pos, ◌≡◌, refl, String, ok, err, none, some, List, [], ◌∷◌, ◌++◌, any, keep,
}
use pasi_engineering_workspa.Text.{strip, elem}
use pasi_engineering_workspa.Sort.{sort}
use pasi_engineering_workspa.Memory.{
  MemoryRecord, MemoryStatus, MemoryTable, check_memory, make_memory, row_to_memory, load_memories,
  in_scope, list_memories,
}
use pasi_engineering_workspa.Memory.Compaction.{set_of}
use pasi_engineering_workspa.Memory.Retrieval.{
  RetrievalError, RetrievedMemory, is_token_char, split_runs, find_tokens, terms, match_memory,
  match_all, search_memory,
}

abbrev fact : String → MemoryStatus → MemoryRecord
fact content status = record {
  memory_id = "m";
  scope = "repo";
  kind = "fact";
  content = content;
  provenance_refs = "r" ∷ [];
  source_operation_id = "";
  confidence = pos 0;
  status = status;
  revision = pos 0;
  created_at = "t1";
  updated_at = "t1";
}

abbrev memory : MemoryTable
memory =
    ("a", fact "use tabs, not spaces" MemoryStatus.active)
    ∷ ("b", fact "tabs" MemoryStatus.archived)
    ∷ ("c", fact "the task: use a linter" MemoryStatus.active)
    ∷ ("d", fact "nothing here" MemoryStatus.active)
    ∷ []

abbrev as_it_is : String → String
as_it_is s = s

abbrev hit : String → String → ℕ → List String → RetrievedMemory
hit id content n matched = record {
  memory_id = id;
  scope = "repo";
  kind = "fact";
  content = content;
  provenance_refs = "r" ∷ [];
  score = (n, 2);
  matched_terms = matched;
}

abbrev hits : List RetrievedMemory
hits = hit "a" "use tabs, not spaces" 2 ("tabs" ∷ "use" ∷ []) ∷ []

-- With room for more, the second one is found too.
searched_more :
    search_memory as_it_is "t9" "use the tabs!" " repo" (some "fact") 5 memory
    ≡ ok (hits ++ hit "c" "the task: use a linter" 1 ("use" ∷ []) ∷ [])
unfolding search_memory terms find_tokens split_runs is_token_char set_of list_memories in_scope
    load_memories row_to_memory make_memory check_memory match_all match_memory strip elem any keep
    sort
searched_more = refl

no_words : search_memory as_it_is "t9" "the !" "repo" none 5 memory ≡ err RetrievalError.no_terms
unfolding search_memory terms find_tokens split_runs is_token_char set_of strip elem keep
no_words = refl
