-- ===== src/Memory/Retrieval.antt =====
-- `ProvenanceAwareRetriever` of src/pasi/core/retrieval.py. `str.lower` is an argument. A score is the
-- quotient of two numbers, and stands here as the pair of them; all scores of a search have the same
-- divisor, so that they are ordered as the numbers are that are divided.
pub mod Laws
pub mod Ranked
pub mod Distinct
mod Tests
use Prim.Native.Char.{Char, code}
use Prim.Native.String.{count}
use pasi_engineering_workspa.Prelude.{
  ℕ, Bool, true, false, not, ◌&&◌, ◌||◌, String, Result, ok, err, raise_if, map_err, ◌>>=◌, ◌>>◌,
  Option, none, some, List, [], ◌∷◌, map, keep, take, length, is_empty, ltb, leb, ◌==◌,
  if◌then◌else◌,
}
use pasi_engineering_workspa.Text.{strip, is_blank, elem}
use pasi_engineering_workspa.Text.Order.{leb_text}
use pasi_engineering_workspa.Sort.{sort}
use pasi_engineering_workspa.Memory.{MemoryRecord, MemoryError, MemoryTable, list_memories}
use pasi_engineering_workspa.Memory.Compaction.{set_of}

-- The messages of `RetrievalError`, and what the store raises
pub data RetrievalError : Type 0 where
  no_query long_query no_search_scope bad_search_limit no_terms : RetrievalError
  search_error : MemoryError → RetrievalError

pub record RetrievedMemory : Type 0 where
  pub memory_id : String
  pub scope : String
  pub kind : String
  pub content : String
  pub provenance_refs : List String
  pub score : ℕ × ℕ
  pub matched_terms : List String

-- `[A-Za-z0-9_'-]`
unfoldable pub is_token_char : ℕ → Bool
is_token_char c =
    (leb 65 c && leb c 90)
    || (leb 97 c && leb c 122)
    || (leb 48 c && leb c 57)
    || c == 95
    || c == 39
    || c == 45

-- A run that has ended
abbrev pub push_run : String → List String → List String
push_run String.[] runs = runs
push_run (String.◌∷◌ c s) runs = String.◌∷◌ c s ∷ runs

-- The run at the start of the text, and the runs after it
unfoldable pub split_runs : String → String × List String
unfolding is_token_char
split_runs String.[] = ("", [])
split_runs (String.◌∷◌ c s) =
    let (run, runs) = split_runs s in
    if is_token_char (code c) then (String.◌∷◌ c run, runs) else ("", push_run run runs)

-- `re.findall`
unfoldable pub find_tokens : String → List String
unfolding split_runs
find_tokens value = let (run, runs) = split_runs value in push_run run runs

abbrev pub stopwords : List String
stopwords =
    "the" ∷ "and" ∷ "for" ∷ "with" ∷ "from" ∷ "that" ∷ "this" ∷ "into" ∷ "must" ∷ "task" ∷ "project"
    ∷ []

-- The order of `(-item.score, item.memory_id)`
abbrev pub best_first : RetrievedMemory → RetrievedMemory → Bool
best_first a b =
    if a.score.0 == b.score.0 then leb_text a.memory_id b.memory_id else ltb b.score.0 a.score.0

module _ (lower : String → String) where
  -- `_terms`
  unfoldable pub terms : String → List String
  unfolding find_tokens set_of
  terms value =
      keep (λ t. not (elem t stopwords))
        (set_of (map lower (keep (λ t. leb 2 (count t)) (find_tokens value))))

  -- One round of the loop over the candidates
  unfoldable pub match_memory : List String → MemoryRecord → Option RetrievedMemory
  unfolding terms
  match_memory query_terms m =
      let matches = sort leb_text (keep (λ t. elem t (terms m.content)) query_terms) in
      if is_empty m.provenance_refs || is_empty matches
      then none
      else some (record {
        memory_id = m.memory_id;
        scope = m.scope;
        kind = m.kind;
        content = m.content;
        provenance_refs = m.provenance_refs;
        score = (length matches, length query_terms);
        matched_terms = matches;
      })

  -- The loop
  unfoldable pub match_all : List String → List MemoryRecord → List RetrievedMemory
  unfolding match_memory
  match_all query_terms [] = []
  match_all query_terms (m ∷ candidates) = elim (match_memory query_terms m) [
    | none ↦ match_all query_terms candidates
    | some found ↦ found ∷ match_all query_terms candidates
  ]

  -- `search`
  unfoldable pub search_memory :
      String
      → String
      → String
      → Option String
      → ℕ
      → MemoryTable
      → Result RetrievalError (List RetrievedMemory)
  unfolding match_all
  search_memory now query scope kind limit table = do
    raise_if (is_blank (strip query)) no_query
    raise_if (ltb 512 (count query)) long_query
    raise_if (is_blank (strip scope)) no_search_scope
    raise_if (leb limit 0 || ltb 20 limit) bad_search_limit
    raise_if (is_empty (terms query)) no_terms
    candidates ← map_err search_error (list_memories now (strip scope) kind false table)
    ok (take limit (sort best_first (match_all (terms query) candidates)))
