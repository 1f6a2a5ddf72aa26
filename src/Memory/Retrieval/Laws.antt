-- ===== src/Memory/Retrieval/Laws.antt =====
-- What `search` of src/pasi/core/retrieval.py finds.
use pasi_engineering_workspa.Prelude.{
  map, ◌++◌, ◌⊎◌, ℕ, ◌≤◌, ◌≡◌, true, false, ◌&&◌, String, str_eq, ok, Option, List, [], keep,
  length, is_empty, All,
}
use mathlib.Core.List.{Perm}
use mathlib.Core.List.Perm
use pasi_engineering_workspa.Text.{has_duplicates, strip, elem}
use pasi_engineering_workspa.Operation.Store.{fits}
use pasi_engineering_workspa.Memory.{MemoryRecord, MemoryTable, in_scope, list_memories}
use pasi_engineering_workspa.Memory.Retrieval.Ranked.{
  Outranks, IsRanked, source_of_hit, source_of_memory, shares,
}
use pasi_engineering_workspa.Memory.Retrieval.{RetrievedMemory, terms}

-- A record that `list` selects
abbrev InScope : String → Option String → MemoryRecord → Type 0
InScope scope kind m = in_scope scope kind false m ≡ true

module _ (lower : String → String) where
  -- A hit of a search
  pub record IsHit (query scope : String) (kind : Option String) (r : RetrievedMemory)
      : Type 0 where
    pub of_scope : str_eq r.scope scope ≡ true
    pub of_kind : fits kind r.kind ≡ true
    pub referenced : is_empty r.provenance_refs ≡ false
    pub matched : is_empty r.matched_terms ≡ false
    pub exactly :
        (t : String)
        → elem t r.matched_terms ≡ (elem t (terms lower query) && elem t (terms lower r.content))
    pub once : has_duplicates r.matched_terms ≡ false
    pub scored : r.score ≡ (length r.matched_terms, length (terms lower query))

  -- What a search returns, and the matches that it leaves out
  pub record IsSearched (now query scope : String) (kind : Option String) (limit : ℕ)
      (table : MemoryTable) (results : List RetrievedMemory) : Type 0 where
    pub few : length results ≤ limit
    pub bounded : limit ≤ 20
    pub hits : All (IsHit query (strip scope) kind) results
    pub ranked : IsRanked results
    pub candidates : List MemoryRecord
    pub listed : list_memories now (strip scope) kind false table ≡ ok candidates
    pub left : List RetrievedMemory
    pub complete :
        Perm
          (map source_of_hit (results ++ left))
          (map source_of_memory (keep (shares lower query) candidates))
    pub best : All (λ r. All (Outranks r) left) results
    pub full : (length results ≡ limit) ⊎ (left ≡ [])
