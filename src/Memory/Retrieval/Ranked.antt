-- ===== src/Memory/Retrieval/Ranked.antt =====
-- The rank of what `search` of src/pasi/core/retrieval.py finds, and what it leaves out.
use pasi_engineering_workspa.Prelude.{
  ℕ, zero, suc, ◌<◌, ◌≡◌, refl, sym, ap, ◌∙◌, ◌⊎◌, inl, inr, Bool, true, false, not, ◌&&◌, ◌||◌,
  ◌==◌, ==_iff, ltb→lt, String, Bool-cases, List, [], ◌∷◌, ◌++◌, map, keep, any, take, All-take,
  length, is_empty, All, arith,
}
use pasi_engineering_workspa.Text.{elem}
use pasi_engineering_workspa.Text.Order.{leb_text, leb_text_total, leb_text_trans}
use pasi_engineering_workspa.Sort.{sort, IsOrdered}
use pasi_engineering_workspa.Planning.Dependency.Laws.{is_empty-sort}
use pasi_engineering_workspa.Memory.{MemoryRecord}
use pasi_engineering_workspa.Memory.Retrieval.{
  RetrievedMemory, best_first, terms, match_memory, match_all,
}

pub best_first_total : (a b : RetrievedMemory) → best_first a b ≡ false → best_first b a ≡ true
best_first_total a b h = ground (arith, leb_text_total a.memory_id b.memory_id)

pub best_first_trans :
    (a b c : RetrievedMemory)
    → best_first a b ≡ true
    → best_first b c ≡ true
    → best_first a c ≡ true
best_first_trans a b c h k = ground (arith, leb_text_trans a.memory_id b.memory_id c.memory_id)

-- More terms have matched, or as many under a name that is not above.
abbrev pub Outranks : RetrievedMemory → RetrievedMemory → Type 0
Outranks r l =
    (length l.matched_terms < length r.matched_terms)
    ⊎ ((length l.matched_terms ≡ length r.matched_terms)
        × (leb_text r.memory_id l.memory_id ≡ true))

-- Each is ranked above those behind it.
abbrev pub IsRanked : List RetrievedMemory → Type 0
IsRanked [] = Unit
IsRanked (r ∷ rs) = All (Outranks r) rs × IsRanked rs

-- The number of matches is counted in the score.
abbrev pub IsScored : RetrievedMemory → Type 0
IsScored r = r.score.0 ≡ length r.matched_terms

best_first-Outranks :
    (r l : RetrievedMemory) → IsScored r → IsScored l → best_first r l ≡ true → Outranks r l
best_first-Outranks r l hr hl h = elim (Bool-cases (r.score.0 == l.score.0)) [
  | inl e ↦ let same = (==_iff r.score.0 l.score.0).0 e in inr (sym hl ∙ sym same ∙ hr, rw e at h)
  | inr e ↦ let more = ltb→lt l.score.0 r.score.0 (rw e at h) in inl (omega (arith, hr, hl, more))
]

All-Outranks :
    (r : RetrievedMemory) (ls : List RetrievedMemory)
    → IsScored r
    → All IsScored ls
    → All (λ l. best_first r l ≡ true) ls
    → All (Outranks r) ls
All-Outranks r [] hr hs ks = tt
All-Outranks r (l ∷ ls) hr (h, hs) (k, ks) =
    (best_first-Outranks r l hr h k, All-Outranks r ls hr hs ks)

pub IsOrdered-IsRanked :
    (rs : List RetrievedMemory) → All IsScored rs → IsOrdered best_first rs → IsRanked rs
IsOrdered-IsRanked [] hs h = tt
IsOrdered-IsRanked (r ∷ rs) (h, hs) (first, rest) =
    (All-Outranks r rs h hs first, IsOrdered-IsRanked rs hs rest)

-- The list without its `n` first members
abbrev pub drop : ℕ → List RetrievedMemory → List RetrievedMemory
drop zero rs = rs
drop (suc n) [] = []
drop (suc n) (r ∷ rs) = drop n rs

pub take-drop : (n : ℕ) (rs : List RetrievedMemory) → take n rs ++ drop n rs ≡ rs
take-drop zero rs = refl
take-drop (suc n) [] = refl
take-drop (suc n) (r ∷ rs) = ap (λ zs. r ∷ zs) (take-drop n rs)

All-drop {κ} :
    (P : RetrievedMemory → Type κ) (n : ℕ) (rs : List RetrievedMemory)
    → All P rs
    → All P (drop n rs)
All-drop P zero rs h = h
All-drop P (suc n) [] h = tt
All-drop P (suc n) (r ∷ rs) (h, hs) = All-drop P n rs hs

pub IsRanked-take : (n : ℕ) (rs : List RetrievedMemory) → IsRanked rs → IsRanked (take n rs)
IsRanked-take zero rs h = tt
IsRanked-take (suc n) [] h = tt
IsRanked-take (suc n) (r ∷ rs) (first, rest) =
    (All-take (Outranks r) n rs first, IsRanked-take n rs rest)

-- What is taken is ranked above what is left.
pub take-Outranks :
    (n : ℕ) (rs : List RetrievedMemory)
    → IsRanked rs
    → All (λ r. All (Outranks r) (drop n rs)) (take n rs)
take-Outranks zero rs h = tt
take-Outranks (suc n) [] h = tt
take-Outranks (suc n) (r ∷ rs) (first, rest) =
    (All-drop (Outranks r) n rs first, take-Outranks n rs rest)

-- Nothing is left, or as many are taken as asked for.
pub take_full : (n : ℕ) (rs : List RetrievedMemory) → (length (take n rs) ≡ n) ⊎ (drop n rs ≡ [])
take_full zero rs = inl refl
take_full (suc n) [] = inr refl
take_full (suc n) (r ∷ rs) = elim (take_full n rs) [
  | inl full ↦ inl (ap suc full)
  | inr nothing ↦ inr nothing
]

-- What a result and a record of the memory have in common
abbrev pub Source : Type 0
Source = String × String × String × String × List String

abbrev pub source_of_hit : RetrievedMemory → Source
source_of_hit r = (r.memory_id, r.scope, r.kind, r.content, r.provenance_refs)

abbrev pub source_of_memory : MemoryRecord → Source
source_of_memory m = (m.memory_id, m.scope, m.kind, m.content, m.provenance_refs)

is_empty-keep : (p : String → Bool) (xs : List String) → is_empty (keep p xs) ≡ not (any p xs)
unfolding keep any
is_empty-keep p [] = refl
is_empty-keep p (x ∷ xs) = elim (Bool-cases (p x)) [
  | inl e ↦ rw e refl
  | inr e ↦ rw e (is_empty-keep p xs)
]

module _ (lower : String → String) where
  -- A record with references and with a term of the query
  unfoldable pub shares : String → MemoryRecord → Bool
  shares query m =
      not (is_empty m.provenance_refs)
      && any (λ t. elem t (terms lower m.content)) (terms lower query)

  guarded :
      (query : String) (m : MemoryRecord)
      → (is_empty m.provenance_refs
          || is_empty
              (sort leb_text (keep (λ t. elem t (terms lower m.content)) (terms lower query))))
        ≡ not (shares query m)
  unfolding shares
  guarded query m =
      ap (λ b. is_empty m.provenance_refs || b)
        (is_empty-sort (keep (λ t. elem t (terms lower m.content)) (terms lower query))
          ∙ is_empty-keep (λ t. elem t (terms lower m.content)) (terms lower query))
      ∙ de_morgan (is_empty m.provenance_refs) _
    where
      de_morgan : (a b : Bool) → (a || not b) ≡ not (not a && b)
      de_morgan a b = ground arith

  -- All candidates that share a term with the query are found, and no others.
  pub match_all-sources :
      (query : String) (candidates : List MemoryRecord)
      → map source_of_hit (match_all lower (terms lower query) candidates)
        ≡ map source_of_memory (keep (shares query) candidates)
  unfolding match_all match_memory keep
  match_all-sources query [] = refl
  match_all-sources query (m ∷ candidates) = elim (Bool-cases (shares query m)) [
    | inl e ↦
        rw (match_all, match_memory, guarded query m, e)
          (ap (λ zs. source_of_memory m ∷ zs) (match_all-sources query candidates))
    | inr e ↦ rw (match_all, match_memory, guarded query m, e) (match_all-sources query candidates)
  ]
