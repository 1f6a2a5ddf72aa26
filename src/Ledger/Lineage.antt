-- ===== src/Ledger/Lineage.antt =====
-- The lineage of an operation.
use pasi_engineering_workspa.Prelude.{
  ℕ, zero, suc, ◌+◌, ◌≤◌, ◌<◌, ◌≡◌, refl, sym, ap, subst, ◌∙◌, true, false, inl, inr, String,
  str_eq, eq_iff, Result, ok, err, Result-cases, some, Option-cases, Bool-cases, List, [], ◌∷◌,
  ◌++◌, map, length, All, arith,
}
use pasi_engineering_workspa.Text.{is_blank, elem, has_duplicates, subset}
use pasi_engineering_workspa.Text.Elem.{
  length-le_of_subset, subset_nil, subset_cons, has_duplicates_cons, elem_head, elem_tail,
}
use pasi_engineering_workspa.Sort.{All-map}
use pasi_engineering_workspa.Dict.{lookup}
use pasi_engineering_workspa.Ledger.{
  LedgerEntry, LedgerError, Ledger, make_entry, get_entry, climb, lineage,
}

abbrev pub entry_ids : Ledger → List String
entry_ids table = map (λ (e : String × LedgerEntry). e.0) table

lookup-elem :
    (id : String) (table : Ledger) {row : LedgerEntry}
    → lookup id table ≡ some row
    → elem id (entry_ids table) ≡ true
unfolding lookup elem
lookup-elem id [] h = cc
lookup-elem id ((k, e) ∷ table) {row} h = elim (Bool-cases (str_eq k id)) [
  | inl same ↦
      let same' : k ≡ id = ground (arith, eq_iff k id) in
      subst (λ (j : String). elem j (k ∷ entry_ids table) ≡ true) same'
        (elem_head k (entry_ids table))
  | inr other ↦
      elem_tail id k (entry_ids table) (lookup-elem id table {row = row} (rw (lookup, other) at h))
]

length-entry_ids : (table : Ledger) → length (entry_ids table) ≡ length table
length-entry_ids [] = refl
length-entry_ids (e ∷ table) = ap suc (length-entry_ids table)

get_entry-elem :
    (now id : String) (table : Ledger) {e : LedgerEntry}
    → get_entry now id table ≡ ok e
    → elem id (entry_ids table) ≡ true
unfolding get_entry
get_entry-elem now id table h = elim (Option-cases (lookup id table)) [
  | inl k ↦ absurd (cc (rw (get_entry, k) at h))
  | inr (row, k) ↦ lookup-elem id table k
]

-- The names that were seen differ from each other and are those of rows, so that the fuel lasts.
climb_ends :
    (now : String) (fuel : ℕ) (table : Ledger) (current : LedgerEntry) (seen : List String)
    (chain : List LedgerEntry)
    → length table < fuel + length seen
    → has_duplicates seen ≡ false
    → subset seen (entry_ids table) ≡ true
    → (r : Result LedgerError (List LedgerEntry)) × (climb now fuel table current seen chain
        ≡ some r)
unfolding climb
climb_ends now zero table current seen chain h d s =
    absurd (omega (arith, length-le_of_subset seen (entry_ids table) d s, length-entry_ids table))
climb_ends now (suc fuel) table current seen chain h d s =
    let up = current.parent_operation_id in
    elim (Bool-cases (is_blank up)) [
      | inl b ↦ (ok chain, rw (climb, b) refl)
      | inr b ↦ elim (Bool-cases (elem up seen)) [
        | inl m ↦ (err LedgerError.lineage_cycle, rw (climb, b, m) refl)
        | inr m ↦ elim (Result-cases (get_entry now up table)) [
          | inl (e, g) ↦ (err e, rw (climb, b, m, g) refl)
          | inr (parent, g) ↦
              let (r, k) =
                climb_ends now fuel table parent (up ∷ seen) (parent ∷ chain) (omega arith)
                  (has_duplicates_cons up seen m d)
                  (subset_cons up seen (entry_ids table) (get_entry-elem now up table g) s) in
              (r, rw (climb, b, m, g) k)
        ]
      ]
    ]

-- `lineage` ends on every table, also on one whose parents run in a circle.
pub lineage_ends :
    (now id : String) (table : Ledger)
    → (r : Result LedgerError (List LedgerEntry)) × (lineage now id table ≡ some r)
unfolding lineage has_duplicates elem
lineage_ends now id table = elim (Result-cases (get_entry now id table)) [
  | inl (e, g) ↦ (err e, rw (lineage, g) refl)
  | inr (current, g) ↦
      let (r, k) =
        climb_ends now (length table) table current (id ∷ []) (current ∷ []) (omega arith) refl (
          subset_cons id [] (entry_ids table) (get_entry-elem now id table g)
            (subset_nil (entry_ids table))) in
      (r, rw (lineage, g) k)
]

-- What the ledger guarantees: an entry stands under its name, is accepted as it is, and has no parent
-- or one that was there before it, in the same task and the same run.
pub record IsLedger (table : Ledger) : Type 0 where
  pub rank : String → ℕ
  pub below :
      (id : String) (row : LedgerEntry) → lookup id table ≡ some row → rank id < length table
  pub named : (id : String) (row : LedgerEntry) → lookup id table ≡ some row → row.operation_id ≡ id
  pub accepted :
      (now id : String) (row : LedgerEntry)
      → lookup id table ≡ some row
      → make_entry now row ≡ ok row
  pub parent :
      (id : String) (row : LedgerEntry)
      → lookup id table ≡ some row
      → is_blank row.parent_operation_id ≡ false
      → (above : LedgerEntry) × (lookup row.parent_operation_id table ≡ some above)
        × (above.task_id ≡ row.task_id)
        × (above.run_id ≡ row.run_id)
        × (rank row.parent_operation_id < rank id)

-- Each entry has the one in front of it as its parent, and the first has the parent `id`.
unfoldable pub Descends : String → List LedgerEntry → Type 0
Descends id [] = Unit
Descends id (e ∷ chain) = (e.parent_operation_id ≡ id) × Descends e.operation_id chain

unfoldable pub OfRun : Ledger → LedgerEntry → LedgerEntry → Type 0
OfRun table last e =
    (lookup e.operation_id table ≡ some e) × (e.task_id ≡ last.task_id) × (e.run_id ≡ last.run_id)

-- The chain leads from an entry without a parent to `last`, through entries of its task and its run.
pub record IsLineage (table : Ledger) (last : LedgerEntry) (chain : List LedgerEntry) : Type 0 where
  pub descends : Descends "" chain
  pub of_run : All (OfRun table last) chain
  pub front : List LedgerEntry
  pub ends : chain ≡ front ++ (last ∷ [])

blank_text : (s : String) → is_blank s ≡ true → s ≡ ""
blank_text String.[] h = refl
blank_text (String.◌∷◌ c s) h = cc

unseen :
    (up : String) (seen : List String) (rank : String → ℕ) (n : ℕ)
    → rank up < n
    → All (λ i. n ≤ rank i) seen
    → elem up seen ≡ false
unfolding elem
unseen up [] rank n less old = refl
unseen up (i ∷ seen) rank n less (h, old) = elim (Bool-cases (str_eq up i)) [
  | inr e ↦ rw e (unseen up seen rank n less old)
  | inl e ↦ let same : up ≡ i = ground (arith, eq_iff up i) in absurd (omega (arith, ap rank same))
]

le_of : (a b c : ℕ) → a < b → b ≤ c → a ≤ c
le_of a b c h k = omega arith

climb-IsLineage :
    (now : String) (fuel : ℕ) (table : Ledger) (l : IsLedger table) (last current : LedgerEntry)
    (seen : List String) (rest front : List LedgerEntry)
    → lookup current.operation_id table ≡ some current
    → l.rank current.operation_id < fuel
    → All (λ i. l.rank current.operation_id ≤ l.rank i) seen
    → Descends current.operation_id rest
    → All (OfRun table last) (current ∷ rest)
    → current ∷ rest ≡ front ++ (last ∷ [])
    → (chain : List LedgerEntry) × (climb now fuel table current seen (current ∷ rest)
        ≡ some (ok chain))
      × IsLineage table last chain
unfolding climb Descends OfRun
climb-IsLineage now zero table l last current seen rest front there low old down run ends =
    absurd (omega arith)
climb-IsLineage now (suc fuel) table l last current seen rest front there low old down run ends =
    let up = current.parent_operation_id in
    elim (Bool-cases (is_blank up)) [
      | inl b ↦ (
        current ∷ rest,
        rw (climb, b) refl,
        record { descends = (blank_text up b, down); of_run = run; front = front; ends = ends },
      )
      | inr b ↦
          let (above, found, task, in_run, less) = l.parent current.operation_id current there b in
          let name : above.operation_id ≡ up = l.named up above found in
          let not_seen = unseen up seen l.rank (l.rank current.operation_id) less old in
          let got : get_entry now up table ≡ ok above =
            rw (get_entry, found) (l.accepted now up above found) in
          let above_there = subst (λ i. lookup i table ≡ some above) (sym name) found in
          let (chain, k, is) =
            climb-IsLineage now fuel table l last above (up ∷ seen) (current ∷ rest) (above ∷ front)
              above_there (subst (λ i. l.rank i < fuel) (sym name) (omega arith))
              (subst (λ k. All (λ i. l.rank k ≤ l.rank i) (up ∷ seen)) (sym name)
                (
                  omega arith,
                  All-map seen
                      (λ i h. le_of (l.rank up) (l.rank current.operation_id) (l.rank i) less h)
                      old,
                ))
              (sym name, down) ((above_there, task ∙ run.0.1, in_run ∙ run.0.2), run)
              (ap (λ es. above ∷ es) ends) in
          (chain, rw (climb, b, not_seen, got) k, is)
    ]

-- The lineage of an operation of the ledger is found, whenever it is asked for.
pub lineage-IsLineage :
    (now id : String) (table : Ledger) (last : LedgerEntry)
    → IsLedger table
    → lookup id table ≡ some last
    → (chain : List LedgerEntry) × (lineage now id table ≡ some (ok chain))
      × IsLineage table last chain
unfolding lineage Descends OfRun
lineage-IsLineage now id table last l there =
    let name = l.named id last there in
    let got : get_entry now id table ≡ ok last =
      rw (get_entry, there) (l.accepted now id last there) in
    let (chain, k, is) =
      climb-IsLineage now (length table) table l last last (id ∷ []) [] []
        (subst (λ i. lookup i table ≡ some last) (sym name) there)
        (subst (λ i. l.rank i < length table) (sym name) (l.below id last there))
        (subst (λ k. All (λ i. l.rank k ≤ l.rank i) (id ∷ [])) (sym name) (omega arith)) tt
        ((subst (λ i. lookup i table ≡ some last) (sym name) there, refl, refl), tt) refl in
    (chain, rw (lineage, got) k, is)
