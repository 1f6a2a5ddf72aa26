-- ===== src/Ledger/Registered.antt =====
-- A ledger that was filled by `register` is well formed.
use pasi_engineering_workspa.Prelude.{
  ℕ, ◌+◌, ◌<◌, ◌≡◌, refl, sym, ap, subst, ◌∙◌, false, not, inl, inr, String, str_eq, eq_iff,
  eq_refl, ok, >>=-eq-ok, raise_if->>=-eq-ok, raise_if-eq-ok, ok-injective, none, some,
  Option-cases, Bool-cases, List, [], length, arith, if◌then◌else◌,
}
use pasi_engineering_workspa.Text.{is_blank}
use pasi_engineering_workspa.Dict.{
  lookup, put, lookup-put_same, lookup-put_other, length-put_new, str_eq-false_of_lookup,
}
use pasi_engineering_workspa.Ledger.{
  LedgerEntry, Ledger, or_text, make_entry, check_entry, timed, check_parent, register, lineage,
}
use pasi_engineering_workspa.Ledger.Lineage.{IsLedger, IsLineage, lineage-IsLineage}

-- An entry as the constructor returns it at a clock that shows a time
pub record IsEntry (e : LedgerEntry) : Type 0 where
  pub checked : check_entry e ≡ ok tt
  pub created : is_blank e.created_at ≡ false
  pub updated : is_blank e.updated_at ≡ false

is_blank-or_text : (s d : String) → is_blank d ≡ false → is_blank (or_text s d) ≡ false
is_blank-or_text s d h = ground arith

make_entry-IsEntry :
    (now : String) (e : LedgerEntry) {made : LedgerEntry}
    → is_blank now ≡ false
    → make_entry now e ≡ ok made
    → IsEntry made
unfolding make_entry timed check_entry
make_entry-IsEntry now e {made} clock h =
    let (u, checked, h₁) = >>=-eq-ok (check_entry e) _ h in
    subst IsEntry (ok-injective h₁) (record {
      checked = checked;
      created = is_blank-or_text e.created_at now clock;
      updated =
          is_blank-or_text e.updated_at (or_text e.created_at now)
            (is_blank-or_text e.created_at now clock);
    })

IsEntry-make_entry : (now : String) (e : LedgerEntry) → IsEntry e → make_entry now e ≡ ok e
unfolding make_entry timed
IsEntry-make_entry now e i = rw (make_entry, i.checked, timed, i.created, i.updated) refl

check_parent-found :
    (e : LedgerEntry) (table : Ledger)
    → check_parent e table ≡ ok tt
    → is_blank e.parent_operation_id ≡ false
    → (above : LedgerEntry) × (lookup e.parent_operation_id table ≡ some above)
      × (above.task_id ≡ e.task_id)
      × (above.run_id ≡ e.run_id)
unfolding check_parent
check_parent-found e table h b = elim (Option-cases (lookup e.parent_operation_id table)) [
  | inl none_there ↦ absurd (cc (rw (check_parent, b, none_there) at h))
  | inr (above, found) ↦
      let (task, h₁) =
        raise_if->>=-eq-ok (not (str_eq above.task_id e.task_id)) _ _
          (rw (check_parent, b, found) at h) in
      let run = raise_if-eq-ok (not (str_eq above.run_id e.run_id)) _ h₁ in
      (
        above,
        found,
        ground (arith, eq_iff above.task_id e.task_id),
        ground (arith, eq_iff above.run_id e.run_id),
      )
]

module _ (e : LedgerEntry) (table : Ledger) (entry : IsEntry e) (l : IsLedger table)
    (parent_fits : check_parent e table ≡ ok tt) (new : lookup e.operation_id table ≡ none) where
  after : Ledger
  after = put e.operation_id e table

  rank_after : String → ℕ
  rank_after j = if str_eq e.operation_id j then length table else l.rank j

  -- A row of the new table is the new entry or one that was there.
  by_row {κ} :
      (P : String → LedgerEntry → Type κ)
      → P e.operation_id e
      → ((id : String) (row : LedgerEntry)
          → lookup id table ≡ some row
          → str_eq e.operation_id id ≡ false
          → P id row)
      → (id : String) (row : LedgerEntry) → lookup id after ≡ some row
      → P id row
  unfolding after
  by_row P here there id row h = elim (Bool-cases (str_eq e.operation_id id)) [
    | inl same ↦
        let name : e.operation_id ≡ id = ground (arith, eq_iff e.operation_id id) in
        let entry_is : e ≡ row = cc (sym (lookup-put_same e.operation_id id e table same) ∙ h) in
        subst (λ i. P i row) name (subst (λ r. P e.operation_id r) entry_is here)
    | inr other ↦ there id row (sym (lookup-put_other e.operation_id id e table other) ∙ h) other
  ]

  longer : length after ≡ length table + 1
  unfolding after
  longer = length-put_new e.operation_id e table new

  differs :
      (id : String) {row : LedgerEntry}
      → lookup id table ≡ some row
      → str_eq e.operation_id id ≡ false
  differs id found = str_eq-false_of_lookup e.operation_id id table new found

  kept : (id : String) {row : LedgerEntry} → lookup id table ≡ some row → lookup id after ≡ some row
  unfolding after
  kept id found = lookup-put_other e.operation_id id e table (differs id found) ∙ found

  abbrev HasParent : String → LedgerEntry → Type 0
  HasParent id row =
      is_blank row.parent_operation_id ≡ false
      → (above : LedgerEntry) × (lookup row.parent_operation_id after ≡ some above)
        × (above.task_id ≡ row.task_id)
        × (above.run_id ≡ row.run_id)
        × (rank_after row.parent_operation_id < rank_after id)

  register-IsLedger : IsLedger after
  unfolding after rank_after
  register-IsLedger = record {
    rank = rank_after;
    below =
        by_row (λ id row. rank_after id < length after)
          (rw (eq_refl e.operation_id) (omega (arith, longer)))
          (λ id row h other. rw other (omega (arith, l.below id row h, longer)));
    named = by_row (λ id row. row.operation_id ≡ id) refl (λ id row h other. l.named id row h);
    accepted = λ now.
        by_row (λ id row. make_entry now row ≡ ok row) (IsEntry-make_entry now e entry)
          (λ id row h other. l.accepted now id row h);
    parent =
        by_row HasParent
          (λ b.
            let (above, found, task, run) = check_parent-found e table parent_fits b in
            let other = differs e.parent_operation_id found in
            (
              above,
              kept e.parent_operation_id found,
              task,
              run,
              rw (eq_refl e.operation_id, other) (l.below e.parent_operation_id above found),
            ))
          (λ id row h other b.
            let (above, found, task, run, less) = l.parent id row h b in
            (
              above,
              kept row.parent_operation_id found,
              task,
              run,
              rw (other, differs row.parent_operation_id found) less,
            ));
  }

-- Entries that the constructor returned, registered one after the other at whatever times; a call that
-- raises leaves the ledger as it is.
pub data Registered : Ledger → Type 0 where
  nothing : Registered []
  next :
      {table after : Ledger} (now : String) (e made back : LedgerEntry)
      → Registered table
      → is_blank now ≡ false
      → make_entry now e ≡ ok made
      → register made table ≡ ok (after, back)
      → Registered after

register-eq-ok :
    (e : LedgerEntry) (table : Ledger) {after : Ledger} {back : LedgerEntry}
    → register e table ≡ ok (after, back)
    → (check_parent e table ≡ ok tt)
      × (lookup e.operation_id table ≡ none)
      × (put e.operation_id e table ≡ after)
unfolding register
register-eq-ok e table h =
    let (_, fits, h₁) = >>=-eq-ok (check_parent e table) _ h in
    elim (Option-cases (lookup e.operation_id table)) [
      | inr (row, k) ↦ absurd (cc (rw k at h₁))
      | inl k ↦ (fits, k, ap (λ d. d.0) (ok-injective (rw k at h₁)))
    ]

Registered-IsLedger : {table : Ledger} → Registered table → IsLedger table
unfolding lookup after
Registered-IsLedger nothing = record {
  rank = λ id. 0;
  below = λ id row h. absurd (cc h);
  named = λ id row h. absurd (cc h);
  accepted = λ now id row h. absurd (cc h);
  parent = λ id row h. absurd (cc h);
}
Registered-IsLedger (next {table} now e made back before clock m h) =
    let (fits, new, same) = register-eq-ok made table h in
    subst IsLedger same (
      register-IsLedger made table (make_entry-IsEntry now e clock m) (Registered-IsLedger before)
        fits new)

-- However a ledger was filled, `lineage` finds the line of every registered operation, and at any time:
-- it leads from an operation without a parent down to the operation asked for, each the parent of the
-- next, and all of them are of its task and its run.
pub Registered-lineage :
    {table : Ledger} (now id : String) (last : LedgerEntry)
    → Registered table
    → lookup id table ≡ some last
    → (chain : List LedgerEntry) × (lineage now id table ≡ some (ok chain))
      × IsLineage table last chain
Registered-lineage {table} now id last r there =
    lineage-IsLineage now id table last (Registered-IsLedger r) there
