-- ===== src/Ledger/Tests.antt =====
-- Tests of src/pasi/core/ledger.py and src/pasi/core/ledger_store.py at small inputs.
use pasi_engineering_workspa.Prelude.{◌≡◌, refl, String, ok, err, none, some, List, [], ◌∷◌, keep}
use pasi_engineering_workspa.Text.{strip, any_char, elem}
use pasi_engineering_workspa.Text.Bounded.{TextFault, check_text}
use pasi_engineering_workspa.Dict.{lookup, put}
use pasi_engineering_workspa.Sort.{sort}
use pasi_engineering_workspa.Ledger.{
  LedgerEntry, LedgerError, Ledger, make_entry, check_entry, timed, check_parent, register,
  get_entry, climb, lineage, list_entries, children_of_entry, load_entries, wanted_entry,
}
use pasi_engineering_workspa.Ledger.Lineage.{IsLineage}
use pasi_engineering_workspa.Ledger.Registered.{Registered, nothing, next, Registered-lineage}

abbrev entry : String → String → String → LedgerEntry
entry id parent at = record {
  operation_id = id;
  task_id = "task";
  run_id = "run";
  parent_operation_id = parent;
  provider = "";
  branch = "";
  pr_number = none;
  outcome = "";
  created_at = at;
  updated_at = at;
}

abbrev root : LedgerEntry
root = entry "a" "" "t1"

abbrev child : LedgerEntry
child = entry "b" "a" "t2"

abbrev table : Ledger
table = ("a", root) ∷ ("b", child) ∷ []

timed_entry : make_entry "t1" (entry "a" "" "") ≡ ok root
unfolding make_entry check_entry timed check_text strip any_char
timed_entry = refl

child_made : make_entry "t9" child ≡ ok child
unfolding make_entry check_entry timed check_text strip any_char
child_made = refl

nameless :
    make_entry "t1" (entry "" "" "")
    ≡ err (LedgerError.bad_ledger_text "operation_id" TextFault.empty)
unfolding make_entry check_entry check_text strip
nameless = refl

first_registered : register root [] ≡ ok (("a", root) ∷ [], root)
unfolding register check_parent lookup put
first_registered = refl

second_registered : register child (("a", root) ∷ []) ≡ ok (table, child)
unfolding register check_parent lookup put
second_registered = refl

orphan : register child [] ≡ err LedgerError.no_parent
unfolding register check_parent lookup
orphan = refl

other_run :
    register (record child { run_id = "other" }) (("a", root) ∷ []) ≡ err LedgerError.other_run
unfolding register check_parent lookup
other_run = refl

newest :
    list_entries "t9"
      (record {
        task_id = some "task";
        run_id = none;
        provider = none;
        branch = none;
        pr_number = none;
        outcome = none;
      })
      1
      table
    ≡ ok (child ∷ [])
unfolding list_entries load_entries wanted_entry make_entry check_entry timed check_text strip
    any_char sort keep
newest = refl

children : children_of_entry "t9" "a" table ≡ ok (child ∷ [])
unfolding children_of_entry load_entries make_entry check_entry timed check_text strip any_char sort
    keep
children = refl

line : lineage "t9" "b" table ≡ some (ok (root ∷ child ∷ []))
unfolding lineage climb get_entry make_entry check_entry timed check_text strip any_char lookup elem
line = refl

circle :
    lineage "t9" "b" (("a", entry "a" "b" "t1") ∷ ("b", child) ∷ [])
    ≡ some (err LedgerError.lineage_cycle)
unfolding lineage climb get_entry make_entry check_entry timed check_text strip any_char lookup elem
circle = refl

both : Registered table
both =
    next "t9" child child child
      (next "t1" (entry "a" "" "") root root nothing refl timed_entry first_registered) refl
      child_made second_registered

found : lookup "b" table ≡ some child
unfolding lookup
found = refl

Registered-lineage_example :
    (chain : List LedgerEntry) × (lineage "t9" "b" table ≡ some (ok chain))
    × IsLineage table child chain
Registered-lineage_example = Registered-lineage "t9" "b" child both found
