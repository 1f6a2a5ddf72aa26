-- ===== src/Failure/Laws.antt =====
-- The table of failures is a summary of the calls that made it.
use pasi_engineering_workspa.Prelude.{
  ℕ, suc, ◌+◌, ◌≡◌, refl, sym, ap, ◌∙◌, Bool, true, String, str_eq, Option, none, some, List, [],
  ◌∷◌, keep, length, arith, eq_iff, Bool-cases, inl, inr,
}
use pasi_engineering_workspa.Text.{strip}
use pasi_engineering_workspa.Dict.{lookup, lookup-put_same, lookup-put_other}
use pasi_engineering_workspa.Failure.{
  FailureSignature, Failure, FailureTable, timestamp_of, first_row, seen_again, row_after,
  signature_key, record_failure,
}

-- A call of `record`: the clock and the arguments.
abbrev pub Call : Type 0
Call = String × Failure

-- The last of the calls
unfoldable pub last_call : Call → List Call → Call
last_call c [] = c
last_call c (d ∷ calls) = last_call d calls

-- What a list of calls with the same key amounts to: the parts and the time of the first, the number
-- of them, and the time, the operation and the evidence of the last.
unfoldable pub summary : String → List Call → Option FailureSignature
unfolding last_call
summary key [] = none
summary key (first ∷ calls) =
    let last = last_call first calls in
    some (record {
      signature_id = key;
      subsystem = strip first.1.subsystem;
      failure_code = strip first.1.failure_code;
      failure_family = strip first.1.failure_family;
      first_seen_at = timestamp_of first.0 first.1;
      last_seen_at = timestamp_of last.0 last.1;
      occurrence_count = length calls + 1;
      latest_operation_id = last.1.operation_id;
      evidence_ref = last.1.evidence_ref;
    })

-- The row of a key after calls with this key
unfoldable absorb : String → Option FailureSignature → List Call → Option FailureSignature
unfolding row_after
absorb key row [] = row
absorb key row (c ∷ calls) = absorb key (some (row_after key (timestamp_of c.0 c.1) c.1 row)) calls

eq_of : (a b : String) → str_eq a b ≡ true → a ≡ b
eq_of a b h = ground (arith, eq_iff a b)

zero_add : (n : ℕ) → 0 + n ≡ n
zero_add n = omega arith

count_again : (n m : ℕ) → n + (m + 1) ≡ suc n + m
count_again n m = omega arith

-- The row, last seen at a call and counted anew
abbrev recounted : FailureSignature → Call → ℕ → FailureSignature
recounted row c n = record {
  signature_id = row.signature_id;
  subsystem = row.subsystem;
  failure_code = row.failure_code;
  failure_family = row.failure_family;
  first_seen_at = row.first_seen_at;
  last_seen_at = timestamp_of c.0 c.1;
  occurrence_count = n;
  latest_operation_id = c.1.operation_id;
  evidence_ref = c.1.evidence_ref;
}

absorb-some :
    (key : String) (row : FailureSignature) (c : Call) (calls : List Call)
    → row.last_seen_at ≡ timestamp_of c.0 c.1
    → row.latest_operation_id ≡ c.1.operation_id
    → row.evidence_ref ≡ c.1.evidence_ref
    → absorb key (some row) calls
      ≡ some (recounted row (last_call c calls) (length calls + row.occurrence_count))
unfolding absorb last_call seen_again
absorb-some key row c [] h k l =
    ap some (λ i. record {
      signature_id = row.signature_id;
      subsystem = row.subsystem;
      failure_code = row.failure_code;
      failure_family = row.failure_family;
      first_seen_at = row.first_seen_at;
      last_seen_at = h i;
      occurrence_count = row.occurrence_count;
      latest_operation_id = k i;
      evidence_ref = l i;
    })
    ∙ ap (λ n. some (recounted row c n)) (sym (zero_add row.occurrence_count))
absorb-some key row c (d ∷ calls) h k l =
    absorb-some key (seen_again (timestamp_of d.0 d.1) d.1 row) d calls refl refl refl
    ∙ ap (λ n. some (recounted row (last_call d calls) n))
        (count_again (length calls) row.occurrence_count)

absorb-summary : (key : String) (calls : List Call) → absorb key none calls ≡ summary key calls
unfolding absorb summary first_row
absorb-summary key [] = refl
absorb-summary key (c ∷ calls) =
    absorb-some key (first_row key (timestamp_of c.0 c.1) c.1) c calls refl refl refl

module _ (lower sha256 : String → String) where
  -- The calls one after the other
  unfoldable pub record_all : List Call → FailureTable → FailureTable
  unfolding record_failure
  record_all [] table = table
  record_all (c ∷ calls) table = record_all calls (record_failure lower sha256 c.0 c.1 table).0

  abbrev pub has_key : String → Call → Bool
  has_key key c = str_eq (signature_key lower sha256 c.1) key

  lookup-record_all :
      (key : String) (calls : List Call) (table : FailureTable)
      → lookup key (record_all calls table)
        ≡ absorb key (lookup key table) (keep (has_key key) calls)
  unfolding record_all absorb keep record_failure
  lookup-record_all key [] table = refl
  lookup-record_all key (c ∷ calls) table =
      let k = signature_key lower sha256 c.1 in
      let at = timestamp_of c.0 c.1 in
      let later = lookup-record_all key calls (record_failure lower sha256 c.0 c.1 table).0 in
      elim (Bool-cases (str_eq k key)) [
        | inl e ↦ rw e (
            later
            ∙ ap (λ o. absorb key o (keep (has_key key) calls))
                (lookup-put_same k key (row_after k at c.1 (lookup k table)) table e
                  ∙ ap (λ j. some (row_after j at c.1 (lookup j table))) (eq_of k key e)))
        | inr e ↦ rw e (
            later
            ∙ ap (λ o. absorb key o (keep (has_key key) calls))
                (lookup-put_other k key (row_after k at c.1 (lookup k table)) table e))
      ]

  -- After any calls of `record` on an empty registry, the row of every key is the summary of the calls
  -- with this key: it has the parts and the time of the first of them, counts them all, and has the
  -- time, the operation and the evidence of the last; a key of no call has no row.
  pub record_all-summary :
      (key : String) (calls : List Call)
      → lookup key (record_all calls []) ≡ summary key (keep (has_key key) calls)
  unfolding lookup
  record_all-summary key calls =
      lookup-record_all key calls [] ∙ absorb-summary key (keep (has_key key) calls)
