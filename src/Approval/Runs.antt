-- ===== src/Approval/Runs.antt =====
-- Many clients at one store: `consume` reads and verifies in one statement and marks in another, and
-- other clients may come between.
use pasi_engineering_workspa.Prelude.{
  ℕ, zero, suc, ◌≤◌, ◌≡◌, refl, subst, true, false, String, str_eq, eq_iff, ok, Option, none, some,
  if◌then◌else◌, arith, Option-cases, Bool-cases, inl, inr,
}
use pasi_engineering_workspa.Dict.{lookup, put, lookup-put}
use pasi_engineering_workspa.Approval.{Approval, Table, create, mark_used}

-- `Run id table n after`: clients have led the store from `table` to `after`, and `n` of them were
-- given the approval `id`. A client may mark any approval at any time: what it read and verified
-- before may be long out of date. A statement that is refused changes nothing.
pub data Run (id : String) (table : Table) : ℕ → Table → Type 0 where
  start : Run id table zero table
  created :
      {n : ℕ} {t u : Table} (a : Approval) → Run id table n t → create a t ≡ ok u → Run id table n u
  marked :
      {n : ℕ} {t u : Table} (other : String)
      → Run id table n t
      → mark_used other t ≡ ok u
      → Run id table (if str_eq other id then suc n else n) u

-- How often an approval can have been given.
abbrev given : Option Approval → ℕ
given none = 0
given (some a) = if a.used then 1 else 0

create-eq-ok :
    (a : Approval) (t u : Table)
    → create a t ≡ ok u
    → (lookup a.approval_id t ≡ none) × (u ≡ put a.approval_id a t)
unfolding create
create-eq-ok a t u h = ground arith

mark_used-eq-ok :
    (id : String) (t u : Table)
    → mark_used id t ≡ ok u
    → (a : Approval) × (lookup id t ≡ some a)
      × (a.used ≡ false)
      × (u ≡ put id (record a { used = true }) t)
unfolding mark_used
mark_used-eq-ok id t u h = elim (Option-cases (lookup id t)) [
  | inl lost ↦ absurd (cc (rw (lost, mark_used) at h))
  | inr (a, found) ↦ let h₁ = rw (found, mark_used) at h in (a, found, ground arith, ground arith)
]

create-given :
    (id : String) (a : Approval) (t u : Table)
    → create a t ≡ ok u
    → given (lookup id t) ≤ given (lookup id u)
unfolding create
create-given id a t u h = elim (Bool-cases (str_eq a.approval_id id)) [
  | inl same ↦
      let nothing : given (lookup a.approval_id t) ≡ 0 = rw (create-eq-ok a t u h).0 refl in
      omega (arith, subst (λ k. given (lookup k t) ≡ 0) ((eq_iff a.approval_id id).0 same) nothing)
  | inr other ↦ rw ((create-eq-ok a t u h).1, lookup-put a.approval_id id a t, other) (omega arith)
]

mark_used-given :
    (id other : String) (t u : Table) (n : ℕ)
    → mark_used other t ≡ ok u
    → n ≤ given (lookup id t)
    → (if str_eq other id then suc n else n) ≤ given (lookup id u)
unfolding mark_used
mark_used-given id other t u n h b =
    let (a, found, unused, e) = mark_used-eq-ok other t u h in
    rw (e, lookup-put other id (record a { used = true }) t)
      (elim (Bool-cases (str_eq other id)) [
        | inl same ↦
            let nothing : given (lookup other t) ≡ 0 = rw (found, unused) refl in
            rw same (
              omega
                (arith, b, subst (λ k. given (lookup k t) ≡ 0) ((eq_iff other id).0 same) nothing))
        | inr apart ↦ rw apart b
      ])

Run-given :
    {id : String} {table : Table} {n : ℕ} {after : Table}
    → Run id table n after
    → n ≤ given (lookup id after)
Run-given {id} start = omega arith
Run-given {id} (created {n} {t} {u} a run h) = omega (arith, create-given id a t u h, Run-given run)
Run-given {id} (marked {n} {t} {u} other run h) = mark_used-given id other t u n h (Run-given run)

given_bound : (o : Option Approval) → given o ≤ 1
given_bound o = ground arith

-- Whatever the clients do, and in whatever order their statements run, an approval is given once at
-- most, since the store has no way to bring one back.
pub Run-single_use :
    {id : String} {table : Table} {n : ℕ} {after : Table} → Run id table n after → n ≤ 1
Run-single_use {id} {after = after} run =
    omega (arith, Run-given run, given_bound (lookup id after))
