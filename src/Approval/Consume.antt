-- ===== src/Approval/Consume.antt =====
-- One call of `consume`.
use Prim.Native.Nat.{◌*◌}
use pasi_engineering_workspa.Prelude.{
  ℕ, ◌+◌, ◌<◌, ℤ, pos, pos_part, ◌≤ℤ◌, leb, ◌≡◌, refl, sym, ap, ◌∙◌, true, false, not, String,
  str_eq, eq_iff, ok, err, none, some, arith, >>=-eq-ok, raise_if->>=-eq-ok, raise_if-eq-ok,
  ok-injective,
}
use pasi_engineering_workspa.Dict.{lookup, put, lookup-put_self}
use pasi_engineering_workspa.Approval.{
  used, Approval, Claim, Table, Sha256, issue, verify, create, find, mark_used, consume,
}

-- The approval covers what is asked for, at this instant.
pub record Covers (sha256 : Sha256) (now : ℕ) (a : Approval) (c : Claim) : Type 0 where
  pub fresh : a.used ≡ false
  pub operation : a.operation_id ≡ c.operation_id
  pub capability : a.capability_id ≡ c.capability_id
  pub target : a.target ≡ c.target
  pub in_time : now < a.expires_at
  pub token : sha256 c.token ≡ a.token_digest

not_differs : (s t : String) → not (str_eq s t) ≡ false → s ≡ t
not_differs s t h = ground (arith, eq_iff s t)

in_time_of : (e n : ℕ) → leb e n ≡ false → n < e
in_time_of e n h = ground arith

verify-Covers :
    (sha256 : Sha256) (now : ℕ) (a : Approval) (c : Claim)
    → verify sha256 now a c ≡ ok tt
    → Covers sha256 now a c
unfolding verify
verify-Covers sha256 now a c h =
    let (e₁, h₁) = raise_if->>=-eq-ok a.used _ _ h in
    let (e₂, h₂) = raise_if->>=-eq-ok (not (str_eq a.operation_id c.operation_id)) _ _ h₁ in
    let (e₃, h₃) = raise_if->>=-eq-ok (not (str_eq a.capability_id c.capability_id)) _ _ h₂ in
    let (e₄, h₄) = raise_if->>=-eq-ok (not (str_eq a.target c.target)) _ _ h₃ in
    let (e₅, h₅) = raise_if->>=-eq-ok (leb a.expires_at now) _ _ h₄ in
    let e₆ = raise_if-eq-ok (not (str_eq (sha256 c.token) a.token_digest)) _ h₅ in
    record {
      fresh = e₁;
      operation = not_differs _ _ e₂;
      capability = not_differs _ _ e₃;
      target = not_differs _ _ e₄;
      in_time = in_time_of a.expires_at now e₅;
      token = not_differs _ _ e₆;
    }

verify_ok :
    (sha256 : Sha256) (now : ℕ) (a : Approval) (c : Claim)
    → Covers sha256 now a c
    → verify sha256 now a c ≡ ok tt
unfolding verify
verify_ok sha256 now a c v = ground (
  arith,
  v.fresh,
  v.in_time,
  (eq_iff a.operation_id c.operation_id).1 v.operation,
  (eq_iff a.capability_id c.capability_id).1 v.capability,
  (eq_iff a.target c.target).1 v.target,
  (eq_iff (sha256 c.token) a.token_digest).1 v.token,
)

-- What an accepted `consume` met and left behind.
pub record IsConsumed (sha256 : Sha256) (now : ℕ) (id : String) (c : Claim) (table after : Table)
    (a : Approval) : Type 0 where
  pub before : Approval
  pub found : lookup id table ≡ some before
  pub covers : Covers sha256 now before c
  pub returned : a ≡ record before { used = true }
  pub marked : after ≡ put id a table

find-eq-ok :
    (id : String) (table : Table) {a : Approval} → find id table ≡ ok a → lookup id table ≡ some a
unfolding find
find-eq-ok id table h = ground arith

mark_used-eq-ok :
    (id : String) (table : Table) (a : Approval) {after : Table}
    → lookup id table ≡ some a
    → mark_used id table ≡ ok after
    → (a.used ≡ false) × (after ≡ put id (record a { used = true }) table)
unfolding mark_used
mark_used-eq-ok id table a found h = ground arith

-- An approval is only given for a stored one that is unused, not expired, and issued for the same
-- operation, capability, target and token; the call returns it and stores it as used.
pub consume-IsConsumed :
    (sha256 : Sha256) (now : ℕ) (id : String) (c : Claim) (table : Table) {after : Table}
    {a : Approval}
    → consume sha256 now id c table ≡ ok (after, a)
    → IsConsumed sha256 now id c table after a
unfolding consume
consume-IsConsumed sha256 now id c table {after} {a} h =
    let (before, read, h₁) = >>=-eq-ok (find id table) _ h in
    let (_, verified, h₂) = >>=-eq-ok (verify sha256 now before c) _ h₁ in
    let (written, marked, h₃) = >>=-eq-ok (mark_used id table) _ h₂ in
    let found = find-eq-ok id table read in
    let (_, e) = mark_used-eq-ok id table before found marked in
    let same = ok-injective h₃ in
    record {
      before = before;
      found = found;
      covers = verify-Covers sha256 now before c verified;
      returned = sym (ap (λ (r : Table × Approval). r.1) same);
      marked =
          sym (ap (λ (r : Table × Approval). r.0) same)
          ∙ e
          ∙ ap (λ v. put id v table) (ap (λ (r : Table × Approval). r.1) same);
    }

-- What covers a claim is given, and kept as used.
consume_covered :
    (sha256 : Sha256) (now : ℕ) (id : String) (c : Claim) (table : Table) (a : Approval)
    → lookup id table ≡ some a
    → Covers sha256 now a c
    → consume sha256 now id c table
      ≡ ok (put id (record a { used = true }) table, record a { used = true })
unfolding consume find mark_used
consume_covered sha256 now id c table a found v =
    rw (consume, find, mark_used, found, verify_ok sha256 now a c v, v.fresh) refl

-- Once an approval was given it is refused as used, to whoever asks for it and whatever is presented.
pub consume_once :
    (sha256 : Sha256) (now now' : ℕ) (id : String) (c c' : Claim) (table : Table) {after : Table}
    {a : Approval}
    → consume sha256 now id c table ≡ ok (after, a)
    → consume sha256 now' id c' after ≡ err used
unfolding consume find verify
consume_once sha256 now now' id c c' table {after} {a} h =
    let d = consume-IsConsumed sha256 now id c table h in
    rw (d.marked, find, lookup-put_self id a table, verify, d.returned) refl

-- An approval that was issued, with a time to live of 1 to 86400 seconds, and created under a new
-- name is given to the claim that it was issued for, within that time.
pub issue-consume :
    (sha256 : Sha256) (now later : ℕ) (id : String) (c : Claim) (ttl : ℤ) (table : Table)
    → pos 1 ≤ℤ ttl
    → ttl ≤ℤ pos 86400
    → later < now + pos_part ttl * 1000000
    → lookup id table ≡ none
    → (a : Approval) × (after : Table) × (issue sha256 now id c ttl ≡ ok a)
      × (create a table ≡ ok after)
      × (consume sha256 later id c after
          ≡ ok (put id (record a { used = true }) after, record a { used = true }))
unfolding issue create
issue-consume sha256 now later id c ttl table low high soon fresh =
    let a : Approval = record {
      approval_id = id;
      operation_id = c.operation_id;
      capability_id = c.capability_id;
      target = c.target;
      issued_at = now;
      expires_at = now + pos_part ttl * 1000000;
      token_digest = sha256 c.token;
      used = false;
    } in
    (
      a,
      put id a table,
      ground arith,
      rw (create, fresh) refl,
      consume_covered sha256 later id c (put id a table) a (lookup-put_self id a table) (record {
        fresh = refl;
        operation = refl;
        capability = refl;
        target = refl;
        in_time = soon;
        token = refl;
      }),
    )
