-- ===== src/Approval/Tests.antt =====
-- Tests of src/pasi/core/approvals.py at small inputs.
use pasi_engineering_workspa.Prelude.{◌≤◌, pos, ◌≡◌, refl, true, false, ok, none, [], ◌∷◌, arith}
use pasi_engineering_workspa.Dict.{lookup, put}
use pasi_engineering_workspa.Approval.{
  Approval, Claim, Table, Sha256, issue, create, mark_used, consume,
}
use pasi_engineering_workspa.Approval.Consume.{IsConsumed, consume-IsConsumed, issue-consume}
use pasi_engineering_workspa.Approval.Runs.{start, created, marked, Run-single_use}

-- Any function of the token serves.
abbrev sha256 : Sha256
sha256 token = token

abbrev claim : Claim
claim = record {
  token = "secret";
  operation_id = "op-1";
  capability_id = "deploy";
  target = "prod";
}

abbrev approval : Approval
approval = record {
  approval_id = "a";
  operation_id = "op-1";
  capability_id = "deploy";
  target = "prod";
  issued_at = 5;
  expires_at = 60000005;
  token_digest = "secret";
  used = false;
}

abbrev spent : Approval
spent = record approval { used = true }

consumes : consume sha256 9 "a" claim (("a", approval) ∷ []) ≡ ok (("a", spent) ∷ [], spent)
unfolding consume lookup put
consumes = refl

consume-IsConsumed_example :
    IsConsumed sha256 9 "a" claim (("a", approval) ∷ []) (("a", spent) ∷ []) spent
consume-IsConsumed_example = consume-IsConsumed sha256 9 "a" claim (("a", approval) ∷ []) consumes

absent : lookup {V = Approval} "a" [] ≡ none
unfolding lookup
absent = refl

issue-consume_example :
    (a : Approval) × (after : Table) × (issue sha256 5 "a" claim (pos 60) ≡ ok a)
    × (create a [] ≡ ok after)
    × (consume sha256 9 "a" claim after
        ≡ ok (put "a" (record a { used = true }) after, record a { used = true }))
issue-consume_example =
    issue-consume sha256 5 9 "a" claim (pos 60) [] (omega arith) (omega arith) (omega arith) absent

creates : create approval [] ≡ ok (("a", approval) ∷ [])
unfolding create lookup put
creates = refl

marks : mark_used "a" (("a", approval) ∷ []) ≡ ok (("a", spent) ∷ [])
unfolding mark_used lookup put
marks = refl

Run-single_use_example : 1 ≤ 1
Run-single_use_example =
    Run-single_use {id = "a"} {table = []} {n = 1} {after = ("a", spent) ∷ []}
      (marked "a" (created approval start creates) marks)
