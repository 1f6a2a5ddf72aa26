-- ===== src/Approval.antt =====
-- src/pasi/core/approvals.py. An instant is a number of microseconds, the texts of `isoformat` being
-- read back by `fromisoformat` as they were. A table goes from `approval_id` to the approval.
pub mod Consume
pub mod Runs
mod Tests
use pasi_engineering_workspa.Prelude.{
  ℕ, ◌+◌, ℤ, pos, pos_part, ltb_ℤ, leb_ℤ, ltb, leb, Bool, true, false, not, ◌||◌, String, str_eq,
  Result, ok, err, raise_if, ◌>>=◌, ◌>>◌, Option, none, some, if◌then◌else◌,
}
use Prim.Native.Nat.{◌*◌}
use pasi_engineering_workspa.Dict.{Dict, lookup, put}

-- The messages of `ApprovalError`, and the `IntegrityError` of a key that is there.
pub data ApprovalError : Type 0 where
  bad_ttl used other_operation other_capability other_target expired other_token : ApprovalError
  not_found consumed duplicate : ApprovalError

pub record Approval : Type 0 where
  pub approval_id : String
  pub operation_id : String
  pub capability_id : String
  pub target : String
  pub issued_at : ℕ
  pub expires_at : ℕ
  pub token_digest : String
  pub used : Bool

-- What a caller presents.
pub record Claim : Type 0 where
  pub token : String
  pub operation_id : String
  pub capability_id : String
  pub target : String

abbrev pub Table : Type 0
Table = Dict Approval

-- `sha256(token.encode("utf-8")).hexdigest()`
abbrev pub Sha256 : Type 0
Sha256 = String → String

module _ (sha256 : Sha256) where
  -- `issue`, at the instant `now`
  unfoldable pub issue : ℕ → String → Claim → ℤ → Result ApprovalError Approval
  issue now approval_id c ttl_seconds = do
    raise_if (leb_ℤ ttl_seconds (pos 0) || ltb_ℤ (pos 86400) ttl_seconds) bad_ttl
    ok (record {
      approval_id = approval_id;
      operation_id = c.operation_id;
      capability_id = c.capability_id;
      target = c.target;
      issued_at = now;
      expires_at = now + pos_part ttl_seconds * 1000000;
      token_digest = sha256 c.token;
      used = false;
    })

  unfoldable pub verify : ℕ → Approval → Claim → Result ApprovalError (Unit {0})
  verify now a c = do
    raise_if a.used used
    raise_if (not (str_eq a.operation_id c.operation_id)) other_operation
    raise_if (not (str_eq a.capability_id c.capability_id)) other_capability
    raise_if (not (str_eq a.target c.target)) other_target
    raise_if (leb a.expires_at now) expired
    raise_if (not (str_eq (sha256 c.token) a.token_digest)) other_token

-- `create`
unfoldable pub create : Approval → Table → Result ApprovalError Table
create a table = elim (lookup a.approval_id table) [
  | some _ ↦ err duplicate
  | none ↦ ok (put a.approval_id a table)
]

-- The `SELECT` of `consume`
unfoldable pub find : String → Table → Result ApprovalError Approval
find id table = elim (lookup id table) [ none ↦ err not_found | some a ↦ ok a ]

-- The `UPDATE … WHERE approval_id = ? AND used = 0` of `consume`, and the test of its `rowcount`
unfoldable pub mark_used : String → Table → Result ApprovalError Table
mark_used id table = elim (lookup id table) [
  | none ↦ err consumed
  | some a ↦ if a.used then err consumed else ok (put id (record a { used = true }) table)
]

-- `consume`, when no other client comes between its statements
unfoldable pub consume :
    Sha256 → ℕ → String → Claim → Table → Result ApprovalError (Table × Approval)
unfolding verify find mark_used
consume sha256 now id c table = do
  a ← find id table
  verify sha256 now a c
  after ← mark_used id table
  ok (after, record a { used = true })
