-- ===== src/Operation/Tests.antt =====
-- Tests of src/pasi/core/operation_state.py and src/pasi/core/operation_store.py at small inputs.
use pasi_engineering_workspa.Prelude.{
  if◌then◌else◌, pos, ◌+ℤ◌, ◌≡◌, refl, false, String, str_eq, ok, err, some, [], ◌∷◌,
}
use pasi_engineering_workspa.Text.{strip, any_char}
use pasi_engineering_workspa.Dict.{lookup, put}
use pasi_engineering_workspa.Json.{Value, null, int, str, obj, end, field}
use pasi_engineering_workspa.Sort.{sort}
use pasi_engineering_workspa.Operation.Text.{
  IsNormal, revision_conflict, bounded_string, bounded_text, is_control,
}
use pasi_engineering_workspa.Operation.Checks.{
  Status, queued, claimed, failed, checked_status, checked_schema, checked_metadata, checked_count,
  checked_pr_number, checked_digest,
}
use pasi_engineering_workspa.Operation.State.{
  OperationState, Payload, post_init, to_dict, from_mapping, mapping_payload,
}
use pasi_engineering_workspa.Operation.Metadata.{normalize_metadata}
use pasi_engineering_workspa.Operation.State.Valid.{IsValid, post_init-IsValid}
use pasi_engineering_workspa.Operation.State.RoundTrip.{from_mapping-to_dict}
use pasi_engineering_workspa.Operation.Transition.{
  allowed, can_transition_to, next_payload, next_count, no_updates, is_recovery, transition,
}
use pasi_engineering_workspa.Operation.Transition.Laws.{
  IsStep, transition-IsStep, moved, transition-moved, transition_padded_claim,
}
use pasi_engineering_workspa.Operation.Transition.Lifecycle.{
  start, step, IsCounted, History-IsCounted,
}
use pasi_engineering_workspa.Operation.Store.{
  state_error, Table, dumped, row_of, create, get, load, update, transition_row,
}
use pasi_engineering_workspa.Operation.Store.Sorted.{sort_metadata}
use pasi_engineering_workspa.Operation.Store.Records.{stored, IsSound}
use pasi_engineering_workspa.Operation.Store.Sound.{create-IsSound, get-transition_row}
use pasi_engineering_workspa.Operation.Store.Locking.{transition_row_once}

abbrev payload : String → Value → Payload
payload status metadata = record {
  operation_id = str " op-1 ";
  operation_type = str "engineering";
  status = str status;
  schema_version = int (pos 1);
  state_revision = int (pos 4);
  run_id = str "run-7";
  task_id = str "task-2";
  provider = str "";
  phase = str "";
  attempt = int (pos 1);
  prompt_digest = str "";
  response_digest = str "";
  verification_status = str "";
  commit_sha = str "";
  pr_number = int (pos 12);
  failure_signature = str "";
  recovery_count = int (pos 0);
  metadata = metadata;
  created_at = str "t0";
  updated_at = str "t1";
}

abbrev state : Status → OperationState
state status = record {
  operation_id = "op-1";
  operation_type = "engineering";
  status = status;
  schema_version = pos 2;
  state_revision = pos 4;
  run_id = "run-7";
  task_id = "task-2";
  provider = "";
  phase = "";
  attempt = pos 1;
  prompt_digest = "";
  response_digest = "";
  verification_status = "";
  commit_sha = "";
  pr_number = some (pos 12);
  failure_signature = "";
  recovery_count = pos 0;
  metadata = ("b", "2") ∷ ("a", "1") ∷ [];
  created_at = "t0";
  updated_at = "t1";
}

abbrev two_keys : Value
two_keys = obj (field " b" (str "2 ") (field "a" (str "1") end))

accepted_queued : post_init (payload "queued" two_keys) ≡ ok (state queued)
unfolding post_init bounded_string bounded_text strip any_char is_control checked_status
    checked_schema checked_metadata normalize_metadata checked_count checked_pr_number
    checked_digest put
accepted_queued = refl

accepted_failed : post_init (payload "failed " two_keys) ≡ ok (state failed)
unfolding post_init bounded_string bounded_text strip any_char is_control checked_status
    checked_schema checked_metadata normalize_metadata checked_count checked_pr_number
    checked_digest put
accepted_failed = refl

failed-IsValid : IsValid (state failed)
failed-IsValid = post_init-IsValid (payload "failed " two_keys) accepted_failed

from_mapping-to_dict_example : from_mapping "t9" (obj (to_dict (state queued))) ≡ ok (state queued)
from_mapping-to_dict_example = from_mapping-to_dict (payload "queued" two_keys) "t9" accepted_queued

queued-IsValid : IsValid (state queued)
queued-IsValid = post_init-IsValid (payload "queued" two_keys) accepted_queued

now_normal : IsNormal 128 false "t2"
unfolding strip any_char is_control
now_normal = record { stripped = refl; filled = refl; short = refl; clean = refl }

abbrev claimed_once : OperationState
claimed_once = moved "t2" (state queued) false claimed

-- Evaluated, not derived from a law.
claimed_queued :
    transition "t2" (state queued) "claimed" (some (pos 4)) no_updates ≡ ok claimed_once
unfolding transition can_transition_to post_init bounded_string bounded_text strip any_char
    is_control checked_status checked_schema checked_metadata normalize_metadata checked_count
    checked_pr_number checked_digest put next_payload allowed is_recovery next_count ◌+ℤ◌
claimed_queued = refl

transition-IsStep_example : IsStep (state queued) "claimed" claimed_once
transition-IsStep_example =
    transition-IsStep "t2" (state queued) "claimed" (some (pos 4)) no_updates claimed_queued

transition-moved_example :
    transition "t2" (state failed) "claimed" (some (pos 4)) no_updates
    ≡ ok (moved "t2" (state failed) (is_recovery (state failed) "claimed") claimed)
unfolding allowed strip
transition-moved_example =
    transition-moved "t2" (state failed) "claimed" claimed failed-IsValid now_normal refl refl

transition_padded_claim_example :
    (t : OperationState) × (transition "t2" (state failed) " claimed" (some (pos 4)) no_updates
      ≡ ok t)
    × (t.status ≡ claimed)
    × (t.attempt ≡ pos 1)
    × (t.recovery_count ≡ pos 0)
unfolding strip
transition_padded_claim_example =
    transition_padded_claim "t2" (state failed) " claimed" failed-IsValid now_normal refl refl
      λ h. cc h

History-IsCounted_example : IsCounted (state queued) 1 claimed_once
History-IsCounted_example =
    History-IsCounted (step "t2" "claimed" (some (pos 4)) no_updates start claimed_queued)

no_row : IsSound []
unfolding lookup
no_row = record { at_key = λ id row h. cc h }

abbrev one_row : Table
one_row = ("op-1", row_of (state queued)) ∷ []

created : create (state queued) [] ≡ ok (one_row, state queued)
unfolding create lookup put
created = refl

one_row-IsSound : IsSound one_row
one_row-IsSound = create-IsSound (state queued) [] queued-IsValid no_row created

abbrev read_back : OperationState
read_back = moved "t2" (stored (state queued)) false claimed

abbrev written_row : Table
written_row =
    (
      "op-1",
      record {
        state_revision = pos 5;
        payload_json = some (dumped read_back);
        created_at = "t0";
        updated_at = "t2";
      },
    )
    ∷ []

moved_row :
    transition_row "t2" "op-1" "claimed" (pos 4) no_updates one_row ≡ ok (written_row, read_back)
unfolding transition_row get lookup row_of from_mapping dumped post_init bounded_string
    pasi_engineering_workspa.Json.get to_dict bounded_text strip any_char is_control checked_status
    checked_schema checked_metadata normalize_metadata put checked_count checked_digest
    checked_pr_number mapping_payload load update allowed can_transition_to is_recovery next_count
    next_payload transition ◌+ℤ◌ sort sort_metadata
moved_row = refl

get-transition_row_example :
    get "t9" "op-1" written_row
    ≡ (if str_eq "op-1" "op-1" then ok (stored read_back) else get "t9" "op-1" one_row)
get-transition_row_example =
    get-transition_row "t2" "t9" "op-1" "claimed" (pos 4) no_updates one_row "op-1" moved_row

transition_row_once_example :
    transition_row "t3" "op-1" "failed" (pos 4) no_updates written_row
    ≡ err (state_error revision_conflict)
transition_row_once_example =
    transition_row_once "t2" "t3" "op-1" "claimed" "failed" (pos 4) no_updates no_updates one_row
      moved_row
