-- ===== src/Failure/Tests.antt =====
-- Tests of src/pasi/core/failure_registry.py at small inputs, with the text itself as its hash.
use pasi_engineering_workspa.Prelude.{
  ◌≡◌, refl, String, ok, err, Option, none, some, List, [], ◌∷◌, keep,
}
use pasi_engineering_workspa.Text.{strip}
use pasi_engineering_workspa.Dict.{lookup, put}
use pasi_engineering_workspa.Sort.{sort}
use pasi_engineering_workspa.Failure.{
  FailureSignature, Failure, FailureTable, timestamp_of, signature_key, record_failure, row_after,
  first_row, seen_again, get_failure, list_failures,
}
use pasi_engineering_workspa.Failure.Laws.{Call, record_all, summary, has_key, record_all-summary}

abbrev same_text : String → String
same_text s = s

abbrev failure : String → String → Option String → Failure
failure subsystem operation_id seen_at = record {
  subsystem = subsystem;
  failure_code = "timeout";
  failure_family = "io";
  operation_id = operation_id;
  evidence_ref = "";
  seen_at = seen_at;
}

abbrev calls : List Call
calls =
    ("t1", failure " browser" "o1" none)
    ∷ ("t2", failure "store" "o2" (some ""))
    ∷ ("t3", failure "browser " "o3" (some "s3"))
    ∷ []

abbrev seen_twice : FailureSignature
seen_twice = record {
  signature_id = "browser|timeout|io";
  subsystem = "browser";
  failure_code = "timeout";
  failure_family = "io";
  first_seen_at = "t1";
  last_seen_at = "s3";
  occurrence_count = 2;
  latest_operation_id = "o3";
  evidence_ref = "";
}

abbrev seen_once : FailureSignature
seen_once = record {
  signature_id = "store|timeout|io";
  subsystem = "store";
  failure_code = "timeout";
  failure_family = "io";
  first_seen_at = "t2";
  last_seen_at = "t2";
  occurrence_count = 1;
  latest_operation_id = "o2";
  evidence_ref = "";
}

recorded :
    record_all same_text same_text calls []
    ≡ ("browser|timeout|io", seen_twice) ∷ ("store|timeout|io", seen_once) ∷ []
unfolding record_all record_failure row_after first_row seen_again signature_key timestamp_of lookup
    put strip
recorded = refl

abbrev table : FailureTable
table = ("store|timeout|io", seen_once) ∷ ("browser|timeout|io", seen_twice) ∷ []

most_frequent_first : list_failures none table ≡ seen_twice ∷ seen_once ∷ []
unfolding list_failures sort keep
most_frequent_first = refl

of_the_store : list_failures (some "store") table ≡ seen_once ∷ []
unfolding list_failures sort keep
of_the_store = refl

got : get_failure "store|timeout|io" table ≡ ok seen_once
unfolding get_failure lookup
got = refl

not_there : get_failure "x" table ≡ err "x"
unfolding get_failure lookup
not_there = refl

record_all-summary_example :
    lookup "browser|timeout|io" (record_all same_text same_text calls [])
    ≡ summary "browser|timeout|io" (keep (has_key same_text same_text "browser|timeout|io") calls)
record_all-summary_example = record_all-summary same_text same_text "browser|timeout|io" calls
