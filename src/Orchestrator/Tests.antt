-- ===== src/Orchestrator/Tests.antt =====
-- Tests of automation/orchestrator/state.py at small inputs.
use Prim.Native.String.{◌++◌ as text_append}
use pasi_engineering_workspa.Prelude.{
  ℕ, zero, suc, ℤ, pos, ◌≡◌, refl, true, false, if◌then◌else◌, String, ok, err, none, some, List,
  [], ◌∷◌, keep, all,
}
use pasi_engineering_workspa.Text.{strip, is_blank, any_char, elem}
use pasi_engineering_workspa.Dict.{lookup}
use pasi_engineering_workspa.Json.{Value, Fields, obj, arr, str, int, field, end, last, get}
use pasi_engineering_workspa.Orchestrator.{
  StateError, Files, ResponseStore, read_json, load_object, require_dict, load_current_task,
  is_terminal_status, terminal_indexes, has_index, drop_indexes, trimmed, save_queue, load_queue,
  response_file, save_terminal_response, load_terminal_response, retained_files, response_text,
  prune_terminal_responses,
}
use pasi_engineering_workspa.Orchestrator.Trimmed.{is_plain}
use pasi_engineering_workspa.Orchestrator.Queue.{KeptOf, save_queue-load_queue}
use pasi_engineering_workspa.Orchestrator.Responses.{prune_terminal_responses-load}

abbrev row : ℤ → String → Fields
row n status = field "id" (int n) (field "status" (str status) end)

-- `n` completed items before the others
abbrev after : ℕ → List Fields → List Fields
after zero queue = queue
after (suc n) queue = row (pos 0) "completed" ∷ after n queue

abbrev queue : List Fields
queue =
    row (pos 1) "failed"
    ∷ row (pos 2) "queued"
    ∷ row (pos 3) "cancelled"
    ∷ after 31 (row (pos 4) "running" ∷ [])

abbrev kept : List Fields
kept = row (pos 2) "queued" ∷ row (pos 3) "cancelled" ∷ after 31 (row (pos 4) "running" ∷ [])

one_dropped : trimmed queue ≡ ok kept
unfolding trimmed terminal_indexes is_terminal_status has_index drop_indexes elem get
one_dropped = refl

unhashable : trimmed (field "status" (arr last) end ∷ []) ≡ err StateError.unhashable_status
unfolding trimmed terminal_indexes is_terminal_status get
unhashable = refl

missing_task : load_current_task [] ≡ ok end
unfolding load_object read_json require_dict lookup
missing_task = refl

corrupt_task :
    load_current_task (("current-task.json", none) ∷ [])
    ≡ err (StateError.not_json "current-task.json")
unfolding load_object read_json lookup
corrupt_task = refl

listed_task :
    load_current_task (("current-task.json", some (arr last)) ∷ [])
    ≡ err (StateError.not_an_object "current-task.json")
unfolding load_object read_json require_dict lookup
listed_task = refl

plain : all (λ (r : Fields). is_plain (get "status" r)) queue ≡ true
unfolding all is_plain get
plain = refl

save_queue-load_queue_example :
    (saved : Files) × (rest : List Fields) × (save_queue queue [] ≡ ok (saved, rest))
    × KeptOf queue rest
    × (load_queue saved ≡ ok rest)
save_queue-load_queue_example = save_queue-load_queue queue [] plain

-- A digest for the tests
abbrev digest : String → String
digest id = text_append "sha-" id

abbrev response : String → String → Value
response id text = obj (field "operation_id" (str id) (field "response_text" (str text) end))

abbrev store : ResponseStore
store = record {
  has_directory = true;
  files =
      ("sha-a.json", some (response "a" "done")) ∷ ("sha-b.json", some (response "b" "no")) ∷ [];
  pruned_for = none;
}

abbrev only_a : ResponseStore
only_a = record {
  has_directory = true;
  files = ("sha-a.json", some (response "a" "done")) ∷ [];
  pruned_for = some ("a" ∷ []);
}

pruned_to_a : prune_terminal_responses digest ("a" ∷ []) store ≡ ok only_a
unfolding prune_terminal_responses retained_files response_file strip any_char elem keep
pruned_to_a = refl

foreign :
    load_terminal_response digest "c"
      (record store { files = ("sha-c.json", some (response "a" "done")) ∷ [] })
    ≡ err (StateError.bad_response "sha-c.json")
unfolding load_terminal_response response_file response_text read_json strip any_char lookup get
foreign = refl

blank : save_terminal_response digest " " "text" store ≡ err StateError.blank_operation
unfolding save_terminal_response response_file strip any_char
blank = refl

file_of_b : response_file digest "b" ≡ ok "sha-b.json"
unfolding response_file strip any_char
file_of_b = refl

file_names : retained_files digest ("a" ∷ []) ≡ ok ("sha-a.json" ∷ [])
unfolding retained_files response_file strip any_char
file_names = refl

a_listed : elem "a" ("a" ∷ []) ≡ true
unfolding elem
a_listed = refl

named : is_blank (strip "c") ≡ false
unfolding strip
named = refl

prune_terminal_responses-load_example : load_terminal_response digest "b" only_a ≡ (
    if elem "sha-b.json" ("sha-a.json" ∷ [])
    then load_terminal_response digest "b" store
    else ok none)
prune_terminal_responses-load_example =
    prune_terminal_responses-load digest ("a" ∷ []) store pruned_to_a "b" "sha-b.json" refl refl
      file_names file_of_b
