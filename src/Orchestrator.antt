-- ===== src/Orchestrator.antt =====
-- `StateManager` of automation/orchestrator/state.py. The directory is a dictionary from the names of
-- its files to what `json.load` makes of them, if they are JSON; a write replaces a file at once. The
-- directory of the terminal responses is another one, whose files are named by an argument, the
-- SHA-256 of the operation's name.
pub mod Queue
pub mod Responses
pub mod Tests
pub mod Trimmed
use Prim.Native.String.{◌++◌ as text_append}
use pasi_engineering_workspa.Prelude.{
  ℕ, zero, suc, ◌+◌, ◌-◌, ◌==◌, ltb, Bool, true, false, not, ◌&&◌, ◌||◌, String, str_eq, Result, ok,
  err, raise_if, ◌>>=◌, ◌>>◌, Option, none, some, List, [], ◌∷◌, map, keep, any, all, take, length,
  if◌then◌else◌,
}
use pasi_engineering_workspa.Text.{strip, is_blank, elem, subset}
use pasi_engineering_workspa.Dict.{Dict, lookup, put}
use pasi_engineering_workspa.Json.{
  Value, Fields, Items, obj, arr, str, int, float, bool, null, end, field, item, last, get,
}

-- `StateCorruptionError` and the `ValueError`s; `unhashable_status` is the `TypeError` of a status that
-- is a list or an object.
pub data StateError : Type 0 where
  not_json not_an_object not_objects bad_response : (path : String) → StateError
  blank_operation unhashable_status : StateError

abbrev pub Files : Type 0
Files = Dict (Option Value)

-- `write_json`
abbrev pub write_json : String → Value → Files → Files
write_json path value files = put path (some value) files

-- `read_json`
unfoldable pub read_json : String → Value → Files → Result StateError Value
read_json path default files = elim (lookup path files) [
  | none ↦ ok default
  | some none ↦ err (not_json path)
  | some (some value) ↦ ok value
]

unfoldable pub require_dict : String → Value → Result StateError Fields
require_dict path (obj fields) = ok fields
require_dict path _ = err (not_an_object path)

unfoldable pub all_objects : Items → Option (List Fields)
all_objects last = some []
all_objects (item (obj fields) items) = elim (all_objects items) [
  | none ↦ none
  | some rest ↦ some (fields ∷ rest)
]
all_objects (item _ items) = none

unfoldable pub require_list : String → Value → Result StateError (List Fields)
unfolding all_objects
require_list path (arr items) = elim (all_objects items) [
  | none ↦ err (not_objects path)
  | some rows ↦ ok rows
]
require_list path _ = err (not_objects path)

-- The body of every `load` of an object
unfoldable pub load_object : String → Files → Result StateError Fields
unfolding read_json require_dict
load_object path files = do value ← read_json path (obj end) files; require_dict path value

abbrev pub load_project_state : Files → Result StateError Fields
load_project_state = load_object "project-state.json"

abbrev pub load_current_task : Files → Result StateError Fields
load_current_task = load_object "current-task.json"

abbrev pub load_feature_status : Files → Result StateError Fields
load_feature_status = load_object "feature-status.json"

abbrev pub load_retry_state : Files → Result StateError Fields
load_retry_state = load_object "retry-state.json"

abbrev pub load_browser_health : Files → Result StateError Fields
load_browser_health = load_object "browser-health.json"

abbrev pub load_browser_state : Files → Result StateError Fields
load_browser_state = load_object "browser-state.json"

abbrev pub load_browser_results : Files → Result StateError Fields
load_browser_results = load_object "browser-results.json"

abbrev pub load_browser_response : Files → Result StateError Fields
load_browser_response = load_object "browser-response.json"

abbrev pub save_feature_status : Fields → Files → Files
save_feature_status status = write_json "feature-status.json" (obj status)

abbrev pub save_retry_state : Fields → Files → Files
save_retry_state state = write_json "retry-state.json" (obj state)

abbrev pub save_test_results : Fields → Files → Files
save_test_results results = write_json "test-results.json" (obj results)

abbrev pub save_browser_results : Fields → Files → Files
save_browser_results results = write_json "browser-results.json" (obj results)

abbrev pub save_browser_response : Fields → Files → Files
save_browser_response response = write_json "browser-response.json" (obj response)

abbrev pub save_browser_health : Fields → Files → Files
save_browser_health health = write_json "browser-health.json" (obj health)

abbrev pub save_browser_state : Fields → Files → Files
save_browser_state state = write_json "browser-state.json" (obj state)

abbrev pub save_handoff : Fields → Files → Files
save_handoff handoff = write_json "handoff.json" (obj handoff)

-- TERMINAL_QUEUE_STATUSES, and the hash that the membership test takes first
unfoldable pub is_terminal_status : Option Value → Result StateError Bool
unfolding elem
is_terminal_status (some (arr items)) = err unhashable_status
is_terminal_status (some (obj fields)) = err unhashable_status
is_terminal_status (some (str s)) = ok (elem s ("completed" ∷ "failed" ∷ "cancelled" ∷ []))
is_terminal_status _ = ok false

-- `terminal_indexes`
unfoldable pub terminal_indexes : ℕ → List Fields → Result StateError (List ℕ)
unfolding is_terminal_status
terminal_indexes index [] = ok []
terminal_indexes index (row ∷ queue) = do
  terminal ← is_terminal_status (get "status" row)
  rest ← terminal_indexes (index + 1) queue
  ok (if terminal then index ∷ rest else rest)

-- `index in indexes`
unfoldable pub has_index : ℕ → List ℕ → Bool
has_index index [] = false
has_index index (i ∷ indexes) = index == i || has_index index indexes

-- `[item for index, item in enumerate(queue) if index not in drop_indexes]`
unfoldable pub drop_indexes : ℕ → List ℕ → List Fields → List Fields
unfolding has_index
drop_indexes index dropped [] = []
drop_indexes index dropped (row ∷ queue) =
    let rest = drop_indexes (index + 1) dropped queue in
    if not (has_index index dropped) then row ∷ rest else rest

abbrev pub max_terminal : ℕ
max_terminal = 32

-- The queue that `save_queue` writes and returns
unfoldable pub trimmed : List Fields → Result StateError (List Fields)
unfolding terminal_indexes drop_indexes
trimmed queue = do
  indexes ← terminal_indexes 0 queue
  ok (
      if ltb max_terminal (length indexes)
      then drop_indexes 0 (take (length indexes - max_terminal) indexes) queue
      else queue)

abbrev pub items_of : List Fields → Items
items_of [] = last
items_of (row ∷ rows) = item (obj row) (items_of rows)

-- `save_queue`
unfoldable pub save_queue : List Fields → Files → Result StateError (Files × List Fields)
unfolding trimmed
save_queue queue files = do
  kept ← trimmed queue
  ok (write_json "queue.json" (arr (items_of kept)) files, kept)

-- `load_queue`
unfoldable pub load_queue : Files → Result StateError (List Fields)
unfolding read_json require_list
load_queue files = do
  value ← read_json "queue.json" (arr last) files
  require_list "queue.json" value

-- The directory of the terminal responses, if it is there, and `_terminal_response_prune_signature`
pub record ResponseStore : Type 0 where
  pub has_directory : Bool
  pub files : Files
  pub pruned_for : Option (List String)

-- Equality of two sets of texts
abbrev pub same_set : List String → List String → Bool
same_set xs ys = subset xs ys && subset ys xs

-- `signature == self._terminal_response_prune_signature`
abbrev pub was_pruned_for : List String → ResponseStore → Bool
was_pruned_for retained r = elim r.pruned_for [ none ↦ false | some old ↦ same_set retained old ]

module _ (digest : String → String) where
  -- `_terminal_response_filename`
  unfoldable pub response_file : String → Result StateError String
  response_file operation_id =
      raise_if (is_blank (strip operation_id)) blank_operation
      >> ok (text_append (digest operation_id) ".json")

  unfoldable pub save_terminal_response :
      String → String → ResponseStore → Result StateError ResponseStore
  unfolding response_file
  save_terminal_response operation_id text r = do
    path ← response_file operation_id
    ok (record r {
      has_directory = true;
      files =
          write_json path
            (obj (field "operation_id" (str operation_id) (field "response_text" (str text) end)))
            r.files;
    })

  -- What a file of the directory says to the operation
  unfoldable pub response_text : String → String → Value → Result StateError (Option String)
  response_text path operation_id null = ok none
  response_text path operation_id (obj fields) = elim (get "operation_id" fields) [
    | some (str id) ↦ elim (get "response_text" fields) [
      | some (str text) ↦ if str_eq id operation_id then ok (some text) else err (bad_response path)
      | _ ↦ err (bad_response path)
    ]
    | _ ↦ err (bad_response path)
  ]
  response_text path operation_id _ = err (bad_response path)

  unfoldable pub load_terminal_response : String → ResponseStore → Result StateError (Option String)
  unfolding response_file response_text read_json
  load_terminal_response operation_id r = do
    path ← response_file operation_id
    value ← read_json path null r.files
    response_text path operation_id value

  unfoldable pub retained_files : List String → Result StateError (List String)
  unfolding response_file
  retained_files [] = ok []
  retained_files (id ∷ ids) = do
    path ← response_file id
    rest ← retained_files ids
    ok (path ∷ rest)

  -- `prune_terminal_responses`; the name of every file of the directory ends in `.json`.
  unfoldable pub prune_terminal_responses :
      List String → ResponseStore → Result StateError ResponseStore
  unfolding retained_files elem
  prune_terminal_responses retained r =
      if was_pruned_for retained r
      then ok r
      else if not r.has_directory
      then ok (record r { pruned_for = some retained })
      else do
        paths ← retained_files retained
        ok (record r {
          files = keep (λ (f : String × Option Value). elem f.0 paths) r.files;
          pruned_for = some retained;
        })
