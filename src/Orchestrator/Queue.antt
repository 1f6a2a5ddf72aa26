-- ===== src/Orchestrator/Queue.antt =====
-- What the queue of automation/orchestrator/state.py keeps when it is saved.
use pasi_engineering_workspa.Prelude.{
  String, ℕ, zero, suc, ◌≡◌, refl, ap, inl, inr, Bool, true, not, ok, some, Bool-cases, List, [],
  ◌∷◌, keep, all,
}
use pasi_engineering_workspa.Dict.{lookup-put_self}
use pasi_engineering_workspa.Json.{last, Value, Fields, arr, get}
use pasi_engineering_workspa.Orchestrator.{
  write_json, Files, items_of, all_objects, read_json, require_list, save_queue, load_queue,
}
use pasi_engineering_workspa.Orchestrator.Trimmed.{
  is_terminal, drop_oldest, is_plain, excess, trimmed-drop_oldest,
}

unfoldable pub is_open : Fields → Bool
unfolding is_terminal
is_open row = not (is_terminal row)

is_open_of_terminal : (row : Fields) {t : Bool} → is_terminal row ≡ t → is_open row ≡ not t
unfolding is_open
is_open_of_terminal row h = ap not h

keep_open-drop_oldest :
    (n : ℕ) (queue : List Fields) → keep is_open (drop_oldest n queue) ≡ keep is_open queue
unfolding keep drop_oldest
keep_open-drop_oldest zero queue = refl
keep_open-drop_oldest (suc n) [] = refl
keep_open-drop_oldest (suc n) (row ∷ queue) = elim (Bool-cases (is_terminal row)) [
  | inl t ↦ rw (t, is_open_of_terminal row t) (keep_open-drop_oldest n queue)
  | inr f ↦ rw f (rw (is_open_of_terminal row f, keep_open-drop_oldest (suc n) queue) refl)
]

-- The list without its `n` first members
abbrev pub drop : ℕ → List Fields → List Fields
drop zero queue = queue
drop (suc n) [] = []
drop (suc n) (row ∷ queue) = drop n queue

keep_terminal-drop_oldest :
    (n : ℕ) (queue : List Fields)
    → keep is_terminal (drop_oldest n queue) ≡ drop n (keep is_terminal queue)
unfolding keep drop_oldest
keep_terminal-drop_oldest zero queue = refl
keep_terminal-drop_oldest (suc n) [] = refl
keep_terminal-drop_oldest (suc n) (row ∷ queue) = elim (Bool-cases (is_terminal row)) [
  | inl t ↦ rw t (keep_terminal-drop_oldest n queue)
  | inr f ↦ rw f (rw (f, keep_terminal-drop_oldest (suc n) queue) refl)
]

all_objects-items_of : (queue : List Fields) → all_objects (items_of queue) ≡ some queue
unfolding all_objects
all_objects-items_of [] = refl
all_objects-items_of (row ∷ queue) = rw (all_objects-items_of queue) refl

pub read_json-write_json :
    (path : String) (default value : Value) (files : Files)
    → read_json path default (write_json path value files) ≡ ok value
unfolding read_json
read_json-write_json path default value files =
    rw (read_json, lookup-put_self path (some value) files) refl

require_list-items_of :
    (path : String) (queue : List Fields) → require_list path (arr (items_of queue)) ≡ ok queue
unfolding require_list
require_list-items_of path queue = rw (require_list, all_objects-items_of queue) refl

load_queue-write_json :
    (queue : List Fields) (files : Files)
    → load_queue (write_json "queue.json" (arr (items_of queue)) files) ≡ ok queue
unfolding load_queue require_list
load_queue-write_json queue files =
    rw (load_queue, read_json-write_json "queue.json" (arr last) (arr (items_of queue)) files)
      (require_list-items_of "queue.json" queue)

-- What is left of the queue when it is saved
pub record KeptOf (queue kept : List Fields) : Type 0 where
  pub open_items : keep is_open kept ≡ keep is_open queue
  pub terminal_items : keep is_terminal kept ≡ drop (excess queue) (keep is_terminal queue)
  pub of_queue : kept ≡ drop_oldest (excess queue) queue

-- If no item has a list or an object as its status, the queue is saved. What is kept and written is
-- the queue without its oldest terminal items beyond the last 32: every other item is still there, in
-- order, and of the terminal items the last 32 are. A later load gives the kept queue back.
pub save_queue-load_queue :
    (queue : List Fields) (files : Files)
    → all (λ row. is_plain (get "status" row)) queue ≡ true
    → (saved : Files) × (kept : List Fields) × (save_queue queue files ≡ ok (saved, kept))
      × KeptOf queue kept
      × (load_queue saved ≡ ok kept)
unfolding save_queue
save_queue-load_queue queue files plain =
    let kept = drop_oldest (excess queue) queue in
    (
      write_json "queue.json" (arr (items_of kept)) files,
      kept,
      rw (trimmed-drop_oldest queue plain) refl,
      record {
        open_items = keep_open-drop_oldest (excess queue) queue;
        terminal_items = keep_terminal-drop_oldest (excess queue) queue;
        of_queue = refl;
      },
      load_queue-write_json kept files,
    )
