-- ===== src/Orchestrator/Trimmed.antt =====
-- The positions that `save_queue` of automation/orchestrator/state.py drops, and the items that they are.
use pasi_engineering_workspa.Prelude.{
  ℕ, zero, suc, ◌+◌, ◌-◌, ◌==◌, ◌<◌, ltb, ◌≡◌, refl, ap, ◌∙◌, inl, inr, Bool, true, false, ok,
  Option, none, some, Bool-cases, ==_refl, List, [], ◌∷◌, keep, take, length, all, &&_true, arith,
  if◌then◌else◌,
}
use pasi_engineering_workspa.Text.{elem}
use pasi_engineering_workspa.Json.{Value, Fields, obj, arr, str, int, float, bool, null, get}
use pasi_engineering_workspa.Orchestrator.{
  is_terminal_status, terminal_indexes, has_index, drop_indexes, max_terminal, trimmed,
}

unfoldable pub says_terminal : Option Value → Bool
unfolding elem
says_terminal (some (str s)) = elem s ("completed" ∷ "failed" ∷ "cancelled" ∷ [])
says_terminal _ = false

-- An item in a terminal status
unfoldable pub is_terminal : Fields → Bool
unfolding says_terminal
is_terminal row = says_terminal (get "status" row)

-- The queue without its `n` first terminal items
unfoldable pub drop_oldest : ℕ → List Fields → List Fields
unfolding is_terminal
drop_oldest zero queue = queue
drop_oldest (suc n) [] = []
drop_oldest (suc n) (row ∷ queue) =
    if is_terminal row then drop_oldest n queue else row ∷ drop_oldest (suc n) queue

-- The positions of the terminal items, counted from `index`
indexes : ℕ → List Fields → List ℕ
unfolding is_terminal
indexes index [] = []
indexes index (row ∷ queue) =
    let rest = indexes (index + 1) queue in if is_terminal row then index ∷ rest else rest

-- A status that is no list and no object
unfoldable pub is_plain : Option Value → Bool
is_plain (some (arr items)) = false
is_plain (some (obj fields)) = false
is_plain _ = true

status_read :
    (status : Option Value)
    → is_plain status ≡ true
    → is_terminal_status status ≡ ok (says_terminal status)
unfolding is_terminal_status says_terminal is_plain
status_read (some (arr items)) h = cc
status_read (some (obj fields)) h = cc
status_read (some (str s)) h = refl
status_read (some (int n)) h = refl
status_read (some (float n)) h = refl
status_read (some (bool n)) h = refl
status_read (some null) h = refl
status_read none h = refl

indexes_read :
    (index : ℕ) (queue : List Fields)
    → all (λ row. is_plain (get "status" row)) queue ≡ true
    → terminal_indexes index queue ≡ ok (indexes index queue)
unfolding terminal_indexes indexes is_terminal all
indexes_read index [] h = refl
indexes_read index (row ∷ queue) h =
    let (plain, rest) = &&_true (is_plain (get "status" row)) _ h in
    rw (status_read (get "status" row) plain, indexes_read (index + 1) queue rest) refl

eq_passed : (i index : ℕ) → i < index → (index == i) ≡ false
eq_passed i index less = ground arith

eq_earlier : (i index : ℕ) → i < index → (i == index) ≡ false
eq_earlier i index less = ground arith

one_later : (i index : ℕ) → i < index → i < index + 1
one_later i index less = omega arith

now_later : (index : ℕ) → index < index + 1
now_later index = omega arith

-- A smaller position is not among them.
has_index-take :
    (i index n : ℕ) (queue : List Fields)
    → i < index
    → has_index i (take n (indexes index queue)) ≡ false
unfolding has_index indexes is_terminal
has_index-take i index zero queue less = refl
has_index-take i index (suc n) [] less = refl
has_index-take i index (suc n) (row ∷ queue) less = elim (Bool-cases (is_terminal row)) [
  | inl t ↦
      rw (t, eq_earlier i index less, has_index-take i (index + 1) n queue (one_later i index less))
        refl
  | inr f ↦ rw f (has_index-take i (index + 1) (suc n) queue (one_later i index less))
]

-- A position that is passed does not matter.
drop_indexes-passed :
    (i index : ℕ) (dropped : List ℕ) (queue : List Fields)
    → i < index
    → drop_indexes index (i ∷ dropped) queue ≡ drop_indexes index dropped queue
unfolding drop_indexes has_index
drop_indexes-passed i index dropped [] less = refl
drop_indexes-passed i index dropped (row ∷ queue) less =
    rw
      (
        eq_passed i index less,
        drop_indexes-passed i (index + 1) dropped queue (one_later i index less),
      )
      refl

drop_indexes-nothing : (index : ℕ) (queue : List Fields) → drop_indexes index [] queue ≡ queue
unfolding drop_indexes has_index
drop_indexes-nothing index [] = refl
drop_indexes-nothing index (row ∷ queue) =
    ap (λ q. row ∷ q) (drop_indexes-nothing (index + 1) queue)

drop_indexes-drop_oldest :
    (n index : ℕ) (queue : List Fields)
    → drop_indexes index (take n (indexes index queue)) queue ≡ drop_oldest n queue
unfolding drop_indexes drop_oldest indexes is_terminal has_index
drop_indexes-drop_oldest zero index queue = drop_indexes-nothing index queue
drop_indexes-drop_oldest (suc n) index [] = refl
drop_indexes-drop_oldest (suc n) index (row ∷ queue) = elim (Bool-cases (is_terminal row)) [
  | inl t ↦
      rw (t, ==_refl index)
        (drop_indexes-passed index (index + 1) (take n (indexes (index + 1) queue)) queue
            (now_later index)
          ∙ drop_indexes-drop_oldest n (index + 1) queue)
  | inr f ↦
      rw
        (
          f,
          has_index-take index (index + 1) (suc n) queue (now_later index),
          drop_indexes-drop_oldest (suc n) (index + 1) queue,
        )
        refl
]

length-indexes :
    (index : ℕ) (queue : List Fields)
    → length (indexes index queue) ≡ length (keep is_terminal queue)
unfolding indexes keep
length-indexes index [] = refl
length-indexes index (row ∷ queue) = elim (Bool-cases (is_terminal row)) [
  | inl t ↦ rw (t, length-indexes (index + 1) queue) refl
  | inr f ↦ rw (f, length-indexes (index + 1) queue) refl
]

-- How many terminal items there are too many
unfoldable pub excess : List Fields → ℕ
excess queue = length (keep is_terminal queue) - max_terminal

few : (n : ℕ) → ltb 32 n ≡ false → n - 32 ≡ 0
few n h = ground arith

pub trimmed-drop_oldest :
    (queue : List Fields)
    → all (λ row. is_plain (get "status" row)) queue ≡ true
    → trimmed queue ≡ ok (drop_oldest (excess queue) queue)
unfolding trimmed excess drop_oldest
trimmed-drop_oldest queue plain = elim (Bool-cases (ltb 32 (length (keep is_terminal queue)))) [
  | inl many ↦
      rw (trimmed, indexes_read 0 queue plain, length-indexes 0 queue, many)
        (ap ok (drop_indexes-drop_oldest (length (keep is_terminal queue) - 32) 0 queue))
  | inr fits ↦
      rw
        (
          trimmed,
          indexes_read 0 queue plain,
          length-indexes 0 queue,
          fits,
          few (length (keep is_terminal queue)) fits,
        )
        refl
]
