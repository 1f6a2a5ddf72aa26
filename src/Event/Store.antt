-- ===== src/Event/Store.antt =====
-- `SQLiteEventStore` of src/pasi/core/event_store.py, and `RuntimeEventFeed` of
-- src/pasi/core/runtime_events.py. The rows stand in the order of their sequence numbers, which
-- AUTOINCREMENT never gives twice. A row holds the payload and the references themselves, whose texts
-- of JSON are read back as they were. An error comes with the log, which `append` may have written.
pub mod Laws
use pasi_engineering_workspa.Prelude.{
  ℕ, ℤ, pos, ◌+◌, Bool, true, false, not, ◌&&◌, ◌||◌, String, str_eq, Result, ok, err, raise_if,
  map_err, ◌>>=◌, ◌>>◌, ltb, Option, none, some, List, [], ◌∷◌, ◌++◌, keep, length, take,
  if◌then◌else◌,
}
use pasi_engineering_workspa.Text.{elem}
use pasi_engineering_workspa.Json.{Fields}
use pasi_engineering_workspa.Event.{DurableEvent, EventError, make_event}
use pasi_engineering_workspa.Operation.Store.{fits}

pub record EventLog : Type 0 where
  pub last_sequence : ℕ
  pub rows : List DurableEvent

-- `DuplicateEvent`, `EventNotFound`, the `ValueError` of `list`, and what the constructor raises
pub data LogError : Type 0 where
  duplicate_event event_not_found bad_event_limit : LogError
  invalid_event : EventError → LogError

unfoldable pub find_event : String → List DurableEvent → Option DurableEvent
find_event id [] = none
find_event id (e ∷ rows) = if str_eq e.event_id id then some e else find_event id rows

-- `operation_id = ? AND correlation_id = ?`, as far as they are given
unfoldable pub wanted_event : Option String → Option String → DurableEvent → Bool
wanted_event operation correlation e =
    fits operation e.operation_id && fits correlation e.correlation_id

-- The references of the events, each once, in the order in which they first come
unfoldable pub add_refs : List String → List String → List String
unfolding elem
add_refs found [] = found
add_refs found (ref ∷ refs) = add_refs (if elem ref found then found else found ++ (ref ∷ [])) refs

unfoldable pub evidence_of : List String → List DurableEvent → List String
unfolding add_refs
evidence_of found [] = found
evidence_of found (e ∷ events) = evidence_of (add_refs found e.evidence_refs) events

pub record EventFeed : Type 0 where
  pub events : List DurableEvent
  pub evidence_refs : List String
  pub event_count : ℕ

module _ (dumps : Fields → String) (sha256 : String → String) where
  -- `_row_to_event`
  unfoldable pub load_event : DurableEvent → Result LogError DurableEvent
  load_event row = map_err invalid_event (make_event dumps sha256 row)

  unfoldable pub append : DurableEvent → EventLog → EventLog × Result LogError DurableEvent
  unfolding find_event load_event
  append e log = elim (find_event e.event_id log.rows) [
    | some _ ↦ (log, err duplicate_event)
    | none ↦
        let number = log.last_sequence + 1 in
        let row = record e { sequence = some (pos number) } in
        (record { last_sequence = number; rows = log.rows ++ (row ∷ []) }, load_event row)
  ]

  unfoldable pub found_event : Option DurableEvent → Result LogError DurableEvent
  unfolding load_event
  found_event none = err event_not_found
  found_event (some row) = load_event row

  -- `get`
  unfoldable pub get_event : String → EventLog → Result LogError DurableEvent
  unfolding find_event found_event
  get_event id log = found_event (find_event id log.rows)

  unfoldable pub load_events : List DurableEvent → Result LogError (List DurableEvent)
  unfolding load_event
  load_events [] = ok []
  load_events (row ∷ rows) = do e ← load_event row; rest ← load_events rows; ok (e ∷ rest)

  unfoldable pub list_events :
      Option String → Option String → ℕ → EventLog → Result LogError (List DurableEvent)
  unfolding load_events wanted_event
  list_events operation correlation limit log = do
    raise_if (ltb limit 1 || ltb 10000 limit) bad_event_limit
    load_events (take limit (keep (wanted_event operation correlation) log.rows))

  -- `for_operation`
  unfoldable pub feed_for : String → ℕ → EventLog → Result LogError EventFeed
  unfolding list_events evidence_of
  feed_for operation limit log = do
    events ← list_events (some operation) none limit log
    ok (record {
      events = events;
      evidence_refs = evidence_of [] events;
      event_count = length events;
    })
