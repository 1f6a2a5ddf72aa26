-- ===== src/Event/Tests.antt =====
-- Tests of src/pasi/core/events.py, event_store.py and runtime_events.py at small inputs. The text of a
-- payload is "{}" and a text is its own hash.
use pasi_engineering_workspa.Prelude.{
  length, pos, arith, ◌≡◌, refl, String, str_eq, ok, err, none, some, List, [], ◌∷◌, ◌++◌, keep,
  take, if◌then◌else◌, ◌-◌,
}
use pasi_engineering_workspa.Text.{strip, any_char, elem}
use pasi_engineering_workspa.Text.Bounded.{TextFault, check_text}
use pasi_engineering_workspa.Json.{Fields, end}
use pasi_engineering_workspa.Event.{
  DurableEvent, EventError, check_names, check_sequence, check_refs, payload_digest, make_event,
  utf8_length,
}
use pasi_engineering_workspa.Event.Store.{
  EventLog, find_event, wanted_event, load_event, append, get_event, load_events, list_events,
  evidence_of,
}
use pasi_engineering_workspa.Event.Store.Laws.{
  IsLog, IsListed, Numbered, numbered, append-IsLog, get_event-append, list_events-append,
}

abbrev dumps : Fields → String
dumps payload = "{}"

abbrev same_text : String → String
same_text s = s

abbrev event : String → List String → DurableEvent
event id refs = record {
  event_id = id;
  event_type = "step";
  source = "test";
  operation_id = "op";
  task_id = "";
  run_id = "";
  correlation_id = "";
  causation_id = "";
  payload = end;
  evidence_refs = refs;
  occurred_at = "t";
  schema_version = pos 1;
  payload_sha256 = "{}";
  sequence = none;
}

abbrev first : DurableEvent
first = event "a" ("r" ∷ "s" ∷ [])

abbrev second : DurableEvent
second = event "b" ("s" ∷ "u" ∷ [])

made : make_event dumps same_text second ≡ ok second
unfolding make_event check_names check_sequence check_refs payload_digest utf8_length check_text
    strip any_char
made = refl

first_made :
    make_event dumps same_text (record first { sequence = some (pos 1) })
    ≡ ok (record first { sequence = some (pos 1) })
unfolding make_event check_names check_sequence check_refs payload_digest utf8_length check_text
    strip any_char
first_made = refl

no_id :
    make_event dumps same_text (event " " []) ≡ err (EventError.bad_text "event_id" TextFault.empty)
unfolding make_event check_names check_text strip
no_id = refl

abbrev one_event : EventLog
one_event = record { last_sequence = 1; rows = record first { sequence = some (pos 1) } ∷ [] }

one_event-IsLog : IsLog dumps same_text one_event
unfolding Numbered
one_event-IsLog = record { valid = (first_made, tt); ordered = (1, refl, omega arith, omega arith) }

append-IsLog_example : IsLog dumps same_text (append dumps same_text second one_event).0
append-IsLog_example = append-IsLog dumps same_text second one_event made one_event-IsLog

not_there : find_event "b" one_event.rows ≡ none
unfolding find_event
not_there = refl

get_event-append_example :
    ((append dumps same_text second one_event).1 ≡ ok (numbered second one_event))
    × (get_event dumps same_text "a" (append dumps same_text second one_event).0 ≡ (
        if str_eq "b" "a"
        then ok (numbered second one_event)
        else get_event dumps same_text "a" one_event))
get_event-append_example = get_event-append dumps same_text second one_event "a" made not_there

listed :
    list_events dumps same_text (some "op") none 2 one_event
    ≡ ok (record first { sequence = some (pos 1) } ∷ [])
unfolding list_events load_events load_event wanted_event keep make_event check_names check_sequence
    check_refs payload_digest utf8_length check_text strip any_char
listed = refl

list_events-append_example :
    (es : List DurableEvent) × IsListed dumps same_text (some "op") none 2 one_event es
    × (list_events dumps same_text (some "op") none 2 (append dumps same_text second one_event).0
        ≡ ok (
            es
            ++ take (2 - length es) (
                if wanted_event (some "op") none second
                then numbered second one_event ∷ []
                else [])))
list_events-append_example =
    list_events-append dumps same_text second one_event (some "op") none 2 made not_there
      one_event-IsLog refl

each_once : evidence_of [] (first ∷ second ∷ []) ≡ "r" ∷ "s" ∷ "u" ∷ []
unfolding evidence_of elem
each_once = refl
