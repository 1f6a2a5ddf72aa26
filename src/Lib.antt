-- ===== src/Lib.antt =====
-- PASI Engineering Workspace: the control plane of src/pasi/core, with src/pasi/providers and the state
-- of automation/orchestrator.
--
-- The program keeps a roadmap of phases and tasks, chooses the next task from it, and drives one
-- operation for each piece of work, whose state is stored with a revision. What fails is classified and
-- repaired within a budget, what is dangerous needs an approval that can be used once, and the provider
-- of a model is chosen by what it declares. What was done is kept in a log of events, in a ledger of
-- operations and in a memory, from which the context of a task is compiled.
--
-- Prelude, Text, Dict, Json and Sort hold what the parts share: results and their `do` blocks, integers
-- over the native numbers, Python's `strip`, `lower` and order of texts, `dict`, the values of
-- `json.loads` and `sorted`.
--
-- Operation is src/pasi/core/operation_state.py and operation_store.py.
--   Operation.Text      `_bounded_string`
--   Operation.Metadata, Operation.Checks  what `__post_init__` checks of single fields
--   Operation.State     `OperationState`, its `__post_init__`, `to_dict` and `from_mapping`
--   Operation.Transition  `can_transition_to` and `transition`
--   Operation.Store     `SQLiteOperationStateStore`: `create`, `get`, `transition` (here
--                       `transition_row`) and `list`. A table is a dictionary from the primary key to
--                       the other columns. A call that raises leaves the table as it was, as the
--                       rollback does, so that an error carries no table. `migration_status` and the
--                       migration itself are not modelled.
-- Event is src/pasi/core/events.py, Event.Store is src/pasi/core/event_store.py, with the feed of
-- src/pasi/core/runtime_events.py. The text of JSON and SHA-256 are arguments.
-- Control is src/pasi/core/runtime_controls.py over the stores of operations and of events. The three
-- writes of a command are three transactions: an error carries the stores as it left them.
--   Control.Laws        the ways in which `execute` ends
--   Control.Moved       the move of the operation
--   Control.Stale       a revision that was left stays left
--   Control.Idempotent  a key that was used
--   Control.Effects     what a command writes, and what it leaves where it raises
-- Ledger is src/pasi/core/ledger.py and src/pasi/core/ledger_store.py. The loop of `lineage` runs on as
-- much fuel as the table has rows: an operation that was seen is not visited again.
-- Memory is src/pasi/core/memory.py and src/pasi/core/memory_store.py, and Memory.Compaction is
-- src/pasi/core/memory_compaction.py. `str.casefold` is an argument. `apply` is several transactions: it
-- returns the table as it left it, also where it raises.
--   Memory.Writes                what `update` and `archive` do to the table
--   Memory.Compaction.Groups     the groups of a plan
--   Memory.Compaction.Plans      the plans
--   Memory.Compaction.Lossless   every way out of `apply`
--   Memory.Compaction.Applied    the successful one
-- Memory.Learning is src/pasi/core/cross_run_learning.py, with SHA-256 as an argument, and
-- Memory.Retrieval is src/pasi/core/retrieval.py, with `str.lower` as one: Memory.Retrieval.Ranked is
-- about the order of its results and about those left out. Context is
-- src/pasi/core/context_compiler.py, over the roadmap's tasks and the retrieval; what `json.dumps` and
-- SHA-256 make of a context is an argument.
-- Roadmap is src/pasi/core/roadmap.py.
--   Roadmap.Model       the records, the tables of transitions, the constructors of phase and task
--   Roadmap.Graph       `_assert_acyclic`
--   Roadmap.Check       `Roadmap.__post_init__`
--   Roadmap.Ops         the queries, `transition_phase`, `transition_task`, `add_child_tasks`,
--                       `add_tasks` and `with_version`
--                       The digest is a parameter: a function of the contents. `from_mapping`,
--                       `to_dict` and the reading of files are not modelled.
--   Roadmap.Children    `generate` of src/pasi/core/child_tasks.py, which adds to a roadmap what a model
--                       answers. The answer, as `json.loads` reads it, and `str` are arguments.
-- Recovery is src/pasi/core/recovery.py, and Recovery.Repair is src/pasi/core/repair_loop.py, whose
-- action is a parameter that may raise and that passes a state on.
-- Failure is src/pasi/core/failure_registry.py. Its `str.lower` and SHA-256 are arguments.
-- Approval is src/pasi/core/approvals.py. SHA-256 is a parameter, and an instant is a number of
-- microseconds. `Approval.Runs` splits `consume` into its statements, between which other clients may
-- come.
-- Planning.Dependency is src/pasi/core/dependency_graph.py, Planning.Selection is
-- src/pasi/core/task_selection.py and Planning.Schedule is src/pasi/core/scheduling.py. A finite float
-- is a whole multiple of 2 ^ -1074, and is modelled by that number; the rounded difference of two
-- floats is a parameter.
-- Provider is src/pasi/providers/registry.py, Provider.Selection is src/pasi/providers/selection.py, and
-- Provider.Fallback is `choose` and its store of src/pasi/providers/fallback.py. The digest of the
-- registry and what the health store has last seen are arguments.
--
-- Orchestrator is `StateManager` of automation/orchestrator/state.py. A directory is a dictionary from
-- file names to what `json.load` makes of the files; `write_json` and `read_json` are exact on JSON
-- values. SHA-256 is an argument. The saves of dataclasses and of pydantic models, and the loads of the
-- context package, the research state and the results of the execution, are not modelled.
--   Orchestrator.Trimmed    which items the saved queue drops
--   Orchestrator.Queue      the saved queue
--   Orchestrator.Responses  the terminal responses
--
-- Two functions run on fuel. One is `climb` of Ledger. The other is `visit` of Roadmap.Graph: the depth
-- of its calls is bounded by the number of nodes and one more, which is enough on every graph whose
-- dependencies are nodes, as those of a roadmap are. Python's own limit on the depth of calls is not modelled. Everything else is structural
-- recursion. The clock is an argument of each call that reads it. An integer has no bound, as in Python,
-- and a bool among the JSON values counts as the integer that it equals.
--
-- The messages of exceptions are left out, but for what they are about. The rest of the repository is
-- not modelled: the other stores, the clients of providers, the bridge and the browser automation, the
-- scripts, and the code that is not Python.
pub mod Approval
pub mod Context
pub mod Control
pub mod Dict
pub mod Event
pub mod Failure
pub mod Json
pub mod Ledger
pub mod Memory
pub mod Operation
pub mod Orchestrator
pub mod Planning
pub mod Prelude
pub mod Provider
pub mod Recovery
pub mod Roadmap
pub mod Sort
pub mod Text
