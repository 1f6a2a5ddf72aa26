-- ===== src/Roadmap.antt =====
-- src/pasi/core/roadmap.py: phases, tasks and their lifecycle. `Model` has the records and their
-- constructors, `Graph` the search for cycles, `Ops` the methods of `Roadmap`, `Children`
-- the tasks that a model proposes (src/pasi/core/child_tasks.py).
pub mod Model
pub mod Graph
pub mod Check
pub mod Ops
pub mod Children
mod Tests
