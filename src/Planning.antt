-- ===== src/Planning.antt =====
-- What is planned from a roadmap: `Dependency` is src/pasi/core/dependency_graph.py, `Selection` is
-- src/pasi/core/task_selection.py and `Schedule` is src/pasi/core/scheduling.py.
pub mod Dependency
pub mod Selection
pub mod Schedule
mod Tests
