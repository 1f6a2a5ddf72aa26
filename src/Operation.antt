-- ===== src/Operation.antt =====
-- The operation state (src/pasi/core/operation_state.py) and its store
-- (src/pasi/core/operation_store.py).
pub mod Text
pub mod Metadata
pub mod Checks
pub mod State
pub mod Transition
pub mod Store
mod Tests
