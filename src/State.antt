-- ===== src/State.antt =====
-- state.py: retained evidence, the store of a run with its indexes, and the selection of candidates
-- and of exact source values.
pub mod Value
pub mod Evidence
pub mod Store
pub mod Project
pub mod Sources
pub mod Candidates
mod Tests
