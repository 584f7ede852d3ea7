-- ===== src/Runtime.antt =====
-- runtime.py, the guarded execution of a mutating tool.
pub mod Host
pub mod Steps
pub mod Arguments
pub mod Mutation
pub mod Trace
pub mod Reading
pub mod Quiet
pub mod Approval
pub mod Facts
pub mod Current
pub mod Prepared
pub mod Guarding
pub mod Guarded
pub mod Receipts
pub mod Returned
mod Tests
