-- ===== src/Compiler.antt =====
-- compiler.py: the compiler of agent definitions, component by component.
mod Tests
pub mod Diagnostics
pub mod Program
pub mod Steps
pub mod Providers
pub mod Questions
pub mod Needs
pub mod Bindings
pub mod Visits
pub mod Stages
pub mod Search
pub mod Agent
pub mod Direct
