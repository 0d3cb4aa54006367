-- ===== src/Researcher.antt =====
-- The researcher pool of pkg/workflow: its parts, each in a module of its own.
pub mod Tracker
pub mod Metrics
pub mod Health
pub mod Executor
pub mod Prompts
mod Stats
pub mod Processor
pub mod Retries
pub mod Dead
pub mod Counts
pub mod Pool
pub mod Leaks
pub mod Active
mod Examples
