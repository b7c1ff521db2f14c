-- ===== src/Orchestrator.antt =====
-- The orchestrator of job runs (internal/server/orchestrator): validation of a job's steps and the
-- runner that walks its graph of dependencies. The children hold the definitions and the proofs.
pub mod Types
pub mod Effects
pub mod Dag
pub mod Config
pub mod Runner
pub mod Rebuild
pub mod System
pub mod Service
