-- ===== src/Tests.antt =====
-- Runs of the models at concrete inputs, and the theorems at such inputs.
mod Orchestrator
mod Service
mod Components
mod Terminals
mod Deliveries
