-- ===== src/Agent.antt =====
-- The agent's side of a session (internal/agent): its recording, and the detection of idle terminals.
pub mod Scrollback
pub mod Noise
pub mod Idle
