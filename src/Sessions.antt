-- ===== src/Sessions.antt =====
-- Sessions on the server: terminal output to browsers, and text injected into sessions.
pub mod Registry
pub mod Injection
