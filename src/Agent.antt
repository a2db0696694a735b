-- ===== src/Agent.antt =====
-- The package agent: the commands that the host's agent runs, and who may ask for them.
pub mod Command
pub mod Serve
pub mod Buffer
