-- ===== src/Agent.antt =====
-- agent/: the two ways in which the agent collects flows.
pub mod Channel
pub mod Streaming
pub mod Polling
pub mod Pipeline
pub mod Life
