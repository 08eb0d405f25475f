-- ===== src/Coordinator.antt =====
-- The coordinator of prefill and decode workers (vllm_rlt/pd/engine.py).
pub mod State
pub mod Messages
pub mod Requests
pub mod Admission
pub mod Credits
pub mod Steps
pub mod Outputs
pub mod Settled
pub mod Reachable
mod Tests
