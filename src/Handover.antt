-- ===== src/Handover.antt =====
-- The host side of a prefill or decode worker (vllm_rlt/pd/worker.py): `PDWorker`.
pub mod State
pub mod Commands
pub mod Progress
pub mod Prefilling
pub mod Run
pub mod Slots
pub mod Arrivals
mod Tests
