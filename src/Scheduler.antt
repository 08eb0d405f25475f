-- ===== src/Scheduler.antt =====
-- vllm_rlt/core/scheduler.py, vllm_rlt/core/scheduling_policy.py and vllm_rlt/request.py.
pub mod State
pub mod Queues
pub mod Admission
pub mod Batches
pub mod Policies
mod Tests
