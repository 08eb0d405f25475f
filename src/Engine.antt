-- ===== src/Engine.antt =====
-- The engine's host code (vllm_rlt/engine/llm_engine.py).
pub mod State
pub mod Exits
pub mod Tokens
pub mod Updates
pub mod Requests
pub mod Submissions
mod Tests
