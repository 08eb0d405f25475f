-- ===== src/KvCache.antt =====
-- vllm_rlt/core/kv_cache_manager.py: each child is about a part of that file.
pub mod Written
pub mod Pool
pub mod State
pub mod Pages
pub mod Prefix
pub mod Marks
pub mod Contents
mod Tests
pub mod Sound
