-- ===== src/Transfer.antt =====
-- The transport of vllm_rlt/pd/transport.py between a prefill and a decode worker: byte segments of
-- the paged keys and values, their partition into bounded writes, and the writes in flight.
pub mod Segments
pub mod Partition
pub mod Inflight
pub mod Polled
pub mod Validated
mod Tests
