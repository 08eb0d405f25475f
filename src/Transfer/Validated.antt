-- ===== src/Transfer/Validated.antt =====
-- The limits of vllm_rlt/pd/config.py in the transfers of vllm_rlt/pd/transport.py.
use vllm_rlt.Common.{ℕ, ◌≤◌, ◌<◌, ◌≡◌, Bool, not, String, ok}
use vllm_rlt.Config.{PdConfig}
use vllm_rlt.Transfer.Inflight.{Connector, Submitted, submit}

record Limits (config : PdConfig) : Type 0 where
  chunk : 0 < config.transfer_chunk_bytes
  descriptors : 0 < config.max_transfer_descriptors
  flight : config.transfer_chunk_bytes ≤ config.max_inflight_bytes

-- A write of this size is posted: it gets a ticket, whatever the agent answers.
abbrev pub Posted : String → ℕ → ℕ → Bool → Connector → ℕ → Type 0
Posted tid sequence handle accepts c size =
    (c' : Connector) × (submit tid sequence size handle accepts c
      ≡ ok (Submitted.queued, not accepts, c'))
