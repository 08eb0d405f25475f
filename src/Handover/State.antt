-- ===== src/Handover/State.antt =====
-- `Work` and the fields of `PDWorker` in vllm_rlt/pd/worker.py. The worker has the engine's state and
-- the transport's; messages to and from the coordinator are those of the coordinator's model.
use vllm_rlt.Common.{ℕ, Bool, List, [], ◌∷◌, ◌++◌, Option, String, Dict, insert}
use vllm_rlt.KvCache.State.{Cache}
use vllm_rlt.Scheduler.State.{Scheduler}
use vllm_rlt.Engine.State.{Engine}
use vllm_rlt.Transfer.Segments.{PoolInfo, Chunk}
use vllm_rlt.Transfer.Inflight.{Connector}
use vllm_rlt.Coordinator.State.{Role, Event}

-- Where a worker's pages and hidden states lie.
pub record Endpoint : Type 0 where
  pub pool : PoolInfo
  pub hidden_ptr : ℕ
  pub hidden_bytes : ℕ

-- A chunk that waits for the event of its computation.
pub record QueuedChunk : Type 0 where
  pub event : ℕ
  pub sequence : ℕ
  pub chunk : Chunk

-- The work's request is the one that is registered under `tid`.
pub record Work : Type 0 where
  pub tid : String
  pub slot : ℕ
  pub peer : String
  pub trace_id : Option String
  pub target_tables : List (List ℕ)
  pub target_slot : ℕ
  pub cached_tokens : ℕ
  pub target_cached_tokens : ℕ
  pub chunks : List QueuedChunk
  pub received : List ℕ
  pub next_sequence : ℕ
  pub expected : Option ℕ
  pub committed : Bool
  pub cancelled : Bool
  pub active : Bool
  pub compute_done : Bool
  pub compute_released : Bool
  pub last_event : Option ℕ
  pub acknowledged : Bool
  pub started : ℕ

-- The head of `free_slots` is the end of the source's list, where it is popped and appended.
pub record Worker : Type 0 where
  pub role : Role
  pub engine : Engine
  pub connector : Connector
  pub info : Endpoint
  pub peers : Dict Endpoint
  pub max_transfer_descriptors : ℕ
  pub active_limit : ℕ
  pub limit : ℕ
  pub free_slots : List ℕ
  pub work : Dict Work
  pub running : Bool
  pub transfer_cursor : ℕ
  pub sent : List (String × Event)

-- `send` of a message about a transfer.
unfoldable pub send_event : String → Event → Worker → Worker
send_event tid event w = record w { sent = w.sent ++ (tid, event) ∷ [] }

unfoldable pub store_work : String → Work → Worker → Worker
store_work tid work w = record w { work = insert tid work w.work }

unfoldable pub set_cache : Cache → Worker → Worker
set_cache cache w = record w {
  engine = record (w.engine) { world = record (w.engine.world) { cache = cache } };
}

unfoldable pub set_scheduler : Scheduler → Worker → Worker
set_scheduler scheduler w = record w {
  engine = record (w.engine) { world = record (w.engine.world) { scheduler = scheduler } };
}
