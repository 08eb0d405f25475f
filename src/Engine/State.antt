-- ===== src/Engine/State.antt =====
-- The fields of `LLMEngine` in vllm_rlt/engine/llm_engine.py that its host code reads and changes. The
-- model, the runner's device state, profiling and the async speculative runner are left out.
use vllm_rlt.Common.{
  ℕ, ◌==◌, Bool, true, false, List, Option, none, some, String, Dict, lookup, insert, Result,
  if◌then◌else◌,
}
use vllm_rlt.KvCache.State.{Cache}
use vllm_rlt.Scheduler.State.{Stage, Request, Scheduler, World, loop_limit}
use vllm_rlt.Scheduler.Queues.{enqueue}
use vllm_rlt.Scheduler.Batches.{ScheduledItem}

-- `ExitConfig.mode`.
pub data ExitMode : Type 0 where
  ouro ouro_delayed random_lookahead trace : ExitMode

abbrev pub is_trace : ExitMode → Bool
is_trace trace = true
is_trace ouro = false
is_trace ouro_delayed = false
is_trace random_lookahead = false

-- What the engine reads of the model's and its own configuration; `eos_ids` is `eos_token_id` as a
-- list, `target_loops` that of `speculative_config`.
pub record EngineConfig : Type 0 where
  pub vocab_size : ℕ
  pub total_ut_steps : ℕ
  pub max_position_embeddings : ℕ
  pub eos_ids : List ℕ
  pub exit_mode : ExitMode
  pub exit_traces : Dict (List ℕ)
  pub target_loops : Option ℕ

-- A submitted batch whose outputs are not delivered yet (`output_indices` and `depths` of a coda
-- ticket); `tokens` are the values that `collect` reads back.
pub record Ticket : Type 0 where
  pub items : List ScheduledItem
  pub output_indices : List ℕ
  pub depths : List ℕ
  pub tokens : List ℕ
  pub is_ready : Bool

-- A score that is not consumed yet: the position and depth it was submitted at, and what the
-- floating-point test of the score answers once it is read back.
pub record ExitSignal : Type 0 where
  pub position : ℕ
  pub depth : ℕ
  pub reached : Bool

pub record Engine : Type 0 where
  pub config : EngineConfig
  pub world : World
  pub pending_exit_signals : Dict ExitSignal
  pub pending_coda : List Ticket
  pub committed_tokens : ℕ
  pub accepted_tokens : ℕ
  pub next_ident : ℕ

-- `request.max_loops or self.model.config.total_ut_steps`.
unfoldable pub max_depth : EngineConfig → Request → ℕ
unfolding loop_limit
max_depth config r = loop_limit r.sampling_params.max_loops config.total_ut_steps

-- `requests.get(request.request_id)`, where it is the same object.
unfoldable pub registered : Request → Scheduler → Option Request
registered r s = elim (lookup r.request_id s.requests) [
  | none ↦ none
  | some live ↦ if live.ident == r.ident then some live else none
]

-- The fields of a request are changed in place.
unfoldable pub store_request : Request → Engine → Engine
store_request r e = record e {
  world = record (e.world) {
    scheduler = record (e.world.scheduler) {
      requests = insert r.request_id r e.world.scheduler.requests;
    };
  };
}

-- `self.scheduler.enqueue(request, stage)`.
unfoldable pub enqueue_request : Request → Stage → Engine → Engine
unfolding enqueue
enqueue_request r stage e = record e {
  world = record (e.world) { scheduler = enqueue r.request_id stage e.world.scheduler };
}

-- The host side of the model runner and the cache's events: `finalize` copies the keys and values of an
-- exited token, `event` is the event of a request's last submission, `ready` whether an event has
-- passed, and `sha256` the hash of the prefix index.
pub record Runner : Type 0 where
  pub finalize : Request → Cache → Result Cache
  pub event : String → Option ℕ
  pub ready : ℕ → Bool
  pub sha256 : String → List ℕ → String
