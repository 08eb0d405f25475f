-- ===== src/Engine/Tests.antt =====
-- Runs of the model of vllm_rlt/engine/llm_engine.py, and instances of its theorems.
use vllm_rlt.Common.{
  ℕ, ◌≡◌, ◌<◌, ◌≤◌, refl, Bool, true, false, [], ◌∷◌, none, some, ok, Ensures, ltb, arith,
}
use vllm_rlt.KvCache.State.{Layout, Geometry}
use vllm_rlt.KvCache.Sound.Created.{initial}
use vllm_rlt.Scheduler.State.{Stage, pos, Mode, Order, NoRefillPhase, Request, loop_limit}
use vllm_rlt.Engine.State.{ExitMode, EngineConfig, Engine, Runner, max_depth}
use vllm_rlt.Engine.Exits.Depths.{IsBounded, run_loops, run_loops-IsBounded}
use vllm_rlt.Engine.Tokens.{emit_tokens, collect_coda}
use vllm_rlt.Engine.Tokens.Productive.{Kept}
use vllm_rlt.Engine.Tokens.Rounds.{RoundEmitted, emit_tokens-RoundEmitted}
use vllm_rlt.Engine.Tokens.Delivered.{collect_coda-Kept}
use vllm_rlt.Engine.Updates.{Reading, update}
use vllm_rlt.Engine.Updates.Kept.{update-Kept}
use vllm_rlt.Engine.Submissions.Lookahead.{exit_depth}

abbrev geometry : Geometry
geometry = record {
  num_layers = 2;
  num_kv_heads = 1;
  head_dim = 4;
  num_blocks = 8;
  block_size = 2;
  max_loops = 4;
  layout = Layout.shared;
  enable_prefix_caching = false;
  incremental_allocation = false;
  watermark_blocks = 0;
  recurrent_layers = 0 ∷ 1 ∷ [];
}

abbrev config : EngineConfig
config = record {
  vocab_size = 10;
  total_ut_steps = 4;
  max_position_embeddings = 16;
  eos_ids = 9 ∷ [];
  exit_mode = ExitMode.ouro_delayed;
  exit_traces = [];
  target_loops = none;
}

abbrev looping : Request
looping = record {
  request_id = "a";
  prompt_token_ids = 1 ∷ 2 ∷ [];
  sampling_params = record {
    max_tokens = 3;
    min_loops = 2;
    max_loops = none;
    ignore_eos = false;
    exits_early = true;
    priority = pos 0;
  };
  stage = Stage.coda;
  generated_token_ids = 5 ∷ [];
  exit_depths = 4 ∷ [];
  num_output_placeholders = 1;
  num_speculative_rounds = 0;
  num_prefilled_tokens = 2;
  loops_done = 0;
  pending_exit_depth = none;
  admission_bypasses = 0;
  finish_reason = none;
  exit_trace = [];
  ident = 3;
}

abbrev engine : Engine
engine = record {
  config = config;
  world = record {
    scheduler = record {
      config = record {
        max_num_seqs = 2;
        max_num_batched_tokens = 4;
        prefill_chunk_size = 2;
        mode = Mode.refill;
        policy = Order.fcfs;
        min_coda_batch_size = 1;
        max_prefill_batches_before_decode = 1;
        admission_scan_limit = 4;
        max_admission_bypasses = 2;
      };
      num_speculative_tokens = none;
      requests = ("a", looping) ∷ [];
      queues = λ stage. [];
      prefill_batches_since_recurrent = 0;
      phase = NoRefillPhase.fill;
    };
    cache = initial geometry;
  };
  pending_exit_signals = [];
  pending_coda =
      (record {
        items = record { request = looping; token_start = 2; token_count = 1 } ∷ [];
        output_indices = 1 ∷ [];
        depths = 3 ∷ [];
        tokens = 7 ∷ [];
        is_ready = true;
      })
      ∷ [];
  committed_tokens = 0;
  accepted_tokens = 0;
  next_ident = 4;
}

abbrev runner : Runner
runner = record {
  finalize = λ r cache. ok cache;
  event = λ rid. none;
  ready = λ event. true;
  sha256 = λ key tokens. key;
}

-- The scores pass the test from the second loop on.
abbrev scores : ℕ → Bool
scores depth = ltb 0 depth

looping-IsBounded : IsBounded config looping 4
unfolding max_depth loop_limit
looping-IsBounded = record {
  at_limit = refl;
  minimum = omega arith;
  traced = λ e. absurd (ground arith);
  pending = λ depth e. absurd (ground arith);
}

run_loops-IsBounded_example :
    (r : Request) × (run_loops config scores 4 looping ≡ ok (some r))
    × (0 < r.loops_done)
    × (2 ≤ r.loops_done)
    × (r.loops_done ≤ 4)
run_loops-IsBounded_example =
    run_loops-IsBounded config scores 4 looping 4 looping-IsBounded (omega arith) (omega arith)

run_loops_test : exit_depth (run_loops config scores 4 looping) ≡ ok (some 3)
unfolding run_loops
run_loops_test = refl

emit_tokens-RoundEmitted_example :
    RoundEmitted config 4 (6 ∷ 7 ∷ 8 ∷ []) looping (emit_tokens config 4 (6 ∷ 7 ∷ 8 ∷ []) looping)
emit_tokens-RoundEmitted_example =
    emit_tokens-RoundEmitted config 4 (6 ∷ 7 ∷ 8 ∷ []) looping (omega arith)

abbrev readings : ℕ → Reading
readings index = record { token = 9; reached = true }

update-Kept_example : Ensures Kept (
    update runner Stage.coda readings 0
      (record { request = looping; token_start = 2; token_count = 1 } ∷ [])
      engine)
update-Kept_example =
    update-Kept runner Stage.coda readings 0
      (record { request = looping; token_start = 2; token_count = 1 } ∷ []) engine
      ((refl, omega arith), tt)

collect_coda-Kept_example : Ensures Kept (collect_coda runner false engine)
collect_coda-Kept_example = collect_coda-Kept runner false engine ((refl, omega arith), tt)
