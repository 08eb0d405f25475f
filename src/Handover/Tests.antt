-- ===== src/Handover/Tests.antt =====
-- Runs of the model of vllm_rlt/pd/worker.py, and instances of its theorems.
use vllm_rlt.Common.{
  ℕ, ◌≡◌, refl, true, false, List, [], ◌∷◌, none, Result, ok, err, Ensures, lookup, insert, remove,
  leb, contains, total, arith,
}
use vllm_rlt.KvCache.State.{Layout, Geometry}
use vllm_rlt.KvCache.Pool.{add_refs, claim, empty_pool}
use vllm_rlt.KvCache.Sound.Created.{initial}
use vllm_rlt.Scheduler.State.{pos, Mode, Order, NoRefillPhase, SamplingParams}
use vllm_rlt.Transfer.Inflight.{Status}
use vllm_rlt.Engine.State.{ExitMode, Engine, Runner}
use vllm_rlt.Coordinator.State.{Role, Command}
use vllm_rlt.Handover.State.{Endpoint, Worker}
use vllm_rlt.Handover.Commands.{command}
use vllm_rlt.Handover.Progress.{has_arrived}
use vllm_rlt.Handover.Run.{WorkerRound, run}
use vllm_rlt.Handover.Slots.{IsSlotted}
use vllm_rlt.Handover.Slots.Accepted.{command-IsSlotted}
use vllm_rlt.Handover.Slots.Runs.{run-IsSlotted}
use vllm_rlt.Handover.Arrivals.{received_of, has_arrived_lem}

abbrev geometry : Geometry
geometry = record {
  num_layers = 1;
  num_kv_heads = 1;
  head_dim = 4;
  num_blocks = 8;
  block_size = 2;
  max_loops = 2;
  layout = Layout.last_exited;
  enable_prefix_caching = false;
  incremental_allocation = false;
  watermark_blocks = 0;
  recurrent_layers = 0 ∷ [];
}

abbrev engine : Engine
engine = record {
  config = record {
    vocab_size = 10;
    total_ut_steps = 2;
    max_position_embeddings = 16;
    eos_ids = 9 ∷ [];
    exit_mode = ExitMode.ouro;
    exit_traces = [];
    target_loops = none;
  };
  world = record {
    scheduler = record {
      config = record {
        max_num_seqs = 2;
        max_num_batched_tokens = 4;
        prefill_chunk_size = 2;
        mode = Mode.refill;
        policy = Order.fcfs;
        min_coda_batch_size = 1;
        max_prefill_batches_before_decode = 1;
        admission_scan_limit = 4;
        max_admission_bypasses = 2;
      };
      num_speculative_tokens = none;
      requests = [];
      queues = λ stage. [];
      prefill_batches_since_recurrent = 0;
      phase = NoRefillPhase.fill;
    };
    cache = initial geometry;
  };
  pending_exit_signals = [];
  pending_coda = [];
  committed_tokens = 0;
  accepted_tokens = 0;
  next_ident = 0;
}

abbrev endpoint : Endpoint
endpoint = record {
  pool = record {
    key_ptr = 0;
    value_ptr = 1000;
    device = 0;
    num_blocks = 8;
    block_size = 2;
    num_layers = 1;
    block_bytes = 16;
    layer_bytes = 16;
    token_bytes = 8;
  };
  hidden_ptr = 5000;
  hidden_bytes = 32;
}

abbrev worker : Worker
worker = record {
  role = Role.decode;
  engine = engine;
  connector = record {
    transfer_chunk_bytes = 64;
    max_inflight_bytes = 128;
    pending = [];
    inflight_bytes = 0;
    bytes_sent = 0;
    transfers = 0;
  };
  info = endpoint;
  peers = ("P", endpoint) ∷ [];
  max_transfer_descriptors = 4;
  active_limit = 1;
  limit = 2;
  free_slots = 1 ∷ 0 ∷ [];
  work = [];
  running = true;
  transfer_cursor = 0;
  sent = [];
}

abbrev runner : Runner
runner = record {
  finalize = λ r cache. ok cache;
  event = λ rid. none;
  ready = λ event. true;
  sha256 = λ key tokens. key;
}

abbrev two_tokens : SamplingParams
two_tokens = record {
  max_tokens = 2;
  min_loops = 1;
  max_loops = none;
  ignore_eos = false;
  exits_early = false;
  priority = pos 0;
}

abbrev reservation : Command
reservation = Command.reserve "t" (1 ∷ 2 ∷ 3 ∷ []) two_tokens none "P"

worker-IsSlotted : IsSlotted worker
unfolding total
worker-IsSlotted s = ground arith

command-IsSlotted_example : Ensures IsSlotted (command runner 0 0 reservation worker)
command-IsSlotted_example = command-IsSlotted runner 0 0 reservation worker worker-IsSlotted

-- The reservation takes the slot at the end of the source's list.
abbrev free_of : Result Worker → Result (List ℕ)
free_of (err raised) = err raised
free_of (ok w) = ok w.free_slots

command_test : free_of (command runner 0 0 reservation worker) ≡ ok (0 ∷ [])
unfolding command lookup insert remove add_refs claim empty_pool
command_test = refl

-- A round with a reservation, and one that reports a write.
abbrev reserving : WorkerRound
reserving = record {
  messages = reservation ∷ [];
  clock = 0;
  event = 0;
  status = λ t. Status.done;
  accepts = λ tid sequence. true;
  notes = [];
  callbacks = record { preempt = none; resume = none };
  run_batch = λ batch cache. ok cache;
  events = λ tid. 0;
  engine_step = λ e. ok ([], e);
}

abbrev noting : WorkerRound
noting = record reserving {
  messages = [];
  notes = record { peer = "P"; tid = "t"; sequence = 0 } ∷ [];
}

run-IsSlotted_example : Ensures IsSlotted (run runner 1 (reserving ∷ noting ∷ []) worker)
run-IsSlotted_example = run-IsSlotted runner 1 (reserving ∷ noting ∷ []) worker worker-IsSlotted

run_test : free_of (run runner 1 (reserving ∷ noting ∷ []) worker) ≡ ok (0 ∷ [])
unfolding run lookup insert remove add_refs claim empty_pool
run_test = refl

arrived : has_arrived 3 (received_of (2 ∷ 0 ∷ 1 ∷ 0 ∷ [])) ≡ ok true
unfolding has_arrived
arrived = refl

has_arrived_lem_example : contains 1 (2 ∷ 0 ∷ 1 ∷ 0 ∷ []) ≡ leb 2 3
has_arrived_lem_example = has_arrived_lem 3 (2 ∷ 0 ∷ 1 ∷ 0 ∷ []) arrived 1
