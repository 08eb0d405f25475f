-- ===== src/Lib.antt =====
-- Models of vllm-rlt, an inference engine for looped transformers, and theorems about them.
--
-- A request's tokens pass through a prelude, a number of recurrent loops and a coda. The scheduler
-- (vllm_rlt/core/scheduler.py) keeps a queue for each stage, admits waiting requests and takes batches;
-- the KV cache manager (vllm_rlt/core/kv_cache_manager.py) hands out the pages that hold keys and values
-- of each token at each loop.
--
-- Common    Boolean tests, list, dictionary and division lemmas, and `Result` for code that raises. A
--           value `err e` stands for an exception of class `e`; the state of a raising call is dropped.
-- KvCache   `KVCacheManager`. `KvCache.State` has its fields (`Cache`) and queries, `KvCache.Pool` the
--           reference counts and the free list with `_drop_refs` and `_claim`, `KvCache.Pages` the calls
--           `allocate`, `ensure_capacity`, `truncate_suffix`, `free` and the transfer leases,
--           `KvCache.Prefix` the prefix index, `KvCache.Written` and `KvCache.Marks` the written
--           positions, `KvCache.Contents` the tensors with snapshots and exit copies. The invariant is
--           `KvCache.Sound.IsSound`. An `_Allocation` object carries a number for its identity, which
--           `poll_prefixes` compares. SHA-256 is a parameter, and the answers of GPU events are too.
-- Scheduler `Scheduler`, its policies and `Request`. `Scheduler.State` has the records; a `World` is the
--           scheduler with its cache manager. `Scheduler.Queues` has `add_request`, `finish` and the
--           waiting order, `Scheduler.Admission` the calls behind `_admit`, `Scheduler.Batches` those behind
--           `_take`, `Scheduler.Policies` vllm_rlt/core/scheduling_policy.py. A request is held by value
--           under its id; the engine's callbacks for preemption and resumption are parameters, functions
--           on the `World`.
-- Preemption  vllm_rlt/engine/preemption.py: the choice of a victim, `preempt` and `resume`. The theorems
--           on the scheduler hold for any callbacks and do not assume these.
-- Engine    vllm_rlt/engine/llm_engine.py. `Engine.State` has the fields, `Engine.Exits` the exit policies,
--           `Engine.Updates` and `Engine.Tokens` what a finished batch does to its requests,
--           `Engine.Submissions` the asynchronous submission, `Engine.Requests` the calls of a client. A
--           request is held by value under its id, with a number for the object's identity. The test of a
--           score against `exit_threshold` is a floating-point computation: its answer is an argument, as
--           are the answers of the model runner (`Runner`). Preemption's snapshots, profiling and the
--           asynchronous speculative runner are left out.
-- Coordinator  vllm_rlt/pd/engine.py. `Coordinator.State` has the records, `Coordinator.Messages` the
--           handler of a worker's message, `Coordinator.Requests` and `Coordinator.Admission` the calls
--           behind `add_request`, `abort_request` and `_admit`, `Coordinator.Steps` `step`. A request
--           object belongs to one transfer, whose id stands for its identity in `requests`. Processes,
--           channels and clocks are arguments; what is sent is a list. The shares that `min` compares are
--           exact fractions. `Coordinator.Reachable` has the step relation of all interleavings.
-- Handover  vllm_rlt/pd/worker.py: `Handover.State` has the records, `Handover.Commands` the commands of the
--           coordinator, `Handover.Progress` the progress of the transfers, `Handover.Prefilling`
--           `prefill_step` and `Handover.Run` the rounds of `run`. A worker has an engine and a connector
--           of those models; it takes the coordinator's commands and sends the messages that the
--           coordinator reads. The transport's notifications, the events of the GPU, the engine's step
--           and what the model runner does to the pages are arguments.
-- Transfer  vllm_rlt/pd/transport.py: `kv_segments`, `partition_segments`, `submit` and `poll`;
--           `Transfer.Validated` composes them with the checks of vllm_rlt/pd/config.py.
-- Attention `plan_attention_metadata` of vllm_rlt/attention/metadata.py.
-- Speculative `greedy_accept` of vllm_rlt/worker/speculative.py.
-- Config    validation of the integer settings in vllm_rlt/config.py, vllm_rlt/sampling_params.py and
--           vllm_rlt/pd/config.py, with the timeouts of the last.
--
-- Loops are structural recursions over the list they walk; `_WrittenPositions.add` runs on the number of
-- pending positions as fuel, which is enough as each round takes one away (`KvCache.Written.Laws`).
-- `_take` and `_admit` run as many rounds as the queue had entries. `wait_outputs` runs on fuel, and returns none where it is used up.
-- A generator that raises drops what it yielded before. Arguments of the wrong Python type, negative
-- numbers and tensor shapes are not modelled.
pub mod Common
pub mod KvCache
pub mod Scheduler
pub mod Transfer
pub mod Config
pub mod Speculative
pub mod Preemption
pub mod Attention
pub mod Coordinator
pub mod Engine
pub mod Handover
