-- ===== src/Engine/Tokens.antt =====
-- The end of a token in vllm_rlt/engine/llm_engine.py: `_finish`, the coda branch of `_update`,
-- `_deliver_coda`, `_collect_coda` and `_update_speculative`.
pub mod Productive
pub mod Rounds
pub mod Delivered
use vllm_rlt.Common.{
  ℕ, suc, ◌+◌, ◌-◌, ◌==◌, Bool, true, false, not, ◌&&◌, ◌||◌, List, [], ◌∷◌, ◌++◌, Option, none,
  some, String, Dict, lookup, remove, Result, ok, err, ◌>>=◌, ◌>>◌, raise_if, runtime_error,
  index_error, leb, contains, length, get_elem?, if◌then◌else◌, min,
}
use vllm_rlt.KvCache.Pages.{truncate_suffix}
use vllm_rlt.KvCache.Prefix.{poll_prefixes}
use vllm_rlt.Scheduler.State.{Stage, FinishReason, Request, RequestOutput, from_request}
use vllm_rlt.Scheduler.Queues.{finish}
use vllm_rlt.Scheduler.Batches.{ScheduledItem}
use vllm_rlt.Engine.State.{
  EngineConfig, Ticket, Engine, Runner, registered, store_request, enqueue_request,
}

-- A token and its exit depth are appended; why the request ends with it, if it does.
unfoldable pub emit_token : EngineConfig → ℕ → ℕ → Request → Request × Option FinishReason
emit_token config token depth r =
    let r' = record r {
      generated_token_ids = r.generated_token_ids ++ token ∷ [];
      exit_depths = r.exit_depths ++ depth ∷ [];
    } in
    (
      r',
      if contains token config.eos_ids && not r.sampling_params.ignore_eos
          then some FinishReason.stop
          else if leb r.sampling_params.max_tokens (length r'.generated_token_ids)
          then some FinishReason.length_limit
          else none,
    )

-- `_finish`, without the async speculative branch; the runner's release frees device state.
unfoldable pub end_request : Runner → Request → FinishReason → Engine → Result (Request × Engine)
unfolding poll_prefixes finish
end_request runner r reason e = do
  cache ← poll_prefixes runner.sha256 runner.ready e.world.cache
  (r', world) ← finish r reason (record (e.world) { cache = cache })
  ok (
    r',
    record e { world = world; pending_exit_signals = remove r.request_id e.pending_exit_signals },
  )

-- What follows a token: the end of the request, or `next`.
unfoldable pub finish_or :
    Runner
    → (Request → Engine → Result (Request × Engine))
    → Request × Option FinishReason
    → Engine
    → Result (List RequestOutput × Engine)
unfolding end_request store_request from_request
finish_or runner next (r, some reason) e = do
  (r', e') ← end_request runner r reason (store_request r e)
  ok (from_request r' ∷ [], e')
finish_or runner next (r, none) e = do
  (r', e') ← next r (store_request r e)
  ok (from_request r' ∷ [], e')

-- The next stage after a coda: `SPECULATIVE if self.speculative_config else PRELUDE`.
abbrev pub after_coda : EngineConfig → Stage
after_coda config = elim config.target_loops [
  | none ↦ Stage.prelude
  | some loops ↦ Stage.speculative
]

-- The request is queued in a stage; the object's `stage` is set by the queue.
unfoldable pub queue_in : Stage → Request → Engine → Result (Request × Engine)
unfolding enqueue_request
queue_in stage r e = ok (record r { stage = stage }, enqueue_request r stage e)

unfoldable pub update_coda : Runner → ℕ → Request → Engine → Result (List RequestOutput × Engine)
unfolding emit_token finish_or queue_in
update_coda runner token r e =
    finish_or runner (queue_in (after_coda e.config)) (emit_token e.config token r.loops_done r) e

-- One item of `_deliver_coda`: an output that is out of order raises.
unfoldable pub deliver_one :
    Runner → ℕ → ℕ → ℕ → Request → Engine → Result (List RequestOutput × Engine)
unfolding emit_token finish_or
deliver_one runner index token depth r e = do
  raise_if (not (index == length r.generated_token_ids)) runtime_error
  raise_if (not (r.num_output_placeholders == 1)) runtime_error
  let r' = record r { num_output_placeholders = r.num_output_placeholders - 1 }
  finish_or runner (λ s f. ok (s, f)) (emit_token e.config token depth r') e

-- The loop of `_deliver_coda`; a list that is too short raises.
unfoldable pub deliver_items :
    Runner
    → List ScheduledItem
    → List ℕ
    → List ℕ
    → List ℕ
    → Engine
    → Result (List RequestOutput × Engine)
unfolding deliver_one registered
deliver_items runner [] indices depths tokens e = ok ([], e)
deliver_items runner (item ∷ items) (index ∷ indices) (depth ∷ depths) (token ∷ tokens) e =
    elim (registered item.request e.world.scheduler) [
      | none ↦ deliver_items runner items indices depths tokens e
      | some r ↦ do
        (out, e') ← deliver_one runner index token depth r e
        (outs, e'') ← deliver_items runner items indices depths tokens e'
        ok (out ++ outs, e'')
    ]
deliver_items runner (item ∷ items) [] depths tokens e = err index_error
deliver_items runner (item ∷ items) (index ∷ indices) [] tokens e = err index_error
deliver_items runner (item ∷ items) (index ∷ indices) (depth ∷ depths) [] e = err index_error

unfoldable pub deliver_coda : Runner → Ticket → Engine → Result (List RequestOutput × Engine)
unfolding deliver_items
deliver_coda runner ticket e =
    deliver_items runner ticket.items ticket.output_indices ticket.depths ticket.tokens e

-- The loop of `_collect_coda`: the outputs, the tickets that stay pending, and the engine.
unfoldable pub collect_tickets :
    Runner → Bool → List Ticket → Engine → Result (List RequestOutput × List Ticket × Engine)
unfolding deliver_coda
collect_tickets runner wait [] e = ok ([], [], e)
collect_tickets runner wait (ticket ∷ tickets) e =
    if ticket.is_ready || wait
    then (do
      (outs, e') ← deliver_coda runner ticket e
      (more, pending, e'') ← collect_tickets runner false tickets e'
      ok (outs ++ more, pending, e''))
    else (do
      (more, pending, e') ← collect_tickets runner wait tickets e
      ok (more, ticket ∷ pending, e'))

unfoldable pub collect_coda : Runner → Bool → Engine → Result (List RequestOutput × Engine)
unfolding collect_tickets
collect_coda runner wait e = do
  (outs, pending, e') ← collect_tickets runner wait e.pending_coda e
  ok (outs, record e' { pending_coda = pending })

-- The tokens of a speculative round, until the request ends: the request, how many were emitted, and
-- the reason.
unfoldable pub emit_tokens : EngineConfig → ℕ → List ℕ → Request → Request × ℕ × Option FinishReason
unfolding emit_token
emit_tokens config depth [] r = (r, 0, none)
emit_tokens config depth (token ∷ tokens) r =
    let once = emit_token config token depth r in
    let rest = emit_tokens config depth tokens once.0 in
    elim once.1 [ none ↦ (rest.0, suc rest.1, rest.2) | some reason ↦ (once.0, 1, some reason) ]

-- The result of a round for one item.
pub record SpeculativeResult : Type 0 where
  pub token_ids : List ℕ
  pub accepted_count : ℕ

-- The fields of `item.request` as they are now.
unfoldable pub live : Request → Engine → Request
unfolding registered
live r e = elim (registered r e.world.scheduler) [ none ↦ r | some now ↦ now ]

-- `_update_speculative` for one item: the end of the request, or the cache is cut back to the last
-- token that was forwarded.
unfoldable pub continue_speculative : ℕ → Request → Engine → Result (Request × Engine)
unfolding truncate_suffix store_request queue_in
continue_speculative frontier r e = do
  cache ← truncate_suffix r.request_id frontier e.world.cache
  let r' = record r { loops_done = 0 }
  queue_in Stage.speculative r'
      (store_request r' (record e { world = record (e.world) { cache = cache } }))

unfoldable pub update_speculative_one :
    Runner → ℕ → ScheduledItem → SpeculativeResult → Engine → Result (List RequestOutput × Engine)
unfolding live emit_tokens finish_or continue_speculative
update_speculative_one runner depth item result e =
    let got = emit_tokens e.config depth result.token_ids (live item.request e) in
    finish_or runner (continue_speculative (item.token_start + got.1)) (got.0, got.2)
      (record e {
        committed_tokens = e.committed_tokens + got.1;
        accepted_tokens = e.accepted_tokens + min result.accepted_count got.1;
      })

-- `zip` stops at the shorter list.
unfoldable pub update_speculative :
    Runner
    → ℕ
    → List ScheduledItem
    → List SpeculativeResult
    → Engine
    → Result (List RequestOutput × Engine)
unfolding update_speculative_one
update_speculative runner depth [] results e = ok ([], e)
update_speculative runner depth (item ∷ items) [] e = ok ([], e)
update_speculative runner depth (item ∷ items) (result ∷ results) e = do
  (out, e') ← update_speculative_one runner depth item result e
  (outs, e'') ← update_speculative runner depth items results e'
  ok (out ++ outs, e'')
