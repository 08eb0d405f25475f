-- ===== src/Engine/Updates.antt =====
-- `_update` of `LLMEngine` in vllm_rlt/engine/llm_engine.py: what a finished batch does to its requests.
pub mod Kept
use vllm_rlt.Common.{
  ℕ, suc, ◌+◌, ◌==◌, Bool, true, false, List, [], ◌∷◌, ◌++◌, Option, none, some, Dict, remove,
  Result, ok, err, ◌>>=◌, length, if◌then◌else◌,
}
use vllm_rlt.KvCache.Prefix.{publish_prefix}
use vllm_rlt.Scheduler.State.{Stage, Request, RequestOutput}
use vllm_rlt.Scheduler.Batches.{ScheduledItem}
use vllm_rlt.Engine.State.{EngineConfig, Engine, Runner, registered, store_request, enqueue_request}
use vllm_rlt.Engine.Exits.{recurrent_loop}
use vllm_rlt.Engine.Tokens.{update_coda}

-- `result[index]`: a token of a coda, or the test of the score of a loop.
pub record Reading : Type 0 where
  pub token : ℕ
  pub reached : Bool

-- The request object's new fields, and its next queue.
unfoldable pub move_to : Stage → Request → Engine → Engine
unfolding store_request enqueue_request
move_to stage r e = enqueue_request r stage (store_request r e)

unfoldable pub update_prefill : Runner → ℕ → Request → Engine → Result Engine
unfolding publish_prefix move_to
update_prefill runner count r e = do
  let r' = record r { num_prefilled_tokens = r.num_prefilled_tokens + count }
  cache ←
      publish_prefix runner.sha256 r.request_id r.prompt_token_ids r'.num_prefilled_tokens
        (runner.event r.request_id) e.world.cache
  let e' = record e { world = record (e.world) { cache = cache } }
  ok (
      if r'.num_prefilled_tokens == length r.prompt_token_ids
      then move_to Stage.coda (record r' { loops_done = e.config.total_ut_steps }) e'
      else move_to Stage.prefill r' e')

unfoldable pub update_prelude : Request → Engine → Engine
unfolding move_to
update_prelude r e =
    move_to Stage.recurrent (record r { loops_done = 0; pending_exit_depth = none })
      (record e { pending_exit_signals = remove r.request_id e.pending_exit_signals })

-- The end of a loop: an exited token has its keys and values copied.
unfoldable pub leave_loop : Runner → Bool → Request → Engine → Result Engine
unfolding move_to
leave_loop runner true r e = do
  cache ← runner.finalize r e.world.cache
  ok (move_to Stage.coda r (record e { world = record (e.world) { cache = cache } }))
leave_loop runner false r e = ok (move_to Stage.recurrent r e)

unfoldable pub update_recurrent : Runner → Bool → Request → Engine → Result Engine
unfolding recurrent_loop leave_loop
update_recurrent runner reached r e = do
  (exits, r') ← recurrent_loop e.config reached r
  leave_loop runner exits r' e

-- The branch of the batch's stage; the other stages have none.
unfoldable pub update_one :
    Runner → Stage → Reading → ℕ → Request → Engine → Result (List RequestOutput × Engine)
unfolding update_prefill update_prelude update_recurrent update_coda
update_one runner Stage.prefill reading count r e = do
  e' ← update_prefill runner count r e
  ok ([], e')
update_one runner Stage.prelude reading count r e = ok ([], update_prelude r e)
update_one runner Stage.recurrent reading count r e = do
  e' ← update_recurrent runner reading.reached r e
  ok ([], e')
update_one runner Stage.coda reading count r e = update_coda runner reading.token r e
update_one runner Stage.waiting reading count r e = ok ([], e)
update_one runner Stage.receiving reading count r e = ok ([], e)
update_one runner Stage.speculative reading count r e = ok ([], e)
update_one runner Stage.finished reading count r e = ok ([], e)

-- The loop of `_update`: an item whose request is not registered any more is passed over. `result` maps
-- an index of the batch to what was read back.
unfoldable pub update :
    Runner
    → Stage
    → (ℕ → Reading)
    → ℕ
    → List ScheduledItem
    → Engine
    → Result (List RequestOutput × Engine)
unfolding update_one registered
update runner stage result index [] e = ok ([], e)
update runner stage result index (item ∷ items) e =
    elim (registered item.request e.world.scheduler) [
      | none ↦ update runner stage result (index + 1) items e
      | some r ↦ do
        (out, e') ← update_one runner stage (result index) item.token_count r e
        (outs, e'') ← update runner stage result (index + 1) items e'
        ok (out ++ outs, e'')
    ]
