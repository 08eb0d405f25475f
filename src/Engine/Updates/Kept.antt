-- ===== src/Engine/Updates/Kept.antt =====
-- `_update` of vllm_rlt/engine/llm_engine.py keeps every request within the tokens it asked for.
use vllm_rlt.Common.{
  ℕ, ◌+◌, inl, inr, Bool, true, false, List, [], ◌∷◌, ◌++◌, none, Result, ok, err, ◌>>=◌, length,
  Option-cases, if-cases, Ensures, bind-Ensures, Ensures-ok, All, All-append, All-insert, ◌==◌,
  remove, leb, ◌||◌,
}
use vllm_rlt.Scheduler.State.{Stage, Request}
use vllm_rlt.Scheduler.Queues.{enqueue}
use vllm_rlt.Scheduler.Batches.{ScheduledItem}
use vllm_rlt.KvCache.Prefix.{publish_prefix}
use vllm_rlt.Engine.State.{
  EngineConfig, Engine, Runner, max_depth, registered, store_request, enqueue_request,
}
use vllm_rlt.Engine.Exits.{trace_exit, delayed_exit, delayed_signal, is_depth, recurrent_loop}
use vllm_rlt.Engine.Exits.Depths.{mode_cases}
use vllm_rlt.Engine.Tokens.Productive.{
  IsProductive, AllProductive, IsPaired, Kept, enqueue-Productive,
}
use vllm_rlt.Engine.Tokens.Delivered.{registered-Productive, update_coda-Kept}
use vllm_rlt.Engine.Updates.{
  Reading, move_to, update_prefill, update_prelude, leave_loop, update_recurrent, update_one,
  update,
}

move_to-Productive :
    (stage : Stage) (r : Request) (e : Engine)
    → IsProductive r
    → AllProductive e
    → AllProductive (move_to stage r e)
unfolding move_to store_request enqueue_request enqueue
move_to-Productive stage r e productive all =
    enqueue-Productive r.request_id stage (store_request r e)
      (All-insert IsProductive r.request_id r e.world.scheduler.requests productive all)

abbrev OfPair : Bool × Request → Type 0
OfPair (exits, r) = IsProductive r

-- A loop changes neither the tokens nor what was asked for.
delayed_exit-Productive :
    (config : EngineConfig) (reached : Bool) (r : Request)
    → IsProductive r
    → IsProductive (delayed_exit config reached r).1
unfolding delayed_exit
delayed_exit-Productive config reached r productive =
    if-cases OfPair
      (leb (max_depth config r) r.loops_done || is_depth r.pending_exit_depth r.loops_done)
      (λ t. productive)
      (λ f.
        if-cases OfPair (delayed_signal config reached r.loops_done r) (λ t. productive)
          (λ g. productive))

recurrent_loop-Productive :
    (config : EngineConfig) (reached : Bool) (r : Request)
    → IsProductive r
    → Ensures (λ done. IsProductive done.1) (recurrent_loop config reached r)
unfolding recurrent_loop
recurrent_loop-Productive config reached r productive =
    let r' = record r { loops_done = r.loops_done + 1 } in
    elim (mode_cases config.exit_mode) [
      | inl e ↦
          rw (e, recurrent_loop)
            (bind-Ensures (λ done. IsProductive done.1) (trace_exit r') _ (λ exits h. productive))
      | inr h ↦ elim h [
        | inl e ↦ rw (e, recurrent_loop) productive
        | inr g ↦ elim g [
          | inl e ↦ rw (e, recurrent_loop) (delayed_exit-Productive config reached r' productive)
          | inr e ↦ rw (e, recurrent_loop) (delayed_exit-Productive config reached r' productive)
        ]
      ]
    ]

leave_loop-Productive :
    (runner : Runner) (exits : Bool) (r : Request) (e : Engine)
    → IsProductive r
    → AllProductive e
    → Ensures AllProductive (leave_loop runner exits r e)
unfolding leave_loop
leave_loop-Productive runner true r e productive all =
    bind-Ensures AllProductive (runner.finalize r e.world.cache) _ (λ cache h.
      move_to-Productive Stage.coda r (record e { world = record (e.world) { cache = cache } })
        productive all)
leave_loop-Productive runner false r e productive all =
    move_to-Productive Stage.recurrent r e productive all

update_recurrent-Productive :
    (runner : Runner) (reached : Bool) (r : Request) (e : Engine)
    → IsProductive r
    → AllProductive e
    → Ensures AllProductive (update_recurrent runner reached r e)
unfolding update_recurrent
update_recurrent-Productive runner reached r e productive all =
    bind-Ensures AllProductive (recurrent_loop e.config reached r) _ (λ done h.
      leave_loop-Productive runner done.0 done.1 e
        (Ensures-ok (λ d. IsProductive d.1) (recurrent_loop e.config reached r) h
          (recurrent_loop-Productive e.config reached r productive))
        all)

update_prefill-Productive :
    (runner : Runner) (count : ℕ) (r : Request) (e : Engine)
    → IsProductive r
    → AllProductive e
    → Ensures AllProductive (update_prefill runner count r e)
unfolding update_prefill
update_prefill-Productive runner count r e productive all =
    let r' = record r { num_prefilled_tokens = r.num_prefilled_tokens + count } in
    bind-Ensures AllProductive
      (publish_prefix runner.sha256 r.request_id r.prompt_token_ids r'.num_prefilled_tokens
        (runner.event r.request_id) e.world.cache)
      _
      (λ cache h.
        let e' = record e { world = record (e.world) { cache = cache } } in
        if-cases AllProductive (r'.num_prefilled_tokens == length r.prompt_token_ids)
          (λ t.
            move_to-Productive Stage.coda (record r' { loops_done = e.config.total_ut_steps }) e'
              productive all)
          (λ f. move_to-Productive Stage.prefill r' e' productive all))

-- No output, and the engine.
silent : (m : Result Engine) → Ensures AllProductive m → Ensures Kept (m >>= λ e. ok ([], e))
silent (err raised) h = tt
silent (ok e) h = (tt, h)

update_one-Kept :
    (runner : Runner) (stage : Stage) (reading : Reading) (count : ℕ) (r : Request) (e : Engine)
    → IsProductive r
    → AllProductive e
    → Ensures Kept (update_one runner stage reading count r e)
unfolding update_one update_prelude
update_one-Kept runner Stage.prefill reading count r e productive all =
    silent (update_prefill runner count r e)
      (update_prefill-Productive runner count r e productive all)
update_one-Kept runner Stage.prelude reading count r e productive all = (
  tt,
  move_to-Productive Stage.recurrent (record r { loops_done = 0; pending_exit_depth = none })
      (record e { pending_exit_signals = remove r.request_id e.pending_exit_signals }) productive
      all,
)
update_one-Kept runner Stage.recurrent reading count r e productive all =
    silent (update_recurrent runner reading.reached r e)
      (update_recurrent-Productive runner reading.reached r e productive all)
update_one-Kept runner Stage.coda reading count r e productive all =
    update_coda-Kept runner reading.token r e productive all
update_one-Kept runner Stage.waiting reading count r e productive all = (tt, all)
update_one-Kept runner Stage.receiving reading count r e productive all = (tt, all)
update_one-Kept runner Stage.speculative reading count r e productive all = (tt, all)
update_one-Kept runner Stage.finished reading count r e productive all = (tt, all)

-- What a batch leaves, in any stage and with any result: every request that is still registered has an
-- exit depth for each of its tokens and fewer tokens than it asked for, and every output has an exit
-- depth for each token, where this held of the registered requests before.
pub update-Kept :
    (runner : Runner) (stage : Stage) (result : ℕ → Reading) (index : ℕ)
    (items : List ScheduledItem) (e : Engine)
    → AllProductive e
    → Ensures Kept (update runner stage result index items e)
unfolding update
update-Kept runner stage result index [] e all = (tt, all)
update-Kept runner stage result index (item ∷ items) e all =
    elim (Option-cases (registered item.request e.world.scheduler)) [
      | inl h ↦ rw (h, update) (update-Kept runner stage result (index + 1) items e all)
      | inr h ↦
          rw (h.1, update)
            (bind-Ensures Kept (update_one runner stage (result index) item.token_count h.0 e) _
              (λ once g.
                let first =
                  Ensures-ok Kept (update_one runner stage (result index) item.token_count h.0 e) g
                    (update_one-Kept runner stage (result index) item.token_count h.0 e
                      (registered-Productive item.request h.0 e all h.1) all) in
                bind-Ensures Kept (update runner stage result (index + 1) items once.1) _ (λ rest k.
                  let later =
                    Ensures-ok Kept (update runner stage result (index + 1) items once.1) k
                      (update-Kept runner stage result (index + 1) items once.1 first.1) in
                  let both : All IsPaired (once.0 ++ rest.0) × AllProductive rest.1 =
                    (All-append IsPaired once.0 rest.0 first.0 later.0, later.1) in
                  both)))
    ]
