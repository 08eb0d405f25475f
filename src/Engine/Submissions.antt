-- ===== src/Engine/Submissions.antt =====
-- The asynchronous step of `LLMEngine` in vllm_rlt/engine/llm_engine.py (`_step_async`): what is done
-- with the items of a submitted batch.
pub mod Lookahead
use vllm_rlt.Common.{
  ℕ, zero, suc, ◌+◌, ◌-◌, ◌==◌, Bool, true, false, not, ◌&&◌, ◌||◌, List, [], ◌∷◌, ◌++◌, Option,
  none, some, String, Dict, lookup, insert, remove, Result, ok, err, runtime_error, ◌>>=◌, ◌>>◌,
  raise_if, ltb, leb, any, length, if◌then◌else◌,
}
use vllm_rlt.Scheduler.State.{Stage, Request, RequestOutput, num_scheduled_outputs, position}
use vllm_rlt.Scheduler.Batches.{ScheduledItem}
use vllm_rlt.KvCache.State.{Cache}
use vllm_rlt.Engine.State.{
  ExitMode, is_trace, EngineConfig, ExitSignal, Engine, Runner, max_depth, registered,
  store_request,
}
use vllm_rlt.Engine.Exits.{trace_exit, delayed_signal}
use vllm_rlt.Engine.Tokens.{collect_coda, live}
use vllm_rlt.Engine.Updates.{Reading, move_to}

-- `self.exit_config.mode in ("ouro_delayed", "random_lookahead")`.
abbrev pub looks_back : ExitMode → Bool
looks_back ExitMode.ouro = false
looks_back ExitMode.ouro_delayed = true
looks_back ExitMode.random_lookahead = true
looks_back ExitMode.trace = false

-- The depth alone: a trace, or the limit.
unfoldable pub depth_exit : EngineConfig → Request → Result Bool
unfolding trace_exit max_depth
depth_exit config r =
    if is_trace config.exit_mode then trace_exit r else ok (leb (max_depth config r) r.loops_done)

-- The score of the preceding loop, where the depth does not decide; a signal of another position or
-- depth raises.
unfoldable pub signal_exit : EngineConfig → Option ExitSignal → Bool → Request → Result Bool
unfolding delayed_signal position
signal_exit config none exits r = ok exits
signal_exit config (some previous) true r = ok true
signal_exit config (some previous) false r = do
  raise_if (not (previous.position == position r) || not (previous.depth == r.loops_done - 1))
      runtime_error
  ok (delayed_signal config previous.reached previous.depth r)

-- The queue of the next loop or of the coda; the score of the submitted loop is kept for the next.
unfoldable pub place_loop : Bool → Bool → Request → Engine → List Request × Engine
unfolding position move_to
place_loop exits reached r e =
    if exits
    then (let r' = record r { pending_exit_depth = some r.loops_done } in
        (r' ∷ [], move_to Stage.coda r' e))
    else (let signal : ExitSignal = record {
      position = position r;
      depth = r.loops_done;
      reached = reached;
    } in
        let signals = e.pending_exit_signals in
        let kept =
          if looks_back e.config.exit_mode && r.sampling_params.exits_early
          then insert r.request_id signal signals
          else signals in
        ([], move_to Stage.recurrent r (record e { pending_exit_signals = kept })))

-- One item of a submitted batch in the stage RECURRENT: what exited, and the engine.
unfoldable pub submit_loop : Bool → Request → Engine → Result (List Request × Engine)
unfolding depth_exit signal_exit place_loop
submit_loop reached r e = do
  let r' = record r { loops_done = r.loops_done + 1 }
  let e' = record e { pending_exit_signals = remove r.request_id e.pending_exit_signals }
  at_depth ← depth_exit e.config r'
  exits ← signal_exit e.config (lookup r.request_id e.pending_exit_signals) at_depth r'
  ok (place_loop exits reached r' e')

-- The loop over the batch, and `finalize_many` of what exited.
unfoldable pub submit_loops :
    (ℕ → Bool) → ℕ → List ScheduledItem → Engine → Result (List Request × Engine)
unfolding submit_loop live
submit_loops reached index [] e = ok ([], e)
submit_loops reached index (item ∷ items) e = do
  (exited, e') ← submit_loop (reached index) (live item.request e) e
  (more, e'') ← submit_loops reached (index + 1) items e'
  ok (exited ++ more, e'')

unfoldable pub finalize_many : Runner → List Request → Cache → Result Cache
finalize_many runner [] cache = ok cache
finalize_many runner (r ∷ exited) cache = do
  cache' ← runner.finalize r cache
  finalize_many runner exited cache'

unfoldable pub submit_recurrent : Runner → (ℕ → Bool) → List ScheduledItem → Engine → Result Engine
unfolding submit_loops finalize_many
submit_recurrent runner reached items e = do
  (exited, e') ← submit_loops reached 0 items e
  cache ← finalize_many runner exited e'.world.cache
  ok (record e' { world = record (e'.world) { cache = cache } })

-- A submitted coda: the output is on its way, and the next token's prelude may start.
unfoldable pub reserve_output : Request → Engine → Engine
unfolding num_scheduled_outputs move_to store_request
reserve_output r e =
    let r' = record r { num_output_placeholders = r.num_output_placeholders + 1 } in
    if ltb (num_scheduled_outputs r') r.sampling_params.max_tokens
    then move_to Stage.prelude r' e
    else store_request r' e

unfoldable pub reserve_outputs : List ScheduledItem → Engine → Engine
unfolding reserve_output live
reserve_outputs [] e = e
reserve_outputs (item ∷ items) e = reserve_outputs items (reserve_output (live item.request e) e)

-- Whether an output of the batch's requests is still on its way.
abbrev pub has_pending : List ScheduledItem → Engine → Bool
has_pending items e = any (λ i. not ((live i.request e).num_output_placeholders == 0)) items

-- `while any(...): outputs.extend(self._collect_coda(wait=True))`, on fuel; none where the fuel is used
-- up.
unfoldable pub wait_outputs :
    Runner → ℕ → List ScheduledItem → Engine → Result (Option (List RequestOutput × Engine))
unfolding collect_coda
wait_outputs runner zero items e = ok (if has_pending items e then none else some ([], e))
wait_outputs runner (suc fuel) items e =
    if has_pending items e
    then (do
      (outs, e') ← collect_coda runner true e
      rest ← wait_outputs runner fuel items e'
      elim rest [ none ↦ ok none | some done ↦ ok (some (outs ++ done.0, done.1)) ])
    else ok (some ([], e))

-- The items whose requests are still registered.
unfoldable pub still_registered : List ScheduledItem → Engine → List ScheduledItem
unfolding registered
still_registered [] e = []
still_registered (item ∷ items) e =
    let rest = still_registered items e in
    elim (registered item.request e.world.scheduler) [ none ↦ rest | some r ↦ item ∷ rest ]
