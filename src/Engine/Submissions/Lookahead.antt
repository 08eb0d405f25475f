-- ===== src/Engine/Submissions/Lookahead.antt =====
-- The delayed exit policies of vllm_rlt/engine/llm_engine.py, synchronous (`_delayed_exit`) and
-- asynchronous (the signals of `_step_async`): both let a token exit at the same depth.
use vllm_rlt.Common.{
  ℕ, zero, suc, ◌+◌, ◌≤◌, ◌≡◌, Bool, false, ◌&&◌, Option, none, some, Result, ok, err, ◌>>=◌,
  if◌then◌else◌,
}
use vllm_rlt.Scheduler.State.{Request, position}
use vllm_rlt.Engine.State.{EngineConfig, ExitSignal}
use vllm_rlt.Engine.Exits.{delayed_signal, is_depth}
use vllm_rlt.Engine.Submissions.{looks_back, depth_exit, signal_exit}

-- The signal that a submitted loop leaves for the next.
abbrev left_signal : EngineConfig → Bool → Request → Option ExitSignal
left_signal config reached r =
    if looks_back config.exit_mode && r.sampling_params.exits_early
    then some (record { position = position r; depth = r.loops_done; reached = reached })
    else none

-- The decisions of `submit_loop` on one token, one for each loop, until it exits.
unfoldable pub run_submits :
    EngineConfig → (ℕ → Bool) → ℕ → Option ExitSignal → Request → Result (Option Request)
unfolding depth_exit signal_exit position
run_submits config scores zero previous r = ok none
run_submits config scores (suc fuel) previous r = do
  let r' = record r { loops_done = r.loops_done + 1 }
  at_depth ← depth_exit config r'
  exits ← signal_exit config previous at_depth r'
  let rest = run_submits config scores fuel (left_signal config (scores r.loops_done) r') r'
  if exits then ok (some (record r' { pending_exit_depth = some r'.loops_done })) else rest

-- The depth that a token exited at.
abbrev pub exit_depth : Result (Option Request) → Result (Option ℕ)
exit_depth (err raised) = err raised
exit_depth (ok none) = ok none
exit_depth (ok (some r)) = ok (some r.loops_done)

-- What the preceding loop's signal decides.
abbrev decided : EngineConfig → Option ExitSignal → Request → Bool
decided config none r = false
decided config (some s) r = delayed_signal config s.reached s.depth r

abbrev pub with_pending : Option ℕ → Request → Request
with_pending p r = record r { pending_exit_depth = p }

abbrev one_more : Request → Request
one_more r = record r { loops_done = r.loops_done + 1 }

-- The depth that the synchronous policy has decided on, and the signal of the asynchronous one, before
-- the next loop.
record IsLinked (config : EngineConfig) (p : Option ℕ) (a : Request) (previous : Option ExitSignal)
    : Type 0 where
  pending : is_depth p (a.loops_done + 1) ≡ decided config previous a
  early : (depth : ℕ) → p ≡ some depth → depth ≤ a.loops_done + 1
  signal :
      (g : ExitSignal) → previous ≡ some g → (g.position ≡ position a) × (g.depth ≡ a.loops_done)
