-- ===== src/Engine/Exits.antt =====
-- The exit policies of `LLMEngine` in vllm_rlt/engine/llm_engine.py: `_should_exit`, `_trace_exit`,
-- `_delayed_exit` and `_delayed_signal`. `reached` is the floating-point test of the score against
-- `exit_threshold`.
pub mod Depths
use vllm_rlt.Common.{
  ℕ, ◌+◌, ◌==◌, Bool, true, false, ◌&&◌, ◌||◌, Option, none, some, Result, ok, err, index_error,
  leb, if◌then◌else◌, get_elem?, List, ◌>>=◌,
}
use vllm_rlt.Scheduler.State.{Request, num_scheduled_outputs}
use vllm_rlt.Engine.State.{ExitMode, is_trace, EngineConfig, max_depth}

unfoldable pub should_exit : EngineConfig → Bool → Request → Bool
unfolding max_depth
should_exit config reached r =
    leb (max_depth config r) r.loops_done
    || (r.sampling_params.exits_early && (leb r.sampling_params.min_loops r.loops_done && reached))

-- A trace that is too short raises.
unfoldable pub trace_exit : Request → Result Bool
unfolding num_scheduled_outputs
trace_exit r = elim (get_elem? r.exit_trace (num_scheduled_outputs r)) [
  | none ↦ err index_error
  | some target ↦ ok (leb target r.loops_done)
]

-- The depth that `min_loops` is compared with.
abbrev pub eligible_depth : ExitMode → ℕ → ℕ
eligible_depth ExitMode.ouro_delayed signal_depth = signal_depth
eligible_depth ExitMode.ouro signal_depth = signal_depth + 1
eligible_depth ExitMode.random_lookahead signal_depth = signal_depth + 1
eligible_depth ExitMode.trace signal_depth = signal_depth + 1

unfoldable pub delayed_signal : EngineConfig → Bool → ℕ → Request → Bool
delayed_signal config reached signal_depth r =
    r.sampling_params.exits_early
    && (leb r.sampling_params.min_loops (eligible_depth config.exit_mode signal_depth) && reached)

-- `request.pending_exit_depth == request.loops_done`.
abbrev pub is_depth : Option ℕ → ℕ → Bool
is_depth none loops = false
is_depth (some depth) loops = depth == loops

unfoldable pub delayed_exit : EngineConfig → Bool → Request → Bool × Request
unfolding max_depth delayed_signal
delayed_exit config reached r =
    if leb (max_depth config r) r.loops_done || is_depth r.pending_exit_depth r.loops_done
    then (true, r)
    else if delayed_signal config reached r.loops_done r
    then (false, record r { pending_exit_depth = some (r.loops_done + 1) })
    else (false, r)

-- The loop of `_update` in the stage RECURRENT: one more loop is done, and whether the token exits.
unfoldable pub recurrent_loop : EngineConfig → Bool → Request → Result (Bool × Request)
unfolding should_exit trace_exit delayed_exit
recurrent_loop config reached r =
    let r' = record r { loops_done = r.loops_done + 1 } in
    elim config.exit_mode [
      | ExitMode.trace ↦ do exits ← trace_exit r'; ok (exits, r')
      | ExitMode.ouro ↦ ok (should_exit config reached r', r')
      | ExitMode.ouro_delayed ↦ ok (delayed_exit config reached r')
      | ExitMode.random_lookahead ↦ ok (delayed_exit config reached r')
    ]
