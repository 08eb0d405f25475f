-- ===== src/Scheduler/Policies.antt =====
-- vllm_rlt/core/scheduling_policy.py, and `schedule` of vllm_rlt/core/scheduler.py.
pub mod Fairness
use vllm_rlt.Common.{
  ℕ, Bool, true, false, not, ◌&&◌, ◌||◌, List, [], ◌∷◌, Option, none, some, String, Result, ok, err,
  ◌>>=◌, leb, length, if◌then◌else◌,
}
use vllm_rlt.KvCache.State.{is_empty, is_some}
use vllm_rlt.Scheduler.State.{Stage, Mode, SchedulerConfig, NoRefillPhase, Scheduler, World}
use vllm_rlt.Scheduler.Admission.{Callbacks, admit}
use vllm_rlt.Scheduler.Batches.{SchedulerOutput, take_batch}

unfoldable pub decode_due : Scheduler → Bool
decode_due s = leb s.config.max_prefill_batches_before_decode s.prefill_batches_since_recurrent

-- `bool(q[stage])`.
unfoldable pub queued : Stage → World → Bool
queued stage w = not (is_empty (w.scheduler.queues stage))

unfoldable pub coda_ready : World → Bool
unfolding queued
coda_ready w =
    queued Stage.coda w
    && (leb w.scheduler.config.min_coda_batch_size (length (w.scheduler.queues Stage.coda))
        || not (queued Stage.recurrent w))

abbrev pub Scheduled : Type 0
Scheduled = Result (Option SchedulerOutput × World)

unfoldable pub set_phase : NoRefillPhase → World → World
set_phase phase w = record w { scheduler = record w.scheduler { phase = phase } }

-- `RefillPolicy.schedule`, after the admission.
unfoldable pub refill_rest : Callbacks → World → Scheduled
unfolding queued coda_ready
refill_rest callbacks w =
    if queued Stage.prefill w
    then take_batch callbacks Stage.prefill w
    else if queued Stage.prelude w
    then take_batch callbacks Stage.prelude w
    else if coda_ready w
    then take_batch callbacks Stage.coda w
    else if queued Stage.recurrent w
    then take_batch callbacks Stage.recurrent w
    else ok (none, w)

-- `NoRefillPolicy.schedule`, after the admission.
unfoldable pub no_refill_rest : Callbacks → World → Scheduled
unfolding queued set_phase
no_refill_rest callbacks w =
    if queued Stage.prefill w
    then take_batch callbacks Stage.prefill w
    else if queued Stage.coda w
    then take_batch callbacks Stage.coda w
    else if queued Stage.prelude w
    then take_batch callbacks Stage.prelude w
    else if queued Stage.recurrent w
    then take_batch callbacks Stage.recurrent (set_phase NoRefillPhase.core w)
    else ok (none, w)

-- The two tests on the phase at the start of `NoRefillPolicy.schedule`: a phase whose queue is
-- empty gives way to the next.
unfoldable pub next_phase : NoRefillPhase → World → NoRefillPhase
unfolding queued
next_phase NoRefillPhase.fill w = NoRefillPhase.fill
next_phase NoRefillPhase.core w =
    if queued Stage.recurrent w
    then NoRefillPhase.core
    else if queued Stage.coda w
    then NoRefillPhase.drain
    else NoRefillPhase.fill
next_phase NoRefillPhase.drain w =
    if queued Stage.coda w then NoRefillPhase.drain else NoRefillPhase.fill

-- `SpeculativePolicy.schedule`, after the admission.
unfoldable pub speculative_rest : Callbacks → World → Scheduled
unfolding queued
speculative_rest callbacks w =
    if queued Stage.prefill w
    then take_batch callbacks Stage.prefill w
    else if queued Stage.speculative w
    then take_batch callbacks Stage.speculative w
    else ok (none, w)

abbrev pub is_refill : Mode → Bool
is_refill Mode.refill = true
is_refill Mode.no_refill = false

module _ (sha256 : String → List ℕ → String) (ready : ℕ → Bool) where
  unfoldable pub refill : Callbacks → Bool → World → Scheduled
  unfolding decode_due queued coda_ready refill_rest
  refill callbacks prefer_recurrent w =
      if prefer_recurrent && queued Stage.recurrent w
      then take_batch callbacks Stage.recurrent w
      else if queued Stage.prelude w
      then take_batch callbacks Stage.prelude w
      else if coda_ready w
      then take_batch callbacks Stage.coda w
      else if decode_due w.scheduler && queued Stage.recurrent w
      then take_batch callbacks Stage.recurrent w
      else admit sha256 ready callbacks w >>= refill_rest callbacks

  -- `NoRefillPolicy.schedule` in its FILL phase.
  unfoldable pub no_refill_fill : Callbacks → World → Scheduled
  unfolding decode_due queued set_phase no_refill_rest
  no_refill_fill callbacks w =
      if decode_due w.scheduler && queued Stage.prelude w
      then take_batch callbacks Stage.prelude w
      else if decode_due w.scheduler && queued Stage.recurrent w
      then take_batch callbacks Stage.recurrent (set_phase NoRefillPhase.core w)
      else admit sha256 ready callbacks w >>= no_refill_rest callbacks

  unfoldable pub run_phase : NoRefillPhase → Callbacks → World → Scheduled
  unfolding no_refill_fill
  run_phase NoRefillPhase.core callbacks w = take_batch callbacks Stage.recurrent w
  run_phase NoRefillPhase.drain callbacks w = take_batch callbacks Stage.coda w
  run_phase NoRefillPhase.fill callbacks w = no_refill_fill callbacks w

  unfoldable pub no_refill : Callbacks → World → Scheduled
  unfolding next_phase run_phase set_phase
  no_refill callbacks w =
      let phase = next_phase w.scheduler.phase w in run_phase phase callbacks (set_phase phase w)

  unfoldable pub speculative : Callbacks → World → Scheduled
  unfolding decode_due queued speculative_rest
  speculative callbacks w =
      if queued Stage.coda w
      then take_batch callbacks Stage.coda w
      else if decode_due w.scheduler && queued Stage.speculative w
      then take_batch callbacks Stage.speculative w
      else admit sha256 ready callbacks w >>= speculative_rest callbacks

  -- `Scheduler.schedule` with the policy that the constructor chose.
  unfoldable pub schedule : Callbacks → Bool → World → Scheduled
  unfolding refill no_refill speculative
  schedule callbacks prefer_recurrent w =
      if is_empty w.scheduler.requests
      then ok (none, w)
      else if is_some w.scheduler.num_speculative_tokens
      then speculative callbacks w
      else if is_refill w.scheduler.config.mode
      then refill callbacks prefer_recurrent w
      else no_refill callbacks w
