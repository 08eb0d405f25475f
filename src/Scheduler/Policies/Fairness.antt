-- ===== src/Scheduler/Policies/Fairness.antt =====
-- Prefill cannot starve decoding (vllm_rlt/core/scheduling_policy.py).
use vllm_rlt.Common.{
  ℕ, ◌≡◌, refl, subst, ◌⊎◌, inl, inr, Bool, true, false, ◌&&◌, List, String, arith, if-cases,
  if◌then◌else◌,
}
use vllm_rlt.Scheduler.State.{Stage, World, NoRefillPhase}
use vllm_rlt.KvCache.State.{is_empty, is_some}
use vllm_rlt.Scheduler.Admission.{Callbacks}
use vllm_rlt.Scheduler.Batches.{take_batch}
use vllm_rlt.Scheduler.Policies.{
  Scheduled, decode_due, queued, coda_ready, set_phase, refill, no_refill, no_refill_fill,
  next_phase, run_phase, speculative, schedule, is_refill,
}

-- The policy takes a batch of a stage after prefill, without an admission before it.
abbrev pub Decodes : Callbacks → World → Scheduled → Type 0
Decodes callbacks w r =
    (stage : Stage) × (w' : World) × (r ≡ take_batch callbacks stage w')
    × (w'.scheduler.queues ≡ w.scheduler.queues)
    × (w'.cache ≡ w.cache)
    × (queued stage w ≡ true)
    × ((stage ≡ Stage.prelude)
        ⊎ ((stage ≡ Stage.coda) ⊎ ((stage ≡ Stage.recurrent) ⊎ (stage ≡ Stage.speculative))))

coda_ready-queued : (w : World) → coda_ready w ≡ true → queued Stage.coda w ≡ true
unfolding coda_ready
coda_ready-queued w h = ground arith

-- The queue that a phase takes from is not empty.
abbrev Runnable : NoRefillPhase → World → Type 0
Runnable NoRefillPhase.fill w = Unit
Runnable NoRefillPhase.core w = queued Stage.recurrent w ≡ true
Runnable NoRefillPhase.drain w = queued Stage.coda w ≡ true

next_phase-Runnable : (phase : NoRefillPhase) (w : World) → Runnable (next_phase phase w) w
unfolding next_phase
next_phase-Runnable NoRefillPhase.fill w = tt
next_phase-Runnable NoRefillPhase.core w =
    if-cases (λ p. Runnable p w) (queued Stage.recurrent w) (λ r. r)
      (λ r. if-cases (λ p. Runnable p w) (queued Stage.coda w) (λ c. c) (λ c. tt))
next_phase-Runnable NoRefillPhase.drain w =
    if-cases (λ p. Runnable p w) (queued Stage.coda w) (λ c. c) (λ c. tt)

module _ (sha256 : String → List ℕ → String) (ready : ℕ → Bool) where
  refill-Decodes :
      (callbacks : Callbacks) (prefer_recurrent : Bool) (w : World)
      → decode_due w.scheduler ≡ true
      → queued Stage.recurrent w ≡ true
      → Decodes callbacks w (refill sha256 ready callbacks prefer_recurrent w)
  unfolding refill
  refill-Decodes callbacks prefer_recurrent w due waits =
      if-cases (Decodes callbacks w) (prefer_recurrent && queued Stage.recurrent w)
        (λ h. (Stage.recurrent, w, refl, refl, refl, waits, inr (inr (inl refl))))
        (λ h.
          if-cases (Decodes callbacks w) (queued Stage.prelude w)
            (λ p. (Stage.prelude, w, refl, refl, refl, p, inl refl))
            (λ p.
              if-cases (Decodes callbacks w) (coda_ready w)
                (λ c. (Stage.coda, w, refl, refl, refl, coda_ready-queued w c, inr (inl refl)))
                (λ c.
                  if-cases (Decodes callbacks w)
                    (decode_due w.scheduler && queued Stage.recurrent w)
                    (λ d. (Stage.recurrent, w, refl, refl, refl, waits, inr (inr (inl refl))))
                    (λ d. absurd (cc)))))

  no_refill_fill-Decodes :
      (callbacks : Callbacks) (w : World)
      → decode_due w.scheduler ≡ true
      → queued Stage.recurrent w ≡ true
      → Decodes callbacks w (no_refill_fill sha256 ready callbacks w)
  unfolding no_refill_fill set_phase
  no_refill_fill-Decodes callbacks w due waits =
      if-cases (Decodes callbacks w) (decode_due w.scheduler && queued Stage.prelude w)
        (λ p. (Stage.prelude, w, refl, refl, refl, cc (p, due), inl refl))
        (λ p.
          if-cases (Decodes callbacks w) (decode_due w.scheduler && queued Stage.recurrent w)
            (λ d. (
              Stage.recurrent,
              set_phase NoRefillPhase.core w,
              refl,
              refl,
              refl,
              waits,
              inr (inr (inl refl)),
            ))
            (λ d. absurd (cc)))

  run_phase-Decodes :
      (phase : NoRefillPhase) (callbacks : Callbacks) (w : World)
      → Runnable phase w
      → decode_due w.scheduler ≡ true
      → queued Stage.recurrent w ≡ true
      → Decodes callbacks w (run_phase sha256 ready phase callbacks (set_phase phase w))
  unfolding run_phase set_phase
  run_phase-Decodes NoRefillPhase.fill callbacks w h due waits =
      no_refill_fill-Decodes callbacks (set_phase NoRefillPhase.fill w) due waits
  run_phase-Decodes NoRefillPhase.core callbacks w h due waits =
      (Stage.recurrent, set_phase NoRefillPhase.core w, refl, refl, refl, h, inr (inr (inl refl)))
  run_phase-Decodes NoRefillPhase.drain callbacks w h due waits =
      (Stage.coda, set_phase NoRefillPhase.drain w, refl, refl, refl, h, inr (inl refl))

  no_refill-Decodes :
      (callbacks : Callbacks) (w : World)
      → decode_due w.scheduler ≡ true
      → queued Stage.recurrent w ≡ true
      → Decodes callbacks w (no_refill sha256 ready callbacks w)
  unfolding no_refill
  no_refill-Decodes callbacks w due waits =
      run_phase-Decodes (next_phase w.scheduler.phase w) callbacks w
        (next_phase-Runnable w.scheduler.phase w) due waits

  speculative-Decodes :
      (callbacks : Callbacks) (w : World)
      → decode_due w.scheduler ≡ true
      → queued Stage.speculative w ≡ true
      → Decodes callbacks w (speculative sha256 ready callbacks w)
  unfolding speculative
  speculative-Decodes callbacks w due waits =
      if-cases (Decodes callbacks w) (queued Stage.coda w)
        (λ c. (Stage.coda, w, refl, refl, refl, c, inr (inl refl)))
        (λ c.
          if-cases (Decodes callbacks w) (decode_due w.scheduler && queued Stage.speculative w)
            (λ d. (Stage.speculative, w, refl, refl, refl, waits, inr (inr (inr refl))))
            (λ d. absurd (cc)))

  -- Where as many prefill batches have run as are allowed before a decode batch, and a request waits
  -- for a recurrent loop (for a speculative round in speculative mode), every policy takes a batch of
  -- a decode stage that has a request. It neither admits nor prefills.
  pub schedule-Decodes :
      (callbacks : Callbacks) (prefer_recurrent : Bool) (w : World)
      → is_empty w.scheduler.requests ≡ false
      → decode_due w.scheduler ≡ true
      → queued
          (if is_some w.scheduler.num_speculative_tokens
            then Stage.speculative
            else Stage.recurrent)
          w
        ≡ true
      → Decodes callbacks w (schedule sha256 ready callbacks prefer_recurrent w)
  unfolding schedule
  schedule-Decodes callbacks prefer_recurrent w busy due waits =
      let D = Decodes callbacks w in
      let stage_at : (b : Bool)
          → is_some w.scheduler.num_speculative_tokens ≡ b
          → queued (if b then Stage.speculative else Stage.recurrent) w ≡ true =
        λ b e.
          subst (λ b. queued (if b then Stage.speculative else Stage.recurrent) w ≡ true) e waits in
      if-cases D (is_empty w.scheduler.requests) (λ e. absurd (cc))
        (λ e.
          if-cases D (is_some w.scheduler.num_speculative_tokens)
            (λ spec. speculative-Decodes callbacks w due (stage_at true spec))
            (λ spec.
              if-cases D (is_refill w.scheduler.config.mode)
                (λ m. refill-Decodes callbacks prefer_recurrent w due (stage_at false spec))
                (λ m. no_refill-Decodes callbacks w due (stage_at false spec))))
