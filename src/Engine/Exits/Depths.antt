-- ===== src/Engine/Exits/Depths.antt =====
-- The loops of one token under the exit policies of vllm_rlt/engine/llm_engine.py: they end, at a depth
-- within the request's bounds.
use vllm_rlt.Common.{
  ℕ, zero, suc, ◌+◌, ◌≤◌, ◌<◌, ◌≡◌, refl, sym, ap, ◌∙◌, ◌⊎◌, inl, inr, Bool, true, false, ◌||◌,
  Option, none, some, Result, ok, ◌>>=◌, get_elem?, leb, if◌then◌else◌, arith, Bool-cases, leb→le,
}
use vllm_rlt.Scheduler.State.{Request, num_scheduled_outputs}
use vllm_rlt.Engine.State.{ExitMode, EngineConfig, max_depth}
use vllm_rlt.Engine.Exits.{
  should_exit, trace_exit, eligible_depth, delayed_signal, is_depth, delayed_exit, recurrent_loop,
}

le→leb : (a b : ℕ) → a ≤ b → leb a b ≡ true
le→leb a b h = ground arith

-- The updates of one token in the stage RECURRENT, one for each loop, until it exits; `scores` answers
-- the test of the score at a depth.
unfoldable pub run_loops : EngineConfig → (ℕ → Bool) → ℕ → Request → Result (Option Request)
unfolding recurrent_loop
run_loops config scores zero r = ok none
run_loops config scores (suc fuel) r = do
  (exits, r') ← recurrent_loop config (scores r.loops_done) r
  let rest = run_loops config scores fuel r'
  if exits then ok (some r') else rest

-- What validation and the preceding loops leave of a request.
pub record IsBounded (config : EngineConfig) (r : Request) (limit : ℕ) : Type 0 where
  pub at_limit : max_depth config r ≡ limit
  pub minimum : r.sampling_params.min_loops ≤ limit
  pub traced :
      config.exit_mode ≡ ExitMode.trace
      → (target : ℕ) × (get_elem? r.exit_trace (num_scheduled_outputs r) ≡ some target)
        × (r.sampling_params.min_loops ≤ target)
        × (target ≤ limit)
  pub pending :
      (depth : ℕ) → r.pending_exit_depth ≡ some depth → r.sampling_params.min_loops ≤ depth

abbrev looped : Option ℕ → Request → Request
looped p r = record r { loops_done = r.loops_done + 1; pending_exit_depth = p }

-- One loop: the depth goes up by one, and the token exits within the bounds, at the limit at last.
abbrev Looped : EngineConfig → Bool → Request → ℕ → Type 0
Looped config reached r limit =
    (exits : Bool) × (p : Option ℕ) × (recurrent_loop config reached r ≡ ok (exits, looped p r))
    × ((depth : ℕ) → p ≡ some depth → r.sampling_params.min_loops ≤ depth)
    × (exits ≡ true → r.sampling_params.min_loops ≤ r.loops_done + 1)
    × (r.loops_done + 1 ≡ limit → exits ≡ true)

is_depth_eq : (p : Option ℕ) (n : ℕ) → is_depth p n ≡ true → p ≡ some n
is_depth_eq none n h = absurd (ground arith)
is_depth_eq (some depth) n h = ap some (ground arith)

eligible_le : (mode : ExitMode) (depth : ℕ) → eligible_depth mode depth ≤ depth + 1
eligible_le ExitMode.ouro depth = omega arith
eligible_le ExitMode.ouro_delayed depth = omega arith
eligible_le ExitMode.random_lookahead depth = omega arith
eligible_le ExitMode.trace depth = omega arith

signal_min :
    (config : EngineConfig) (reached : Bool) (depth : ℕ) (r : Request)
    → delayed_signal config reached depth r ≡ true
    → r.sampling_params.min_loops ≤ depth + 1
unfolding delayed_signal
signal_min config reached depth r h =
    let le = eligible_le config.exit_mode depth in
    let low : leb r.sampling_params.min_loops (eligible_depth config.exit_mode depth) ≡ true =
      ground arith in
    ground arith

exit_min :
    (bound n least : ℕ) (p : Option ℕ)
    → (leb bound n || is_depth p n) ≡ true
    → least ≤ bound
    → ((depth : ℕ) → p ≡ some depth → least ≤ depth)
    → least ≤ n
exit_min bound n least p h low pending = elim (Bool-cases (leb bound n)) [
  | inl t ↦ ground arith
  | inr f ↦ pending n (is_depth_eq p n (ground arith))
]

not_limit : (bound n : ℕ) (b : Bool) → (leb bound n || b) ≡ false → n ≡ bound → ⊥
not_limit bound n b h e = ground arith

delayed-Looped :
    (config : EngineConfig) (reached : Bool) (r : Request) (limit : ℕ)
    → IsBounded config r limit
    → r.loops_done < limit
    → (exits : Bool) × (p : Option ℕ) × (delayed_exit config reached
          (record r { loops_done = r.loops_done + 1 })
        ≡ (exits, looped p r))
      × ((depth : ℕ) → p ≡ some depth → r.sampling_params.min_loops ≤ depth)
      × (exits ≡ true → r.sampling_params.min_loops ≤ r.loops_done + 1)
      × (r.loops_done + 1 ≡ limit → exits ≡ true)
unfolding delayed_exit max_depth delayed_signal
delayed-Looped config reached r limit bounded below =
    let r' = record r { loops_done = r.loops_done + 1 } in
    let at = bounded.at_limit in
    let low = bounded.minimum in
    elim (Bool-cases
      (leb (max_depth config r') r'.loops_done || is_depth r'.pending_exit_depth r'.loops_done)) [
        | inl t ↦ (
          true,
          r.pending_exit_depth,
          rw (t, delayed_exit) refl,
          bounded.pending,
          λ h.
              exit_min (max_depth config r) (r.loops_done + 1) r.sampling_params.min_loops
                r.pending_exit_depth t (omega arith) bounded.pending,
          λ h. refl,
        )
        | inr f ↦
            let early : r.loops_done + 1 ≡ limit → false ≡ true =
              λ h. absurd (not_limit (max_depth config r) (r.loops_done + 1) _ f (h ∙ sym at)) in
            elim (Bool-cases (delayed_signal config reached r'.loops_done r')) [
              | inl signal ↦ (
                false,
                some (r.loops_done + 1 + 1),
                rw (f, signal, delayed_exit) refl,
                λ depth e.
                    (let least = signal_min config reached r'.loops_done r' signal in ground arith),
                λ h. absurd (ground arith),
                early,
              )
              | inr quiet ↦ (
                false,
                r.pending_exit_depth,
                rw (f, quiet, delayed_exit) refl,
                bounded.pending,
                λ h. absurd (ground arith),
                early,
              )
            ]
      ]

trace_at :
    (r : Request) (target : ℕ)
    → get_elem? r.exit_trace (num_scheduled_outputs r) ≡ some target
    → trace_exit (record r { loops_done = r.loops_done + 1 }) ≡ ok (leb target (r.loops_done + 1))
unfolding trace_exit num_scheduled_outputs
trace_at r target found = rw (found, trace_exit) refl

should-min :
    (config : EngineConfig) (reached : Bool) (r : Request)
    → r.sampling_params.min_loops ≤ max_depth config r
    → should_exit config reached r ≡ true
    → r.sampling_params.min_loops ≤ r.loops_done
unfolding should_exit
should-min config reached r low h = ground arith

should-limit :
    (config : EngineConfig) (reached : Bool) (r : Request)
    → max_depth config r ≤ r.loops_done
    → should_exit config reached r ≡ true
unfolding should_exit
should-limit config reached r h = ground arith

pub mode_cases :
    (mode : ExitMode)
    → (mode ≡ ExitMode.trace)
      ⊎ ((mode ≡ ExitMode.ouro)
          ⊎ ((mode ≡ ExitMode.ouro_delayed) ⊎ (mode ≡ ExitMode.random_lookahead)))
mode_cases ExitMode.trace = inl refl
mode_cases ExitMode.ouro = inr (inl refl)
mode_cases ExitMode.ouro_delayed = inr (inr (inl refl))
mode_cases ExitMode.random_lookahead = inr (inr (inr refl))

loop-Looped :
    (config : EngineConfig) (reached : Bool) (r : Request) (limit : ℕ)
    → IsBounded config r limit
    → r.loops_done < limit
    → Looped config reached r limit
unfolding recurrent_loop
loop-Looped config reached r limit bounded below =
    let cases = mode_cases config.exit_mode in
    elim cases [
      | inl e ↦
          let t = bounded.traced e in
          let exits : trace_exit (record r { loops_done = r.loops_done + 1 })
              ≡ ok (leb t.0 (r.loops_done + 1)) =
            trace_at r t.0 t.1 in
          (
            leb t.0 (r.loops_done + 1),
            r.pending_exit_depth,
            rw (e, recurrent_loop, exits) refl,
            bounded.pending,
            λ h. omega (arith, t.2, leb→le t.0 (r.loops_done + 1) h),
            λ h. le→leb t.0 (r.loops_done + 1) (omega (arith, t.3)),
          )
      | inr h ↦ elim h [
        | inl e ↦ (
          should_exit config reached (record r { loops_done = r.loops_done + 1 }),
          r.pending_exit_depth,
          rw (e, recurrent_loop) refl,
          bounded.pending,
          should-min config reached (record r { loops_done = r.loops_done + 1 })
              (omega (arith, bounded.at_limit, bounded.minimum)),
          λ h.
              should-limit config reached (record r { loops_done = r.loops_done + 1 })
                (omega (arith, bounded.at_limit)),
        )
        | inr h' ↦
            let d = delayed-Looped config reached r limit bounded below in
            elim h' [
              | inl e ↦ (d.0, d.1, rw (e, recurrent_loop) (ap ok d.2), d.3, d.4, d.5)
              | inr e ↦ (d.0, d.1, rw (e, recurrent_loop) (ap ok d.2), d.3, d.4, d.5)
            ]
      ]
    ]

nonzero : (n : ℕ) → (n ≡ 0 → ⊥) → 0 < n
nonzero zero h = absurd (h refl)
nonzero (suc n) h = omega arith

again :
    {config : EngineConfig} {r : Request} {limit : ℕ} {p : Option ℕ}
    → IsBounded config r limit
    → ((depth : ℕ) → p ≡ some depth → r.sampling_params.min_loops ≤ depth)
    → IsBounded config (looped p r) limit
unfolding max_depth num_scheduled_outputs
again bounded pending = record {
  at_limit = bounded.at_limit;
  minimum = bounded.minimum;
  traced = bounded.traced;
  pending = pending;
}

-- The loops of a token end: from any depth below the limit, after at most as many loops as are left
-- to it, whatever the scores are and in each exit mode. The token exits at a depth that is above the
-- one it started from, at least `min_loops` and at most the limit. The limit is the request's `max_loops`, or else
-- the model's depth; a trace has a depth for the token within these bounds.
pub run_loops-IsBounded :
    (config : EngineConfig) (scores : ℕ → Bool) (fuel : ℕ) (r : Request) (limit : ℕ)
    → IsBounded config r limit
    → r.loops_done + fuel ≡ limit
    → 0 < fuel
    → (r' : Request) × (run_loops config scores fuel r ≡ ok (some r'))
      × (r.loops_done < r'.loops_done)
      × (r.sampling_params.min_loops ≤ r'.loops_done)
      × (r'.loops_done ≤ limit)
unfolding run_loops
run_loops-IsBounded config scores zero r limit bounded left some_left = absurd (omega arith)
run_loops-IsBounded config scores (suc fuel) r limit bounded left some_left =
    let once = loop-Looped config (scores r.loops_done) r limit bounded (omega arith) in
    let r' : Request = looped once.1 r in
    elim (Bool-cases once.0) [
      | inl exits ↦ (r', rw (once.2, run_loops, exits) refl, omega arith, once.4 exits, omega arith)
      | inr stays ↦
          let more : 0 < fuel =
            nonzero fuel
              (λ e. let last : true ≡ false = sym (once.5 (omega arith)) ∙ stays in ground arith) in
          let next =
            run_loops-IsBounded config scores fuel r' limit (again bounded once.3) (omega arith)
              more in
          (next.0, rw (once.2, run_loops, stays) next.1, omega (arith, next.2), next.3, next.4)
    ]
