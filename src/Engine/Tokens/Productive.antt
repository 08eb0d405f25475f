-- ===== src/Engine/Tokens/Productive.antt =====
-- What a token does to its request in vllm_rlt/engine/llm_engine.py: no request has more tokens than it
-- asked for, and each token has its exit depth.
use vllm_rlt.Common.{
  ℕ, ◌≤◌, ◌<◌, ◌≡◌, inl, inr, not, ◌&&◌, List, [], ◌∷◌, ◌++◌, Option, none, some, String, Dict,
  lookup, insert, remove, Result, raise_if, leb, contains, length, length-append, arith, Bool-cases,
  Option-cases, Ensures, bind-Ensures, Ensures-ok, All, All-insert, All-lookup, str_eq, str_eq_refl,
  key_error,
}
use vllm_rlt.Scheduler.State.{Stage, FinishReason, Request, RequestOutput, from_request, World}
use vllm_rlt.Scheduler.Queues.{finish, modify}
use vllm_rlt.KvCache.State.{is_some}
use vllm_rlt.KvCache.Pages.{free}
use vllm_rlt.KvCache.Prefix.{poll_prefixes}
use vllm_rlt.Engine.State.{EngineConfig, Engine, Runner, store_request}
use vllm_rlt.Engine.Tokens.{emit_token, end_request, finish_or}

-- A request that goes on: fewer tokens than it asked for, each with its depth.
abbrev pub IsProductive : Request → Type 0
IsProductive r =
    (length r.exit_depths ≡ length r.generated_token_ids)
    × (length r.generated_token_ids < r.sampling_params.max_tokens)

-- What a token leaves of a request.
abbrev pub Emitted : EngineConfig → Request → Request × Option FinishReason → Type 0
Emitted config r (r', none) = IsProductive r'
Emitted config r (r', some reason) =
    (length r'.exit_depths ≡ length r'.generated_token_ids)
    × (length r'.generated_token_ids ≤ r'.sampling_params.max_tokens)

pub emit_token-Emitted :
    (config : EngineConfig) (token depth : ℕ) (r : Request)
    → IsProductive r
    → Emitted config r (emit_token config token depth r)
unfolding emit_token
emit_token-Emitted config token depth r productive =
    let tokens = length-append r.generated_token_ids (token ∷ []) in
    let depths = length-append r.exit_depths (depth ∷ []) in
    elim (Bool-cases (contains token config.eos_ids && not r.sampling_params.ignore_eos)) [
      | inl t ↦ rw (t, emit_token) (omega (arith, tokens, depths), omega (arith, tokens))
      | inr f ↦
          elim (Bool-cases
            (leb r.sampling_params.max_tokens (length (r.generated_token_ids ++ token ∷ [])))) [
              | inl t ↦ rw (f, t, emit_token) (omega (arith, tokens, depths), omega (arith, tokens))
              | inr g ↦ rw (f, g, emit_token) (omega (arith, tokens, depths), ground arith)
            ]
    ]

-- Every registered request goes on.
abbrev pub AllProductive : Engine → Type 0
AllProductive e = All (λ x. IsProductive x.1) e.world.scheduler.requests

-- An output has a depth for each token.
abbrev pub IsPaired : RequestOutput → Type 0
IsPaired o = length o.exit_depths ≡ length o.token_ids

abbrev pub Kept : List RequestOutput × Engine → Type 0
Kept (outputs, e) = All IsPaired outputs × AllProductive e

All-remove-insert :
    (k : String) (r : Request) (m : Dict Request)
    → All (λ x. IsProductive x.1) m
    → All (λ x. IsProductive x.1) (remove k (insert k r m))
unfolding insert remove
All-remove-insert k r [] all = rw (str_eq_refl k, remove) tt
All-remove-insert k r ((j, w) ∷ m) all = elim (Bool-cases (str_eq j k)) [
  | inl same ↦ rw (same, insert, remove, same) (all.1)
  | inr other ↦ rw (other, insert, remove, other) (all.0, All-remove-insert k r m all.1)
]

finish-Kept :
    (r : Request) (reason : FinishReason) (w : World)
    → All (λ x. IsProductive x.1) (remove r.request_id w.scheduler.requests)
    → length r.exit_depths ≡ length r.generated_token_ids
    → Ensures
        (λ done.
          IsPaired (from_request done.0) × All (λ x. IsProductive x.1) done.1.scheduler.requests)
        (finish r reason w)
unfolding finish from_request
finish-Kept r reason w all paired =
    let P : Request × World → Type 0 = λ done.
      IsPaired (from_request done.0) × All (λ x. IsProductive x.1) done.1.scheduler.requests in
    let kept : (length r.exit_depths ≡ length r.generated_token_ids)
        × All (λ x. IsProductive x.1) (remove r.request_id w.scheduler.requests) =
      (paired, all) in
    bind-Ensures P (free r.request_id w.cache) _ (λ c e.
      bind-Ensures P (raise_if (not (is_some (lookup r.request_id w.scheduler.requests))) key_error)
        _ (λ u e'. kept))

pub end_request-Kept :
    (runner : Runner) (r : Request) (reason : FinishReason) (e : Engine)
    → AllProductive e
    → length r.exit_depths ≡ length r.generated_token_ids
    → Ensures
        (λ done. IsPaired (from_request done.0) × AllProductive done.1)
        (end_request runner r reason (store_request r e))
unfolding end_request finish store_request from_request
end_request-Kept runner r reason e all paired =
    bind-Ensures (λ done. IsPaired (from_request done.0) × AllProductive done.1)
      (poll_prefixes runner.sha256 runner.ready e.world.cache) _
      (λ cache h.
        let w = record (store_request r e).world { cache = cache } in
        let kept =
          finish-Kept r reason w (All-remove-insert r.request_id r e.world.scheduler.requests all)
            paired in
        bind-Ensures (λ done. IsPaired (from_request done.0) × AllProductive done.1)
          (finish r reason w) _
          (λ done g.
            Ensures-ok
              (λ done.
                IsPaired (from_request done.0)
                × All (λ x. IsProductive x.1) done.1.scheduler.requests)
              (finish r reason w) g kept))

pub finish_or-Kept :
    (runner : Runner) (next : Request → Engine → Result (Request × Engine)) (r : Request)
    (ended : Option FinishReason) (e : Engine)
    → AllProductive e
    → Emitted e.config r (r, ended)
    → ((f : Engine)
        → IsProductive r
        → AllProductive f
        → Ensures (λ done. IsPaired (from_request done.0) × AllProductive done.1) (next r f))
    → Ensures Kept (finish_or runner next (r, ended) e)
unfolding finish_or store_request
finish_or-Kept runner next r (some reason) e all emitted follow =
    bind-Ensures Kept (end_request runner r reason (store_request r e)) _ (λ done h.
      let kept =
        Ensures-ok (λ done. IsPaired (from_request done.0) × AllProductive done.1)
          (end_request runner r reason (store_request r e)) h
          (end_request-Kept runner r reason e all emitted.0) in
      ((kept.0, tt), kept.1))
finish_or-Kept runner next r none e all emitted follow =
    bind-Ensures Kept (next r (store_request r e)) _ (λ done h.
      let kept =
        Ensures-ok (λ done. IsPaired (from_request done.0) × AllProductive done.1)
          (next r (store_request r e)) h
          (follow (store_request r e) emitted
            (All-insert IsProductive r.request_id r e.world.scheduler.requests emitted all)) in
      ((kept.0, tt), kept.1))

-- A queue changes only the stage.
pub enqueue-Productive :
    (rid : String) (stage : Stage) (e : Engine)
    → AllProductive e
    → All
        (λ x. IsProductive x.1)
        (modify rid (λ r. record r { stage = stage }) e.world.scheduler.requests)
unfolding modify
enqueue-Productive rid stage e all = elim (Option-cases (lookup rid e.world.scheduler.requests)) [
  | inl h ↦ rw (h, modify) all
  | inr h ↦
      rw (h.1, modify)
        (All-insert IsProductive rid (record (h.0) { stage = stage }) e.world.scheduler.requests
          (All-lookup IsProductive rid h.0 e.world.scheduler.requests all h.1) all)
]
