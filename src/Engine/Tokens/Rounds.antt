-- ===== src/Engine/Tokens/Rounds.antt =====
-- The tokens of a speculative round in `_update_speculative` of vllm_rlt/engine/llm_engine.py.
use vllm_rlt.Common.{
  ℕ, suc, ◌-◌, ◌<◌, ◌≡◌, refl, sym, ap, ◌∙◌, inl, inr, Bool, not, ◌&&◌, List, [], ◌∷◌, ◌++◌, Option,
  none, leb, contains, length, length-append, take, replicate, if◌then◌else◌, arith, Bool-cases,
  min,
}
use vllm_rlt.Scheduler.State.{FinishReason, Request}
use vllm_rlt.Engine.State.{EngineConfig}
use vllm_rlt.Engine.Tokens.{emit_token, emit_tokens}

-- Whether a token ends the request.
abbrev pub is_stop : EngineConfig → Request → ℕ → Bool
is_stop config r token = contains token config.eos_ids && not r.sampling_params.ignore_eos

-- How many tokens there are up to the first that `stop` holds of, with it.
abbrev pub through : (ℕ → Bool) → List ℕ → ℕ
through stop [] = 0
through stop (token ∷ tokens) = if stop token then 1 else suc (through stop tokens)

-- What is left of the tokens that a request asked for.
abbrev pub room : Request → ℕ
room r = r.sampling_params.max_tokens - length r.generated_token_ids

append_assoc : {A : Type 0} (xs ys zs : List A) → (xs ++ ys) ++ zs ≡ xs ++ (ys ++ zs)
append_assoc [] ys zs = refl
append_assoc (x ∷ xs) ys zs = ap (◌∷◌ x) (append_assoc xs ys zs)

append_nil : {A : Type 0} (xs : List A) → xs ++ [] ≡ xs
append_nil [] = refl
append_nil (x ∷ xs) = ap (◌∷◌ x) (append_nil xs)

-- Both lists of a request at once.
abbrev with_lists : Request → List ℕ → List ℕ → Request
with_lists r tokens depths = record r { generated_token_ids = tokens; exit_depths = depths }

with_lists-eq :
    (r : Request) {g g' x x' : List ℕ} → g ≡ g' → x ≡ x' → with_lists r g x ≡ with_lists r g' x'
with_lists-eq r {g' = g'} {x = x} e f = ap (λ l. with_lists r l x) e ∙ ap (with_lists r g') f

abbrev extended : ℕ → List ℕ → ℕ → Request → Request
extended n tokens depth r = record r {
  generated_token_ids = r.generated_token_ids ++ take n tokens;
  exit_depths = r.exit_depths ++ replicate n depth;
}

-- What a round leaves: a prefix of its tokens is emitted.
abbrev pub RoundEmitted :
    EngineConfig → ℕ → List ℕ → Request → Request × ℕ × Option FinishReason → Type 0
RoundEmitted config depth tokens r (r', emitted, reason) =
    (emitted ≡ min (through (is_stop config r) tokens) (room r))
    × (r' ≡ extended emitted tokens depth r)
    × (reason ≡ none → (emitted ≡ length tokens) × (emitted < room r))

extended-zero : (tokens : List ℕ) (depth : ℕ) (r : Request) → r ≡ extended 0 tokens depth r
extended-zero tokens depth r =
    let g = append_nil r.generated_token_ids in
    let x = append_nil r.exit_depths in sym (with_lists-eq r g x)

extended-suc :
    (n token depth : ℕ) (tokens : List ℕ) (r : Request)
    → extended n tokens depth (extended 1 (token ∷ []) depth r)
      ≡ extended (suc n) (token ∷ tokens) depth r
extended-suc n token depth tokens r =
    with_lists-eq r (append_assoc r.generated_token_ids (token ∷ []) (take n tokens))
      (append_assoc r.exit_depths (depth ∷ []) (replicate n depth))

-- A round emits its tokens up to the first that ends the request, or as many as the request has room
-- for, whichever are fewer, and an exit depth for each; without a reason to end, it emits all of them
-- and leaves room for more. The request has room for a token.
pub emit_tokens-RoundEmitted :
    (config : EngineConfig) (depth : ℕ) (tokens : List ℕ) (r : Request)
    → 0 < room r
    → RoundEmitted config depth tokens r (emit_tokens config depth tokens r)
unfolding emit_tokens emit_token
emit_tokens-RoundEmitted config depth [] r some_room =
    (ground arith, extended-zero [] depth r, λ h. (refl, some_room))
emit_tokens-RoundEmitted config depth (token ∷ tokens) r some_room =
    let r' = extended 1 (token ∷ []) depth r in
    let grown = length-append r.generated_token_ids (token ∷ []) in
    elim (Bool-cases (is_stop config r token)) [
      | inl t ↦ rw (t, emit_tokens, emit_token) (ground arith, refl, λ h. absurd (ground arith))
      | inr f ↦
          elim (Bool-cases
            (leb r.sampling_params.max_tokens (length (r.generated_token_ids ++ token ∷ [])))) [
              | inl full ↦
                  rw (f, full, emit_tokens, emit_token)
                    (ground arith, refl, λ h. absurd (ground arith))
              | inr g ↦
                  let next = emit_tokens-RoundEmitted config depth tokens r' (ground arith) in
                  rw (f, g, emit_tokens, emit_token)
                    (
                      ground arith,
                      next.1 ∙ extended-suc _ token depth tokens r,
                      λ h. let more = next.2 h in (ground arith, ground arith),
                    )
            ]
    ]
