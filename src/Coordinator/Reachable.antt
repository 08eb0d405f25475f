-- ===== src/Coordinator/Reachable.antt =====
-- The coordinator of vllm_rlt/pd/engine.py as a state machine: any interleaving of messages, scans,
-- new requests and aborts.
use vllm_rlt.Common.{
  ℕ, ◌≡◌, refl, sym, subst, ◌∙◌, false, not, List, [], ◌∷◌, Option, none, some, String, Dict,
  lookup, total, Result, ok, Returns, Ensures-ok, arith,
}
use vllm_rlt.KvCache.State.{is_empty}
use vllm_rlt.Scheduler.State.{SamplingParams, RequestOutput}
use vllm_rlt.Coordinator.State.{Peer, Pending, Message, Coordinator}
use vllm_rlt.Coordinator.Messages.{message}
use vllm_rlt.Coordinator.Requests.{add_request, abort_request, has_unfinished_requests}
use vllm_rlt.Coordinator.Admission.{admit_waiting}
use vllm_rlt.Coordinator.Credits.Events.{Credited}
use vllm_rlt.Coordinator.Credits.Received.{IsExpectedMessage, message-Credited}
use vllm_rlt.Coordinator.Credits.Admitted.{AllWithin, IsBooked, admit_waiting-IsBooked}
use vllm_rlt.Coordinator.Credits.Capacity.{IsRunning, message-Within}
use vllm_rlt.Coordinator.Credits.Asked.{add_request-IsBooked, abort_request-IsBooked}

-- `expected` and `running` are the workers' part; `unused` is uuid4's.
pub data Step (c c' : Coordinator) : Type 0 where
  received :
      (clock : ℕ) (name : String) (peer : Peer) (m : Message)
      → lookup name c.peers ≡ some peer
      → (expected : IsExpectedMessage peer m) → (running : IsRunning m)
      → message clock name peer m c ≡ ok c'
      → Step c c'
  admission : (clock : ℕ) → admit_waiting clock c ≡ ok c' → Step c c'
  added :
      (rid : String) (prompt : List ℕ) (params : SamplingParams) (trace_id : Option String)
      (tid : String) (clock : ℕ)
      → (unused : lookup tid c.transfers ≡ none)
      → add_request rid prompt params trace_id tid clock c ≡ ok c'
      → Step c c'
  withdrawn :
      (rid : String) (o : RequestOutput)
      → c.closed ≡ false
      → abort_request rid c ≡ ok (o, c')
      → Step c c'

pub data Reach (c : Coordinator) : Coordinator → Type 0 where
  here : Reach c c
  next : {d e : Coordinator} → Reach c d → Step d e → Reach c e

Returns-ok : {V : Type 0} (P : V → Type 0) (m : Result V) {v : V} → m ≡ ok v → Returns P m → P v
Returns-ok P m e h = subst (Returns P) e h

Step-IsBooked : (c c' : Coordinator) → IsBooked c → Step c c' → IsBooked c'
Step-IsBooked c c' booked (Step.received clock name peer m at expected running e) = (
  Ensures-ok Credited (message clock name peer m c) e
      (message-Credited clock name peer m c booked.0 at expected),
  Ensures-ok (λ d. AllWithin d.peers) (message clock name peer m c) e
      (message-Within clock name peer m c booked.1 at running),
)
Step-IsBooked c c' booked (Step.admission clock e) =
    Returns-ok IsBooked (admit_waiting clock c) e (admit_waiting-IsBooked clock c booked)
Step-IsBooked c c' booked (Step.added rid prompt params trace_id tid clock unused e) =
    Ensures-ok IsBooked (add_request rid prompt params trace_id tid clock c) e
      (add_request-IsBooked rid prompt params trace_id tid clock c booked unused)
Step-IsBooked c c' booked (Step.withdrawn rid o running e) =
    Ensures-ok (λ done. IsBooked done.1) (abort_request rid c) e
      (abort_request-IsBooked rid c booked running)

-- In every state that messages, scans, new requests and aborts reach from a state with balanced books,
-- the blocks, slots and compute slots of each worker are the sums of what the transfers hold on it, and
-- within the worker's capacity. A prefill worker alone reports the end of a prefill computation, and no
-- worker reports new pools.
pub Reach-IsBooked : {c c' : Coordinator} → IsBooked c → Reach c c' → IsBooked c'
Reach-IsBooked booked here = booked
Reach-IsBooked booked (next {d} {e} path move) = Step-IsBooked d e (Reach-IsBooked booked path) move

total_nil : (f : Pending → ℕ) (transfers : Dict Pending) → transfers ≡ [] → total f transfers ≡ 0
unfolding total
total_nil f transfers e = subst (λ t. total f t ≡ 0) (sym e) refl

no_transfers : {A : Type 0} (xs : List A) → not (is_empty xs) ≡ false → xs ≡ []
no_transfers [] h = refl
no_transfers (x ∷ xs) h = absurd (ground arith)

-- When no request is unfinished, no worker's blocks, slots or compute slots are in use any more, in
-- every state that is reached from a state with balanced books.
pub Reach-has_unfinished_requests :
    {c c' : Coordinator}
    → IsBooked c
    → Reach c c'
    → has_unfinished_requests c' ≡ false
    → (n : String) (peer : Peer) → lookup n c'.peers ≡ some peer
    → (peer.blocks ≡ 0) × (peer.slots ≡ 0) × (peer.compute_slots ≡ 0)
Reach-has_unfinished_requests {c' = c'} booked path none_left n peer at =
    let b = (Reach-IsBooked booked path).0.balanced n peer at in
    let empty : c'.transfers ≡ [] = no_transfers c'.transfers none_left in
    (
      b.blocks ∙ total_nil _ c'.transfers empty,
      b.slots ∙ total_nil _ c'.transfers empty,
      b.compute ∙ total_nil _ c'.transfers empty,
    )
