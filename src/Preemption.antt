-- ===== src/Preemption.antt =====
-- Preemption under memory pressure (vllm_rlt/engine/preemption.py), on the scheduler's `World`.
-- The device state of a request is left out, and so are the model runner's calls.
pub mod Victims
mod Tests
use vllm_rlt.Common.{
  ℕ, ◌+◌, ◌*◌, Bool, true, false, not, ◌&&◌, ◌||◌, List, [], ◌∷◌, ◌++◌, Option, none, some, String,
  Dict, lookup, insert, remove, Result, ok, err, key_error, ◌>>=◌, str_eq, ltb, leb, min, ◌==◌,
  if◌then◌else◌,
}
use vllm_rlt.KvCache.State.{Cache, required_blocks, has_transfer_lease}
use vllm_rlt.KvCache.Pages.{allocate, free, has_text}
use vllm_rlt.KvCache.Prefix.{poll_prefixes}
use vllm_rlt.KvCache.Contents.{Contents, KvSnapshot, snapshot, restore}
use vllm_rlt.Scheduler.State.{Stage, same_stage, ℤ, le_int, Request, Scheduler, World, position}
use vllm_rlt.Scheduler.Queues.{remove_all, enqueue}

-- `_is_preemption_candidate`. `is` compares the identity of requests: their ids, as both are
-- registered.
unfoldable pub is_preemption_candidate :
    Request → Request → Bool → List String → Cache → Result Bool
is_preemption_candidate r requester priority_only excluded c =
    if str_eq r.request_id requester.request_id
      || (same_stage r.stage Stage.waiting || same_stage r.stage Stage.receiving)
      || (not (r.num_output_placeholders == 0) || has_text r.request_id excluded)
    then ok false
    else (do
      leased ← has_transfer_lease r.request_id c
      ok (
          if leased
          then false
          else not priority_only
            || not (le_int r.sampling_params.priority requester.sampling_params.priority)))

-- The key of `max`: the priority, and then the blocks of the current position.
abbrev pub Key : Type 0
Key = ℤ × ℕ

abbrev pub lt_key : Key → Key → Bool
lt_key (p, m) (q, n) = not (le_int q p) || (le_int p q && (le_int q p && ltb m n))

unfoldable pub victim_key : Request → Cache → Result Key
victim_key r c = do
  blocks ← required_blocks c.geometry (position r + 1)
  ok (r.sampling_params.priority, blocks)

abbrev pub better : Option (Request × Key) → Key → Bool
better none key = true
better (some b) key = lt_key b.1 key

-- `max(candidates, key=...)`: the first of the greatest; `best` is the greatest so far.
unfoldable pub greatest :
    Request
    → Bool
    → List String
    → Cache
    → Dict Request
    → Option (Request × Key)
    → Result (Option (Request × Key))
unfolding is_preemption_candidate victim_key
greatest requester priority_only excluded c [] best = ok best
greatest requester priority_only excluded c ((rid, r) ∷ requests) best = do
  fits ← is_preemption_candidate r requester priority_only excluded c
  elim fits [
    | false ↦ greatest requester priority_only excluded c requests best
    | true ↦ do
      key ← victim_key r c
      greatest requester priority_only excluded c requests
          (if better best key then some (r, key) else best)
  ]

unfoldable pub select_preemption_victim :
    Request → Bool → List String → World → Result (Option (Request × Key))
unfolding greatest
select_preemption_victim requester priority_only excluded w =
    greatest requester priority_only excluded w.cache w.scheduler.requests none

-- A saved request: its stage, and its pages on the host.
pub record Saved (V : Type 0) : Type 0 where
  pub stage : Stage
  pub kv : KvSnapshot V

-- The engine's state that preemption touches.
pub record Paused (V : Type 0) : Type 0 where
  pub world : World
  pub contents : Contents V
  pub snapshots : Dict (Saved V)
  pub preemptions : ℕ
  pub resumptions : ℕ

-- `for q in queues.values(): while victim.request_id in q: ...`.
unfoldable pub leave_queues : String → Scheduler → Scheduler
unfolding remove_all
leave_queues rid s = record s { queues = λ t. remove_all rid (s.queues t) }

module _ {V : Type 0} where
  unfoldable pub discard_snapshot : String → Paused V → Paused V
  discard_snapshot rid p = record p { snapshots = remove rid p.snapshots }

  unfoldable pub resume : String → Paused V → Result (Option Bool × Paused V)
  unfolding enqueue
  resume rid p = elim (lookup rid p.snapshots) [
    | none ↦ ok (none, p)
    | some state ↦ do
      let w = p.world
      let frontier = min state.kv.max_tokens (state.kv.pages * w.cache.block_size)
      (granted, c) ← allocate rid state.kv.max_tokens (some frontier) [] w.cache
      elim granted [
        | false ↦ ok (some false, record p { world = record w { cache = c } })
        | true ↦ do
          (c', contents) ← restore rid state.kv c p.contents
          ok (
            some true,
            record p {
              world = record { scheduler = enqueue rid state.stage w.scheduler; cache = c' };
              contents = contents;
              snapshots = remove rid p.snapshots;
              resumptions = p.resumptions + 1;
            },
          )
      ]
  ]

  -- `preempt` once the victim is chosen.
  unfoldable pub suspend :
      (String → List ℕ → String) → (ℕ → Bool) → Request → Paused V → Result (Bool × Paused V)
  unfolding leave_queues enqueue
  suspend sha256 ready victim p = do
    let w = p.world
    kv ← snapshot victim.request_id w.cache p.contents
    c ← poll_prefixes sha256 ready w.cache
    c' ← free victim.request_id c
    let saved : Saved V = record { stage = victim.stage; kv = kv }
    let s = enqueue victim.request_id Stage.waiting (leave_queues victim.request_id w.scheduler)
    ok (
      true,
      record p {
        world = record { scheduler = s; cache = c' };
        snapshots = insert victim.request_id saved p.snapshots;
        preemptions = p.preemptions + 1;
      },
    )

  unfoldable pub preempt :
      (String → List ℕ → String)
      → (ℕ → Bool)
      → Request
      → Bool
      → List String
      → Paused V
      → Result (Bool × Paused V)
  unfolding select_preemption_victim suspend
  preempt sha256 ready requester priority_only excluded p = do
    found ← select_preemption_victim requester priority_only excluded p.world
    elim found [ none ↦ ok (false, p) | some victim ↦ suspend sha256 ready victim.0 p ]
