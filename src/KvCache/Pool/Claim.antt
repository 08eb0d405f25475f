-- ===== src/KvCache/Pool/Claim.antt =====
-- `_claim` takes exactly the wanted number of blocks that nobody references, evicts prefix entries
-- only if that is needed and enough, and otherwise leaves everything as it was.
use vllm_rlt.Common.{
  ℕ, zero, suc, ◌+◌, ◌≤◌, ◌<◌, ◌≡◌, refl, ap, ◌∙◌, ◌&&◌, ◌⊎◌, inl, inr, List, [], ◌∷◌, ◌++◌, none,
  some, Result, ok, ltb, ◌==◌, if◌then◌else◌, length, get_elem?, set, count, arith, get_or-set,
  get_elem?-get_or, length-set, count-append, Bool-cases, false, Dict,
}
use vllm_rlt.KvCache.Pool.{
  Pool, prefix_blocks, num_free_blocks, evict, pop_blocks, mark_claimed, take_free, Claimed, claim,
}
use vllm_rlt.KvCache.Pool.Refs.{Balanced, Balanced-ext, drop_refs-Dropped}

-- The references of a prefix index, beside those that `others` counts.
abbrev pub with_prefixes : Dict (List ℕ) → (ℕ → ℕ) → ℕ → ℕ
with_prefixes prefixes others b = count b (prefix_blocks prefixes) + others b

pub record Evicted (wanted : ℕ) (prefixes : Dict (List ℕ)) (others : ℕ → ℕ) (p : Pool)
    (r : Result (Dict (List ℕ) × Pool)) : Type 0 where
  pub dropped : Dict (List ℕ)
  pub kept : Dict (List ℕ)
  pub after : Pool
  pub returns : r ≡ ok (kept, after)
  pub oldest_first : dropped ++ kept ≡ prefixes
  pub balanced : Balanced (with_prefixes kept others) after
  pub same_size : length after.refs ≡ length p.refs
  pub frees : num_free_blocks prefixes p ≤ num_free_blocks kept after
  pub enough : (wanted ≤ length after.free_blocks) ⊎ (kept ≡ [])
  pub lazy : wanted ≤ length p.free_blocks → (kept ≡ prefixes) × (after ≡ p)

evict-Evicted :
    (wanted : ℕ) (prefixes : Dict (List ℕ)) (others : ℕ → ℕ) (p : Pool)
    → Balanced (with_prefixes prefixes others) p
    → Evicted wanted prefixes others p (evict wanted prefixes p)
unfolding evict num_free_blocks
evict-Evicted wanted [] others p v = record {
  dropped = [];
  kept = [];
  after = p;
  returns = refl;
  oldest_first = refl;
  balanced = v;
  same_size = refl;
  frees = omega arith;
  enough = inr refl;
  lazy = λ h. (refl, refl);
}
evict-Evicted wanted ((key, bs) ∷ rest) others p v =
    elim (Bool-cases (ltb (length p.free_blocks) wanted)) [
      | inl short ↦
          let first =
            drop_refs-Dropped bs (with_prefixes rest others) p
              (Balanced-ext _ _ p (λ a. omega (arith, count-append a bs (prefix_blocks rest))) v) in
          let later = evict-Evicted wanted rest others first.after first.balanced in
          record {
            dropped = (key, bs) ∷ later.dropped;
            kept = later.kept;
            after = later.after;
            returns = rw (short, first.returns) later.returns;
            oldest_first = ap (◌∷◌ (key, bs)) later.oldest_first;
            balanced = later.balanced;
            same_size = later.same_size ∙ first.same_size;
            frees = omega (arith, first.frees (prefix_blocks rest) (λ a. omega arith), later.frees);
            enough = later.enough;
            lazy = λ h. absurd (ground arith);
          }
      | inr full ↦ record {
        dropped = [];
        kept = (key, bs) ∷ rest;
        after = p;
        returns = rw full;
        oldest_first = refl;
        balanced = v;
        same_size = refl;
        frees = omega arith;
        enough = inl (ground arith);
        lazy = λ h. (refl, refl);
      }
    ]

pop_blocks_lem :
    (n : ℕ) (free : List ℕ)
    → n ≤ length free
    → (blocks : List ℕ) × (rest : List ℕ) × (pop_blocks n free ≡ ok (blocks, rest))
      × (blocks ++ rest ≡ free)
      × (length blocks ≡ n)
unfolding pop_blocks
pop_blocks_lem zero free h = ([], free, refl, refl, refl)
pop_blocks_lem (suc n) [] h = absurd (omega arith)
pop_blocks_lem (suc n) (b ∷ free) h =
    let (blocks, rest, e, joined, size) = pop_blocks_lem n free (omega arith) in
    (b ∷ blocks, rest, rw e, ap (◌∷◌ b) joined, ap suc size)

mark_claimed_lem :
    (blocks rest refs : List ℕ) (held : ℕ → ℕ)
    → Balanced held (record { refs = refs; free_blocks = blocks ++ rest })
    → (refs' : List ℕ) × (mark_claimed blocks refs ≡ ok refs')
      × Balanced (λ a. count a blocks + held a) (record { refs = refs'; free_blocks = rest })
      × (length refs' ≡ length refs)
unfolding mark_claimed
mark_claimed_lem [] rest refs held v =
    (refs, refl, Balanced-ext held _ _ (λ a. omega arith) v, refl)
mark_claimed_lem (b ∷ blocks) rest refs held v =
    let here : (b < length refs) × (held b ≡ 0) = ground (arith, v.free_once b) in
    let found : get_elem? refs b ≡ some 0 =
      ground (arith, get_elem?-get_or refs b 0 here.0, v.counted b) in
    let held' = λ (a : ℕ). (if b == a then 1 else 0) + held a in
    let v' : Balanced held' (record { refs = set refs b 1; free_blocks = blocks ++ rest }) =
      record {
        counted = λ a. ground (arith, get_or-set refs b a 1 0, v.counted a);
        free_once = λ a. ground (arith, length-set refs b 1, v.free_once a);
      } in
    let (refs', e, w, size) = mark_claimed_lem blocks rest (set refs b 1) held' v' in
    (
      refs',
      rw (found, mark_claimed) e,
      Balanced-ext _ _ _ (λ a. omega arith) w,
      size ∙ length-set refs b 1,
    )

pub record Taken (wanted : ℕ) (held : ℕ → ℕ) (p : Pool) (r : Result (List ℕ × Pool)) : Type 0 where
  pub blocks : List ℕ
  pub after : Pool
  pub returns : r ≡ ok (blocks, after)
  pub taken : length blocks ≡ wanted
  pub from_free : blocks ++ after.free_blocks ≡ p.free_blocks
  pub balanced : Balanced (λ a. count a blocks + held a) after
  pub same_size : length after.refs ≡ length p.refs

take_free-Taken :
    (wanted : ℕ) (held : ℕ → ℕ) (p : Pool)
    → Balanced held p
    → wanted ≤ length p.free_blocks
    → Taken wanted held p (take_free wanted p)
unfolding take_free
take_free-Taken wanted held p v h =
    let (blocks, rest, popped, joined, size) = pop_blocks_lem wanted p.free_blocks h in
    let v' : Balanced held (record { refs = p.refs; free_blocks = blocks ++ rest }) = rw joined v in
    let (refs', marked, w, same) = mark_claimed_lem blocks rest p.refs held v' in
    record {
      blocks = blocks;
      after = record { refs = refs'; free_blocks = rest };
      returns = rw (popped, marked);
      taken = size;
      from_free = joined;
      balanced = w;
      same_size = same;
    }

-- A block that was free is taken once, and nothing else refers to it.
Taken-unshared :
    (wanted : ℕ) (held : ℕ → ℕ) (p : Pool) (r : Result (List ℕ × Pool))
    → Balanced held p
    → (t : Taken wanted held p r) → (b : ℕ) → 0 < count b t.blocks
    → (count b t.blocks ≡ 1) × (held b ≡ 0)
Taken-unshared wanted held p r v t b h =
    ground
      (arith, v.free_once b, ap (count b) t.from_free, count-append b t.blocks t.after.free_blocks)

pub record Granted (wanted : ℕ) (prefixes : Dict (List ℕ)) (others : ℕ → ℕ) (p : Pool)
    (r : Result Claimed) : Type 0 where
  pub blocks : List ℕ
  pub dropped : Dict (List ℕ)
  pub kept : Dict (List ℕ)
  pub after : Pool
  pub returns : r ≡ ok (record { blocks = some blocks; prefixes = kept; pool = after })
  pub taken : length blocks ≡ wanted
  pub oldest_first : dropped ++ kept ≡ prefixes
  pub balanced : Balanced (λ a. count a blocks + with_prefixes kept others a) after
  pub unshared :
      (b : ℕ) → 0 < count b blocks → (count b blocks ≡ 1) × (with_prefixes kept others b ≡ 0)
  pub same_size : length after.refs ≡ length p.refs
  pub lazy : wanted ≤ length p.free_blocks → kept ≡ prefixes

-- With fewer free and evictable blocks than wanted, `_claim` returns `None`, evicts no prefix and
-- changes no block.
pub claim_refused :
    (wanted : ℕ) (prefixes : Dict (List ℕ)) (p : Pool)
    → num_free_blocks prefixes p < wanted
    → claim wanted prefixes p ≡ ok (record { blocks = none; prefixes = prefixes; pool = p })
unfolding claim num_free_blocks
claim_refused wanted prefixes p h = ground arith

claim_opens :
    (wanted : ℕ) (prefixes : Dict (List ℕ)) (p : Pool)
    → wanted ≤ num_free_blocks prefixes p
    → (ltb (length p.free_blocks) wanted && ltb (num_free_blocks prefixes p) wanted) ≡ false
claim_opens wanted prefixes p h = ground arith

num_free-nil :
    (p : Pool) (kept : Dict (List ℕ)) → kept ≡ [] → num_free_blocks kept p ≡ length p.free_blocks
unfolding num_free_blocks
num_free-nil p kept e = rw e (omega arith)

enough_test :
    (wanted : ℕ) (p : Pool)
    → wanted ≤ length p.free_blocks
    → ltb (length p.free_blocks) wanted ≡ false
enough_test wanted p h = ground arith

room_after :
    (wanted : ℕ) (prefixes : Dict (List ℕ)) (others : ℕ → ℕ) (p : Pool)
    (r : Result (Dict (List ℕ) × Pool)) (gone : Evicted wanted prefixes others p r)
    → wanted ≤ num_free_blocks prefixes p
    → wanted ≤ length gone.after.free_blocks
unfolding num_free_blocks
room_after wanted prefixes others p r gone h = elim gone.enough [
  | inl room ↦ room
  | inr none_left ↦ omega (arith, gone.frees, h, num_free-nil gone.after gone.kept none_left)
]

-- Where the reference counts agree with what is held and `num_free_blocks` covers the count, `_claim` returns that many blocks. It evicts prefix
-- entries from the one used longest ago, and none if the free list suffices. Each block returned is
-- returned once and was referenced by nothing, and the reference counts agree afterwards.
pub claim-Granted :
    (wanted : ℕ) (prefixes : Dict (List ℕ)) (others : ℕ → ℕ) (p : Pool)
    → Balanced (with_prefixes prefixes others) p
    → wanted ≤ num_free_blocks prefixes p
    → Granted wanted prefixes others p (claim wanted prefixes p)
unfolding claim
claim-Granted wanted prefixes others p v h =
    let gone = evict-Evicted wanted prefixes others p v in
    let room : wanted ≤ length gone.after.free_blocks =
      room_after wanted prefixes others p _ gone h in
    let got =
      take_free-Taken wanted (with_prefixes gone.kept others) gone.after gone.balanced room in
    record {
      blocks = got.blocks;
      dropped = gone.dropped;
      kept = gone.kept;
      after = got.after;
      returns =
          rw (claim_opens wanted prefixes p h, gone.returns)
            (rw (enough_test wanted gone.after room, got.returns));
      taken = got.taken;
      oldest_first = gone.oldest_first;
      balanced = got.balanced;
      unshared =
          Taken-unshared wanted (with_prefixes gone.kept others) gone.after _ gone.balanced got;
      same_size = got.same_size ∙ gone.same_size;
      lazy = λ full. (gone.lazy full).0;
    }
