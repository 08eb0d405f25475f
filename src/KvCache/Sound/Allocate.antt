-- ===== src/KvCache/Sound/Allocate.antt =====
-- `allocate` of vllm_rlt/core/kv_cache_manager.py keeps the invariant, and hands out pages exactly
-- if enough are free or evictable.
use vllm_rlt.Common.{
  ℕ, ◌+◌, ◌-◌, ◌*◌, ◌≤◌, ◌<◌, ◌≡◌, refl, sym, ap, subst, ◌∙◌, Bool, true, false, List, [], ◌∷◌,
  Option, none, some, String, lookup, insert, lookup-insert, str_eq_iff, total-insert_new,
  All-insert, Result, ok, err, value_error, length, concat, count, All, All-mono, All-append_right,
  All-replicate, length-replicate, arith, ◌⊎◌, inl, inr, Bool-cases, ltb, replicate, div_mono,
}
use vllm_rlt.KvCache.Written.{written_to}
use vllm_rlt.KvCache.Written.Laws.{IsNormal}
use vllm_rlt.KvCache.Pool
use vllm_rlt.KvCache.Pool.{Pool, add_refs, drop_refs, claim, Claimed, exclusive, prefix_blocks}
use vllm_rlt.KvCache.Pool.Refs.{Balanced, Balanced-ext, add_refs-Added, drop_refs-Dropped}
use vllm_rlt.KvCache.Pool.Claim.{with_prefixes, claim_refused, claim-Granted}
use vllm_rlt.KvCache.State.{
  Geometry, Allocation, Cache, storage_depths, pages_for, held_pages, num_free_blocks,
  exclusive_prefix_blocks,
}
use vllm_rlt.KvCache.Pages.{admit, claim_pages, check_allocate, allocate, or_default}
use vllm_rlt.KvCache.Pages.Tables.{build_tables_lem}
use vllm_rlt.KvCache.Sound.{table_refs, IsShaped, IsSound}

-- A list of tables of one length: that length is the number of pages.
pub held_pages_lem :
    (a : Allocation) (ts : List (List ℕ)) (n : ℕ)
    → a.block_tables ≡ ts
    → All (λ t. length t ≡ n) ts
    → All (λ t. length t ≡ held_pages a) ts × (held_pages a ≤ n)
unfolding held_pages
held_pages_lem a [] n e even = (tt, rw (e, held_pages) (omega arith))
held_pages_lem a (t ∷ ts) n e (here, even) =
    let same : held_pages a ≡ length t = rw (e, held_pages) in
    ((sym same, All-mono ts (λ u h. omega arith) even), omega arith)

-- The prefix pages that a caller passes to `allocate`, as `lookup_prefix` returns them: groups with
-- a block for each plane, all in use.
pub record IsHit (c : Cache) (prefix : List (List ℕ)) : Type 0 where
  pub grouped : All (λ g. length g ≡ storage_depths c.geometry) prefix
  pub in_use : All (λ b. 0 < with_prefixes c.prefixes (table_refs c.allocations) b) (concat prefix)

new_written-IsNormal : (n : ℕ) → IsNormal (written_to n)
unfolding written_to
new_written-IsNormal n p h = cc

-- The request's tables have so many pages in every plane.
abbrev pub HasPages : String → ℕ → Cache → Type 0
HasPages rid pages c =
    (a : Allocation) × (lookup rid c.allocations ≡ some a)
    × All (λ t. pages ≤ length t) a.block_tables

-- The new allocation, with its blocks already claimed.
admit-IsSound :
    (rid : String) (max_tokens : ℕ) (prefix : List (List ℕ)) (tail : ℕ) (fresh : List ℕ) (c : Cache)
    → lookup rid c.allocations ≡ none
    → All (λ g. length g ≡ storage_depths c.geometry) prefix
    → length fresh ≡ tail * storage_depths c.geometry
    → length prefix + tail ≤ pages_for c.geometry max_tokens
    → Balanced
        (λ b.
          count b fresh
          + (count b (concat prefix) + with_prefixes c.prefixes (table_refs c.allocations) b))
        c.pool
    → length c.pool.refs ≡ c.num_blocks
    → All (λ e. IsShaped c.geometry e.1) c.allocations
    → All (λ e. length e.1 ≡ storage_depths c.geometry) c.prefixes
    → (c' : Cache) × (admit rid max_tokens prefix tail fresh c ≡ ok c')
      × IsSound c'
      × HasPages rid (length prefix + tail) c'
unfolding admit written_to
admit-IsSound rid max_tokens prefix tail fresh c new even size fits v refs shaped grouped =
    let (tables, built, planes, lens, counts) =
      build_tables_lem (storage_depths c.geometry) prefix tail fresh even size in
    let extent = length prefix * c.block_size in
    let a : Allocation = record {
      ident = c.next_ident;
      max_tokens = max_tokens;
      block_tables = tables;
      written = replicate (storage_depths c.geometry) (replicate c.num_layers (written_to extent));
      transfer_leases = [];
      release_requested = false;
    } in
    let (same, le) = held_pages_lem a tables (length prefix + tail) refl lens in
    let shape : IsShaped c.geometry a = record {
      planes = planes;
      even = same;
      fits = omega arith;
      written_planes = length-replicate (storage_depths c.geometry) _;
      written_layers =
          All-replicate (λ row. length row ≡ c.num_layers) (storage_depths c.geometry) _
            (length-replicate c.num_layers (written_to extent));
      normal =
          All-replicate (All IsNormal) (storage_depths c.geometry) _
            (All-replicate IsNormal c.num_layers (written_to extent) (new_written-IsNormal extent));
    } in
    let c' : Cache = record c {
      allocations = insert rid a c.allocations;
      prefix_queries = c.prefix_queries + 1;
      prefix_hits = c.prefix_hits + extent;
      next_ident = c.next_ident + 1;
    } in
    (
      c',
      rw built,
      record {
        balanced =
            Balanced-ext _ _ c.pool
              (λ b. omega (
                arith,
                counts b,
                total-insert_new (λ (x : Allocation). count b (concat x.block_tables)) rid a
                    c.allocations new,
              ))
              v;
        size = refs;
        shaped = All-insert (IsShaped c.geometry) rid a c.allocations shape shaped;
        grouped = grouped;
      },
      (
        a,
        ground (arith, lookup-insert rid rid a c.allocations, str_eq_iff rid rid),
        All-mono tables (λ t h. omega arith) lens,
      ),
    )

-- The result of claiming pages: whether they were handed out, and the state afterwards.
pub record Claims (needed : ℕ) (Post : Cache → Type 0) (c : Cache) (r : Result (Bool × Cache))
    : Type 0 where
  pub granted : Bool
  pub after : Cache
  pub returns : r ≡ ok (granted, after)
  pub sound : IsSound after
  pub covers : needed ≤ num_free_blocks c → granted ≡ true
  pub post : granted ≡ true → Post after
  pub refusal :
      granted ≡ false → (after.allocations ≡ c.allocations) × (after.prefixes ≡ c.prefixes)

claim_pages-Claims :
    (rid : String) (max_tokens pages : ℕ) (prefix : List (List ℕ)) (c : Cache)
    → IsSound c
    → IsHit c prefix
    → lookup rid c.allocations ≡ none
    → length prefix ≤ pages
    → pages ≤ pages_for c.geometry max_tokens
    → Claims
        ((pages - length prefix) * storage_depths c.geometry + exclusive_prefix_blocks prefix c)
        (HasPages rid pages)
        c
        (claim_pages rid max_tokens pages prefix c)
unfolding claim_pages num_free_blocks exclusive_prefix_blocks Pool.num_free_blocks
claim_pages-Claims rid max_tokens pages prefix c s hit new le fits =
    let held = with_prefixes c.prefixes (table_refs c.allocations) in
    let others = λ (b : ℕ). count b (concat prefix) + table_refs c.allocations b in
    let wanted = (pages - length prefix) * storage_depths c.geometry in
    let added = add_refs-Added (concat prefix) held c.pool s.balanced hit.in_use in
    let v : Balanced (with_prefixes c.prefixes others) added.after =
      Balanced-ext _ _ added.after (λ b. omega arith) added.balanced in
    elim (Bool-cases (ltb (Pool.num_free_blocks c.prefixes added.after) wanted)) [
      | inl short ↦
          let dropped = drop_refs-Dropped (concat prefix) held added.after added.balanced in
          let refused = claim_refused wanted c.prefixes added.after (ground arith) in
          record {
            granted = false;
            after = record c { prefixes = c.prefixes; pool = dropped.after };
            returns = rw (added.returns, refused, dropped.returns);
            sound = record {
              balanced = dropped.balanced;
              size = dropped.same_size ∙ added.same_size ∙ s.size;
              shaped = s.shaped;
              grouped = s.grouped;
            };
            covers = λ enough. absurd (
                ground (
                  arith,
                  added.costs (prefix_blocks c.prefixes) (λ a. omega arith),
                  ap length added.same_free,
                ));
            post = λ e. absurd (cc);
            refusal = λ e. (refl, refl);
          }
      | inr room ↦
          let got = claim-Granted wanted c.prefixes others added.after v (ground arith) in
          let next : Cache = record c { prefixes = got.kept; pool = got.after } in
          let (c', admitted, sound, holds_pages) =
            admit-IsSound rid max_tokens prefix (pages - length prefix) got.blocks next new
              hit.grouped got.taken (omega arith)
              (Balanced-ext _ _ got.after (λ b. omega arith) got.balanced)
              (got.same_size ∙ added.same_size ∙ s.size) s.shaped
              (All-append_right (λ e. length e.1 ≡ storage_depths c.geometry) got.dropped got.kept
                (subst (All (λ e. length e.1 ≡ storage_depths c.geometry)) (sym got.oldest_first)
                  s.grouped)) in
          record {
            granted = true;
            after = c';
            returns = rw (added.returns, got.returns, admitted);
            sound = sound;
            covers = λ enough. refl;
            post = λ e.
                subst (λ n. HasPages rid n c') {x = length prefix + (pages - length prefix)}
                  {y = pages} (omega arith) holds_pages;
            refusal = λ e. absurd (cc);
          }
    ]

pub pages_for_mono : (g : Geometry) (m n : ℕ) → m ≤ n → pages_for g m ≤ pages_for g n
unfolding pages_for
pages_for_mono g m n h = div_mono _ _ g.block_size (omega arith)

-- `allocate` passes its checks only for a new request with a frontier within its capacity.
check_allocate_cases :
    (rid : String) (max_tokens : ℕ) (initial : Option ℕ) (prefix : List (List ℕ)) (c : Cache)
    → (check_allocate rid max_tokens initial prefix c ≡ err value_error)
      ⊎ ((check_allocate rid max_tokens initial prefix c
            ≡ ok (pages_for c.geometry (or_default initial max_tokens)))
          × (lookup rid c.allocations ≡ none)
          × (or_default initial max_tokens ≤ max_tokens)
          × (length prefix ≤ pages_for c.geometry (or_default initial max_tokens)))
unfolding check_allocate
check_allocate_cases rid max_tokens initial prefix c = ground arith

-- The blocks that an allocation must be able to take: the fresh ones, and those of the prefix hit
-- that only the prefix index holds, which it takes out of reach of eviction.
abbrev pub needed_blocks : ℕ → Option ℕ → List (List ℕ) → Cache → ℕ
needed_blocks max_tokens initial prefix c =
    (pages_for c.geometry (or_default initial max_tokens) - length prefix)
      * storage_depths c.geometry
    + exclusive_prefix_blocks prefix c

-- For a sound state and a prefix hit, `allocate` raises only a ValueError. Otherwise the state
-- stays sound, the request is admitted whenever the blocks needed are covered by
-- `num_free_blocks`, an admitted request has the pages of its frontier in every plane, and a refusal leaves the allocations and the prefix index unchanged.
pub allocate-Claims :
    (rid : String) (max_tokens : ℕ) (initial : Option ℕ) (prefix : List (List ℕ)) (c : Cache)
    → IsSound c
    → IsHit c prefix
    → (allocate rid max_tokens initial prefix c ≡ err value_error)
      ⊎ Claims
          (needed_blocks max_tokens initial prefix c)
          (HasPages rid (pages_for c.geometry (or_default initial max_tokens)))
          c
          (allocate rid max_tokens initial prefix c)
unfolding allocate
allocate-Claims rid max_tokens initial prefix c s hit =
    elim (check_allocate_cases rid max_tokens initial prefix c) [
      | inl bad ↦ inl (rw bad)
      | inr (good, new, within, le) ↦
          let r =
            claim_pages-Claims rid max_tokens (pages_for c.geometry (or_default initial max_tokens))
              prefix c s hit new le (pages_for_mono c.geometry _ _ within) in
          inr (record {
            granted = r.granted;
            after = r.after;
            returns = rw good r.returns;
            sound = r.sound;
            covers = r.covers;
            post = r.post;
            refusal = r.refusal;
          })
    ]
