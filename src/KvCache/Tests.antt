-- ===== src/KvCache/Tests.antt =====
-- Runs of the model of vllm_rlt/core/kv_cache_manager.py, and instances of its theorems.
use vllm_rlt.KvCache.Marks.Imported.{IsFilled, mark_imported_prefix-IsSound}
use vllm_rlt.Common.{
  leb, All, ℕ, ltb, contains, ◌||◌, concat, count, All-lookup, ◌≡◌, ◌≤◌, ◌<◌, refl, ◌⊎◌, inl, inr,
  Bool, true, false, List, [], ◌∷◌, none, some, String, lookup, insert, Result, ok, err,
  value_error, runtime_error, index_error, any, map, remove, ◌>>=◌, ◌==◌, ◌&&◌, ◌*◌, ◌-◌, replicate,
  arith, subst,
}
use vllm_rlt.KvCache.Pool.{num_free_blocks, empty_pool, add_refs, claim}
use vllm_rlt.KvCache.State.{
  Layout, Geometry, Allocation, Cache, is_empty, pages_for, held_pages, storage_depths,
}
use vllm_rlt.KvCache.Pages.{
  allocate, ensure_capacity, free, truncate_suffix, shares_suffix, pin_transfer, unpin_transfer,
  discard,
}
use vllm_rlt.KvCache.Written.{cut, holds}
use vllm_rlt.KvCache.Written.Laws.{IsNormal}
use vllm_rlt.KvCache.Prefix.{lookup_prefix, publish_prefix}
use vllm_rlt.KvCache.Sound.Truncate.{truncate_suffix-IsSound}
use vllm_rlt.KvCache.Sound.Leases.{pin_transfer-IsSound, unpin_transfer-IsSound}
use vllm_rlt.KvCache.Sound.Prefix.{Looked, lookup_prefix-Looked, publish_prefix-Indexes, Indexes}
use vllm_rlt.KvCache.Pool.Claim.{Granted, claim-Granted}
use vllm_rlt.KvCache.Marks.{mark_imported_prefix, initialized, mark_finalized, row}
use vllm_rlt.KvCache.Marks.Finalize.{unwritten, mark_finalized-IsSound}
use vllm_rlt.KvCache.Contents.{Contents, copy_token, snapshot, restore}
use vllm_rlt.KvCache.Contents.Copies.{Copied, copy_token-Copied}
use vllm_rlt.KvCache.Contents.Snapshots.{Restored, restore-snapshot}
use vllm_rlt.KvCache.Sound.{IsSound, IsShaped, keep_shape, table_refs}
use vllm_rlt.KvCache.Sound.Created.{initial, initial-IsSound}
use vllm_rlt.KvCache.Sound.Grow.{ensure_capacity-Claims}
use vllm_rlt.KvCache.Sound.Release.{Freed, free-IsSound, update-IsSound}
use vllm_rlt.KvCache.Sound.Allocate.{IsHit, HasPages, Claims, needed_blocks, allocate-Claims}

-- Six pages of two tokens, two loops deep.
abbrev small : Geometry
small = record {
  num_layers = 2;
  num_kv_heads = 1;
  head_dim = 4;
  num_blocks = 6;
  block_size = 2;
  max_loops = 2;
  layout = Layout.last_exited;
  enable_prefix_caching = true;
  incremental_allocation = true;
  watermark_blocks = 0;
  recurrent_layers = 0 ∷ 1 ∷ [];
}

no-IsHit : IsHit (initial small) []
no-IsHit = record { grouped = tt; in_use = tt }

-- A request of five tokens that starts with three, so with two pages in each plane.
abbrev held_by_a : Allocation
held_by_a = record {
  ident = 0;
  max_tokens = 5;
  block_tables = (0 ∷ 1 ∷ []) ∷ (2 ∷ 3 ∷ []) ∷ [];
  written = replicate 2 (replicate 2 (record { prefix = 0; pending = [] }));
  transfer_leases = [];
  release_requested = false;
}

abbrev one : Cache
one = record {
  geometry = small;
  pool = record { refs = 1 ∷ 1 ∷ 1 ∷ 1 ∷ 0 ∷ 0 ∷ []; free_blocks = 4 ∷ 5 ∷ [] };
  allocations = ("a", held_by_a) ∷ [];
  prefixes = [];
  pending_prefixes = [];
  prefix_hits = 0;
  prefix_queries = 1;
  next_ident = 1;
}

one_lem : allocate "a" 5 (some 3) [] (initial small) ≡ ok (true, one)
unfolding allocate lookup insert add_refs claim empty_pool
one_lem = refl

-- A state that a claim of pages leaves is sound.
Claims-IsSound :
    (needed : ℕ) (P : Cache → Type 0) (c c' : Cache) (r : Result (Bool × Cache))
    → Claims needed P c r
    → r ≡ ok (true, c')
    → IsSound c'
Claims-IsSound needed P c c' r h e =
    let same : h.after ≡ c' = cc (h.returns, e) in subst IsSound same h.sound

one-IsSound : IsSound one
one-IsSound =
    elim (allocate-Claims "a" 5 (some 3) [] (initial small) (initial-IsSound small) no-IsHit) [
      | inl bad ↦ absurd (cc (bad, one_lem))
      | inr h ↦ Claims-IsSound _ _ (initial small) one _ h one_lem
    ]

a_found : lookup "a" one.allocations ≡ some held_by_a
unfolding lookup
a_found = refl

allocate-Claims_example :
    (allocate "a" 5 (some 3) [] (initial small) ≡ err value_error)
    ⊎ Claims
        (needed_blocks 5 (some 3) [] (initial small))
        (HasPages "a" (pages_for small 3))
        (initial small)
        (allocate "a" 5 (some 3) [] (initial small))
allocate-Claims_example =
    allocate-Claims "a" 5 (some 3) [] (initial small) (initial-IsSound small) no-IsHit

ensure_capacity-Claims_example :
    Claims
      ((pages_for small 5 - held_pages held_by_a) * storage_depths small)
      (HasPages "a" (pages_for small 5))
      one
      (ensure_capacity "a" 5 one)
ensure_capacity-Claims_example =
    ensure_capacity-Claims "a" 5 held_by_a one one-IsSound a_found (omega arith) (omega arith)

free-IsSound_example : (c' : Cache) × (free "a" one ≡ ok c') × IsSound c' × Freed "a" one c'
free-IsSound_example = free-IsSound "a" one one-IsSound

truncate_suffix-IsSound_example :
    ((truncate_suffix "a" 1 one ≡ err value_error)
      × ((5 < 1) ⊎ ((true ≡ false) ⊎ (any (shares_suffix one 1) held_by_a.block_tables ≡ true))))
    ⊎ ((c' : Cache) × (truncate_suffix "a" 1 one ≡ ok c')
        × IsSound c'
        × (c'.pool ≡ one.pool)
        × (1 ≤ 5)
        × (true ≡ true)
        × (any (shares_suffix one 1) held_by_a.block_tables ≡ false)
        × (lookup "a" c'.allocations
            ≡ some (record held_by_a { written = map (map (cut 1)) held_by_a.written })))
truncate_suffix-IsSound_example = truncate_suffix-IsSound "a" 1 held_by_a one one-IsSound a_found

pin_transfer-IsSound_example :
    ((pin_transfer "a" "t" one ≡ err runtime_error) × (false ≡ true))
    ⊎ ((c' : Cache) × (pin_transfer "a" "t" one ≡ ok c')
        × IsSound c'
        × (false ≡ false)
        × (a' : Allocation) × (lookup "a" c'.allocations ≡ some a')
        × (is_empty a'.transfer_leases ≡ false))
pin_transfer-IsSound_example = pin_transfer-IsSound "a" "t" held_by_a one one-IsSound a_found

-- The state after the lease `t` and a request to free.
abbrev leased_a : Allocation
leased_a = record held_by_a { transfer_leases = "t" ∷ []; release_requested = true }

abbrev leased : Cache
leased = record one { allocations = ("a", leased_a) ∷ [] }

leased_lem : (pin_transfer "a" "t" one >>= free "a") ≡ ok leased
unfolding pin_transfer free lookup insert
leased_lem = refl

pin_then_free : (pin_transfer "a" "t" one >>= free "a") ≡ ok leased → IsSound leased
pin_then_free e = elim (pin_transfer-IsSound "a" "t" held_by_a one one-IsSound a_found) [
  | inl (bad, never) ↦ absurd (cc)
  | inr (c', pinned, s, alive, a', here, kept) ↦
      let (c'', freed, s', how) = free-IsSound "a" c' s in
      let run : (pin_transfer "a" "t" one >>= free "a") ≡ ok c'' = rw pinned freed in
      let same : c'' ≡ leased = cc (run, e) in subst IsSound same s'
]

leased_found : lookup "a" leased.allocations ≡ some leased_a
unfolding lookup
leased_found = refl

unpin_transfer-IsSound_example :
    (c' : Cache) × (unpin_transfer "a" "t" leased ≡ ok c')
    × IsSound c'
    × ((true && is_empty (discard "t" ("t" ∷ []))) ≡ false
        → lookup "a" c'.allocations
          ≡ some (record leased_a { transfer_leases = discard "t" ("t" ∷ []) }))
    × ((true && is_empty (discard "t" ("t" ∷ []))) ≡ true
        → c'.allocations
          ≡ remove "a" (
              insert "a"
                (record leased_a { transfer_leases = discard "t" ("t" ∷ []) })
                leased.allocations))
unpin_transfer-IsSound_example =
    unpin_transfer-IsSound "a" "t" leased_a leased (pin_then_free leased_lem) leased_found

-- Any function serves as the digest.
abbrev digest : String → List ℕ → String
digest d tokens = d

lookup_prefix-Looked_example :
    (lookup_prefix digest (λ e. true) (1 ∷ 2 ∷ 3 ∷ []) one ≡ err index_error)
    ⊎ Looked digest (1 ∷ 2 ∷ 3 ∷ []) one (lookup_prefix digest (λ e. true) (1 ∷ 2 ∷ 3 ∷ []) one)
lookup_prefix-Looked_example =
    lookup_prefix-Looked digest (λ e. true) (1 ∷ 2 ∷ 3 ∷ []) one one-IsSound

publish_prefix-Indexes_example : Indexes one (publish_prefix digest "a" (1 ∷ 2 ∷ 3 ∷ []) 3 none one)
publish_prefix-Indexes_example =
    publish_prefix-Indexes digest "a" (1 ∷ 2 ∷ 3 ∷ []) 3 none held_by_a one one-IsSound a_found

-- The request `a` with its first token written at the first loop.
abbrev stepped_a : Allocation
stepped_a = record held_by_a {
  written =
      replicate 2 (record { prefix = 1; pending = [] })
      ∷ replicate 2 (record { prefix = 0; pending = [] })
      ∷ [];
}

abbrev stepped : Cache
stepped = record one { allocations = ("a", stepped_a) ∷ [] }

unpending-IsNormal : (n : ℕ) → IsNormal (record { prefix = n; pending = [] })
unpending-IsNormal n p e = cc

stepped-IsSound : IsSound stepped
unfolding insert
stepped-IsSound =
    let shape : IsShaped small held_by_a =
      All-lookup (IsShaped small) "a" held_by_a one.allocations one-IsSound.shaped a_found in
    let n1 = unpending-IsNormal 1 in
    let n0 = unpending-IsNormal 0 in
    update-IsSound "a" held_by_a stepped_a one one-IsSound a_found refl (
      keep_shape small held_by_a stepped_a shape refl refl (shape.written_planes) (refl, (refl, tt))
        ((n1, (n1, tt)), ((n0, (n0, tt)), tt)))

stepped_found : lookup "a" stepped.allocations ≡ some stepped_a
unfolding lookup
stepped_found = refl

mark_finalized-IsSound_example :
    ((mark_finalized "a" 0 0 stepped ≡ err runtime_error)
      × (unwritten stepped stepped_a 0 0 ≡ true))
    ⊎ ((c' : Cache) × (mark_finalized "a" 0 0 stepped ≡ ok c')
        × IsSound c'
        × (unwritten stepped stepped_a 0 0 ≡ false)
        × (a' : Allocation) × (lookup "a" c'.allocations ≡ some a')
        × ((p l x : ℕ)
            → holds (row a'.written p l) x ≡ (
                holds (row stepped_a.written p l) x
                || ((ltb 0 p && ltb p 2) && (contains l (0 ∷ 1 ∷ []) && (0 == x))))))
mark_finalized-IsSound_example =
    mark_finalized-IsSound "a" 0 0 stepped_a stepped stepped-IsSound stepped_found refl
      (omega arith) (omega arith) (omega arith, (omega arith, tt))

once_each : (b : ℕ) → count b (concat held_by_a.block_tables) ≤ 1
once_each b = ground arith

abbrev blank : Contents ℕ
blank = record { key_cache = λ b l o. b; value_cache = λ b l o. l }

copy_token-Copied_example : Copied small stepped_a 0 0 blank (copy_token small stepped_a 0 0 blank)
copy_token-Copied_example =
    copy_token-Copied small stepped_a 0 0 blank refl (omega arith, (omega arith, tt)) (omega arith)

restore-snapshot_example :
    Restored "a" stepped_a held_by_a blank one blank
      (do saved ← snapshot "a" stepped blank; restore "a" saved one blank)
unfolding held_pages
restore-snapshot_example =
    restore-snapshot "a" stepped_a held_by_a stepped blank one blank stepped_found refl a_found refl
      refl refl refl once_each

claim-Granted_example : Granted 2 [] (table_refs one.allocations) one.pool (claim 2 [] one.pool)
unfolding num_free_blocks
claim-Granted_example =
    claim-Granted 2 [] (table_refs one.allocations) one.pool one-IsSound.balanced (omega arith)

mark_imported_prefix-IsSound_example :
    ((mark_imported_prefix "a" 3 0 one ≡ err value_error) × ((ltb 0 3 && leb 3 5) ≡ false))
    ⊎ (((mark_imported_prefix "a" 3 0 one ≡ err runtime_error)
          × ((false || any (any (initialized 0)) held_by_a.written) ≡ true))
        ⊎ ((c' : Cache) × (mark_imported_prefix "a" 3 0 one ≡ ok c')
            × (0 < 3)
            × (3 ≤ 5)
            × (false ≡ false)
            × (any (any (initialized 0)) held_by_a.written ≡ false)
            × IsSound c'
            × (a' : Allocation) × (lookup "a" c'.allocations ≡ some a')
            × All (All (IsFilled 3)) a'.written))
mark_imported_prefix-IsSound_example =
    mark_imported_prefix-IsSound "a" 3 0 held_by_a one one-IsSound a_found
