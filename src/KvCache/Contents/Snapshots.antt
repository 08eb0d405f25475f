-- ===== src/KvCache/Contents/Snapshots.antt =====
-- `snapshot` and `restore` of vllm_rlt/core/kv_cache_manager.py: preemption loses nothing.
use vllm_rlt.Common.{
  ℕ, ◌≤◌, ◌≡◌, refl, sym, ◌∙◌, true, false, List, [], ◌∷◌, some, String, lookup, insert,
  lookup-insert, str_eq_iff, Result, ok, ◌>>=◌, ◌==◌, if◌then◌else◌, length, length-map, concat,
  map, any, count, contains, arith,
}
use vllm_rlt.KvCache.State.{Allocation, Cache, held_pages, is_empty}
use vllm_rlt.KvCache.Contents.{
  Tensor, Page, Contents, KvSnapshot, write_pages, snapshot, touched, restore,
}
use vllm_rlt.KvCache.Sound.{get_allocation_lem}

contains_of_count : (b : ℕ) (xs : List ℕ) → count b xs ≡ 0 → contains b xs ≡ false
contains_of_count b [] h = refl
contains_of_count b (x ∷ xs) h = ground (arith, contains_of_count b xs)

module _ {V : Type 0} where
  -- Saved pages, written to blocks that are all different, are read back from them in order, and no
  -- other block changes.
  write_pages_lem :
      (blocks : List ℕ) (saved : List (Page V)) (t : Tensor V)
      → length blocks ≡ length saved
      → ((b : ℕ) → count b blocks ≤ 1)
      → (t' : Tensor V) × (write_pages blocks saved t ≡ ok t')
        × (map t' blocks ≡ saved)
        × ((b : ℕ) → contains b blocks ≡ false → t' b ≡ t b)
  unfolding write_pages
  write_pages_lem [] [] t h once = (t, refl, refl, λ b e. refl)
  write_pages_lem [] (page ∷ saved) t h once = absurd (omega arith)
  write_pages_lem (x ∷ blocks) [] t h once = absurd (omega arith)
  write_pages_lem (x ∷ blocks) (page ∷ saved) t h once =
      let t₁ : Tensor V = λ y. if y == x then page else t y in
      let (t', e, reads, others) =
        write_pages_lem blocks saved t₁ (omega arith) (λ b. omega (arith, once b)) in
      let absent : contains x blocks ≡ false =
        contains_of_count x blocks (ground (arith, once x)) in
      let head : t' x ≡ page = others x absent ∙ ground arith in
      (t', e, cc, λ b miss. others b (ground arith) ∙ ground arith)

  -- The result of a restore into `new` of what `old` held.
  pub record Restored (rid : String) (old new : Allocation) (m₁ : Contents V) (c : Cache)
      (m : Contents V) (r : Result (Cache × Contents V)) : Type 0 where
    pub cache : Cache
    pub contents : Contents V
    pub returns : r ≡ ok (cache, contents)
    pub keys :
        map contents.key_cache (concat new.block_tables)
        ≡ map m₁.key_cache (concat old.block_tables)
    pub values :
        map contents.value_cache (concat new.block_tables)
        ≡ map m₁.value_cache (concat old.block_tables)
    pub written : lookup rid cache.allocations ≡ some (record new { written = old.written })
    pub others :
        (b : ℕ)
        → contains b (concat new.block_tables) ≡ false
        → (contents.key_cache b ≡ m.key_cache b) × (contents.value_cache b ≡ m.value_cache b)

  saved_of : Allocation → Contents V → KvSnapshot V
  saved_of a m = record {
    max_tokens = a.max_tokens;
    pages = held_pages a;
    written = a.written;
    keys = map m.key_cache (concat a.block_tables);
    values = map m.value_cache (concat a.block_tables);
  }

  snapshot_lem :
      (rid : String) (a : Allocation) (c : Cache) (m : Contents V)
      → lookup rid c.allocations ≡ some a
      → is_empty a.transfer_leases ≡ true
      → snapshot rid c m ≡ ok (saved_of a m)
  unfolding snapshot saved_of
  snapshot_lem rid a c m found idle = rw (get_allocation_lem rid a c found, idle)

  restore_lem :
      (rid : String) (saved : KvSnapshot V) (a : Allocation) (c : Cache) (m : Contents V)
      → lookup rid c.allocations ≡ some a
      → a.max_tokens ≡ saved.max_tokens
      → held_pages a ≡ saved.pages
      → any (any touched) a.written ≡ false
      → restore rid saved c m ≡ (do
        keys ← write_pages (concat a.block_tables) saved.keys m.key_cache
        values ← write_pages (concat a.block_tables) saved.values m.value_cache
        ok (
          record c {
            allocations = insert rid (record a { written = saved.written }) c.allocations;
          },
          record { key_cache = keys; value_cache = values },
        ))
  unfolding restore
  restore_lem rid saved a c m found cap pages fresh =
      ground (arith, get_allocation_lem rid a c found)

  -- A snapshot taken from an allocation that no transfer leases, and restored into an allocation of
  -- the same capacity and size that holds no keys yet and whose blocks are all different: the
  -- restored pages hold the saved keys and values in block-table order, the written positions are the
  -- saved ones, and the blocks of other requests keep their contents.
  pub restore-snapshot :
      (rid : String) (old new : Allocation) (c₁ : Cache) (m₁ : Contents V) (c : Cache)
      (m : Contents V)
      → lookup rid c₁.allocations ≡ some old
      → is_empty old.transfer_leases ≡ true
      → lookup rid c.allocations ≡ some new
      → new.max_tokens ≡ old.max_tokens
      → held_pages new ≡ held_pages old
      → length (concat new.block_tables) ≡ length (concat old.block_tables)
      → any (any touched) new.written ≡ false
      → ((b : ℕ) → count b (concat new.block_tables) ≤ 1)
      → Restored rid old new m₁ c m (do saved ← snapshot rid c₁ m₁; restore rid saved c m)
  unfolding saved_of
  restore-snapshot rid old new c₁ m₁ c m was idle found cap pages size fresh once =
      let blocks = concat new.block_tables in
      let saved = saved_of old m₁ in
      let (ks, ek, reads_k, other_k) =
        write_pages_lem blocks saved.keys m.key_cache
          (size ∙ sym (length-map m₁.key_cache (concat old.block_tables))) once in
      let (vs, ev, reads_v, other_v) =
        write_pages_lem blocks saved.values m.value_cache
          (size ∙ sym (length-map m₁.value_cache (concat old.block_tables))) once in
      let a' : Allocation = record new { written = old.written } in
      record {
        cache = record c { allocations = insert rid a' c.allocations };
        contents = record { key_cache = ks; value_cache = vs };
        returns =
            rw (snapshot_lem rid old c₁ m₁ was idle)
              (restore_lem rid saved new c m found cap pages fresh ∙ rw (ek, ev));
        keys = reads_k;
        values = reads_v;
        written = ground (arith, lookup-insert rid rid a' c.allocations, str_eq_iff rid rid);
        others = λ b miss. (other_k b miss, other_v b miss);
      }
