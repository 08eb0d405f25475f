-- ===== src/KvCache/Contents/Copies.antt =====
-- The copies of `finalize_token` (vllm_rlt/core/kv_cache_manager.py).
use vllm_rlt.Common.{
  ℕ, zero, suc, ◌+◌, ◌-◌, ◌/◌, ◌%◌, ◌<◌, ◌≡◌, refl, ◌∙◌, true, ◌&&◌, List, [], ◌∷◌, Result, ok,
  ◌==◌, if◌then◌else◌, contains, arith, get_or, get_elem?-get_or, length, All, All-get_or_inside,
  range_from, contains-range_from, >>=-eq-ok, ==_refl, ◌≤◌,
}
use vllm_rlt.KvCache.State.{Geometry, Allocation}
use vllm_rlt.KvCache.Marks.{deeper}
use vllm_rlt.KvCache.Contents.{
  Tensor, Contents, copy_slot, copy_layers, copy_planes, page_of, pages_of, copied_layers,
  copy_token,
}

module _ {V : Type 0} where
  copy_layers_lem :
      (source destination : ℕ) (layers : List ℕ) (offset : ℕ) (t : Tensor V) (b l o : ℕ)
      → copy_layers source destination layers offset t b l o ≡ (
          if (b == destination) && (contains l layers && (o == offset))
          then t source l offset
          else t b l o)
  unfolding copy_layers copy_slot
  copy_layers_lem source destination [] offset t b l o = ground arith
  copy_layers_lem source destination (k ∷ layers) offset t b l o =
      copy_layers_lem source destination layers offset (copy_slot source destination k offset t) b l
        o
      ∙ ground arith

  -- Every destination plane receives the source's entry at the offset, at each of the layers, and
  -- no other entry changes, whether or not the blocks coincide.
  pub copy_planes_lem :
      (source : ℕ) (destinations layers : List ℕ) (offset : ℕ) (t : Tensor V) (b l o : ℕ)
      → copy_planes source destinations layers offset t b l o ≡ (
          if contains b destinations && (contains l layers && (o == offset))
          then t source l offset
          else t b l o)
  unfolding copy_planes
  copy_planes_lem source [] layers offset t b l o = ground arith
  copy_planes_lem source (d ∷ destinations) layers offset t b l o =
      copy_planes_lem source destinations layers offset (copy_layers source d layers offset t) b l o
      ∙ ground (
        arith,
        copy_layers_lem source d layers offset t b l o,
        copy_layers_lem source d layers offset t source l offset,
      )

page_of_lem :
    (a : Allocation) (p page : ℕ)
    → p < length a.block_tables
    → All (λ t. page < length t) a.block_tables
    → (b : ℕ) × (page_of a p page ≡ ok b)
unfolding page_of
page_of_lem a p page h long =
    let table = get_or a.block_tables p [] in
    let fits : page < length table =
      All-get_or_inside (λ t. page < length t) a.block_tables p [] long h in
    (
      get_or table page 0,
      rw (get_elem?-get_or a.block_tables p [] h, page_of)
          (rw (get_elem?-get_or table page 0 fits)),
    )

pages_of_lem :
    (a : Allocation) (start n page : ℕ)
    → start + n ≤ length a.block_tables
    → All (λ t. page < length t) a.block_tables
    → (bs : List ℕ) × (pages_of a (range_from start n) page ≡ ok bs)
unfolding pages_of
pages_of_lem a start zero page h long = ([], refl)
pages_of_lem a start (suc n) page h long =
    let (b, e) = page_of_lem a start page (omega arith) long in
    let (bs, e') = pages_of_lem a (start + 1) n page (omega arith) long in (b ∷ bs, rw (e, e'))

pages_of-mem :
    (a : Allocation) (planes : List ℕ) (page : ℕ) (blocks : List ℕ)
    → pages_of a planes page ≡ ok blocks
    → (p b : ℕ) → contains p planes ≡ true
    → page_of a p page ≡ ok b
    → contains b blocks ≡ true
unfolding pages_of
pages_of-mem a [] page blocks e p b h k = absurd (ground arith)
pages_of-mem a (q ∷ planes) page blocks e p b h k =
    let (block, e₁, e₂) = >>=-eq-ok (page_of a q page) _ e in
    let (rest, e₃, e₄) = >>=-eq-ok (pages_of a planes page) _ e₂ in
    ground (arith, pages_of-mem a planes page rest e₃ p b)

-- What `finalize_token` leaves in the tensors, where every plane has the token's page: at every
-- deeper plane and copied layer the token's keys and values are those of its exit depth, and those of
-- the exit depth are as before.
pub record Copied {V : Type 0} (g : Geometry) (a : Allocation) (position exit_depth : ℕ)
    (m : Contents V) (r : Result (Contents V)) : Type 0 where
  pub after : Contents V
  pub returns : r ≡ ok after
  pub source : ℕ
  pub source_page : page_of a exit_depth (position / g.block_size) ≡ ok source
  pub copies :
      (d b l : ℕ)
      → exit_depth < d
      → d < g.max_loops
      → page_of a d (position / g.block_size) ≡ ok b
      → contains l (copied_layers g) ≡ true
      → (after.key_cache b l (position % g.block_size)
          ≡ m.key_cache source l (position % g.block_size))
        × (after.value_cache b l (position % g.block_size)
            ≡ m.value_cache source l (position % g.block_size))
  pub keeps_source :
      (l o : ℕ)
      → (after.key_cache source l o ≡ m.key_cache source l o)
        × (after.value_cache source l o ≡ m.value_cache source l o)

-- Where every plane of an allocation has the token's page, the copies of `finalize_token` succeed:
-- the token's keys and values at every deeper plane are those of its exit depth, for each copied
-- layer, and the entries at the exit depth's block stay as they were.
pub copy_token-Copied :
    {V : Type 0} (g : Geometry) (a : Allocation) (position exit_depth : ℕ) (m : Contents V)
    → length a.block_tables ≡ g.max_loops
    → All (λ t. position / g.block_size < length t) a.block_tables
    → exit_depth < g.max_loops
    → Copied g a position exit_depth m (copy_token g a position exit_depth m)
unfolding copy_token
copy_token-Copied g a position exit_depth m planes long h =
    let page = position / g.block_size in
    let offset = position % g.block_size in
    let (s, e) = page_of_lem a exit_depth page (omega arith) long in
    let (ds, e') =
      pages_of_lem a (exit_depth + 1) (g.max_loops - (exit_depth + 1)) page (omega arith) long in
    let reached =
      λ (d : ℕ) (b : ℕ) (deep : exit_depth < d) (top : d < g.max_loops)
          (here : page_of a d page ≡ ok b).
        pages_of-mem a (deeper g exit_depth) page ds e' d b
          (ground (arith, contains-range_from d (exit_depth + 1) (g.max_loops - (exit_depth + 1))))
          here in
    record {
      after = record {
        key_cache = copy_planes s ds (copied_layers g) offset m.key_cache;
        value_cache = copy_planes s ds (copied_layers g) offset m.value_cache;
      };
      returns = rw (e, e');
      source = s;
      source_page = e;
      copies = λ d b l deep top here layer. (
        copy_planes_lem s ds (copied_layers g) offset m.key_cache b l offset
            ∙ rw (reached d b deep top here, layer, ==_refl offset),
        copy_planes_lem s ds (copied_layers g) offset m.value_cache b l offset
            ∙ rw (reached d b deep top here, layer, ==_refl offset),
      );
      keeps_source = λ l o. (
        copy_planes_lem s ds (copied_layers g) offset m.key_cache s l o ∙ ground arith,
        copy_planes_lem s ds (copied_layers g) offset m.value_cache s l o ∙ ground arith,
      );
    }
