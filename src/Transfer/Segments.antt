-- ===== src/Transfer/Segments.antt =====
-- `kv_segments` and `partition_segments` of vllm_rlt/pd/transport.py.
use vllm_rlt.Common.{
  ℕ, zero, suc, ◌+◌, ◌-◌, ◌*◌, ◌/◌, ◌==◌, Bool, true, false, not, ◌&&◌, ◌||◌, List, [], ◌∷◌, ◌++◌,
  none, some, Result, ok, err, value_error, index_error, ◌>>=◌, ◌>>◌, raise_if, ltb, length,
  get_elem?, min, range_from, range, map, if◌then◌else◌,
}

-- The fields of `NixlConnector.info` that `kv_segments` reads.
pub record PoolInfo : Type 0 where
  pub key_ptr : ℕ
  pub value_ptr : ℕ
  pub device : ℕ
  pub num_blocks : ℕ
  pub block_size : ℕ
  pub num_layers : ℕ
  pub block_bytes : ℕ
  pub layer_bytes : ℕ
  pub token_bytes : ℕ

pub record Segment : Type 0 where
  pub address : ℕ
  pub amount : ℕ
  pub device : ℕ

-- The segments of one page from one base address, for the tokens `lo` to `hi` of the page.
unfoldable pub page_segments : PoolInfo → ℕ → ℕ → ℕ → ℕ → List Segment
page_segments info block lo hi base =
    let address = base + block * info.block_bytes in
    if (lo == 0) && (hi == info.block_size)
    then record { address = address; amount = info.block_bytes; device = info.device } ∷ []
    else map
        (λ layer. record {
          address = address + layer * info.layer_bytes + lo * info.token_bytes;
          amount = (hi - lo) * info.token_bytes;
          device = info.device;
        })
        (range info.num_layers)

-- The loop over the logical pages of a table.
unfoldable pub table_segments : PoolInfo → ℕ → ℕ → List ℕ → List ℕ → Result (List Segment)
unfolding page_segments
table_segments info start end_ table [] = ok []
table_segments info start end_ table (logical ∷ pages) = elim (get_elem? table logical) [
  | none ↦ err index_error
  | some block ↦ do
    raise_if (not (ltb block info.num_blocks)) value_error
    let lo = start - logical * info.block_size
    let hi = min (end_ - logical * info.block_size) info.block_size
    rest ← table_segments info start end_ table pages
    ok (
        page_segments info block lo hi info.key_ptr
        ++ (page_segments info block lo hi info.value_ptr ++ rest))
]

-- `range(start // page, (end - 1) // page + 1)`.
abbrev pub logical_pages : PoolInfo → ℕ → ℕ → List ℕ
logical_pages info start end_ =
    let first = start / info.block_size in
    range_from first ((end_ - 1) / info.block_size + 1 - first)

unfoldable pub all_tables : PoolInfo → ℕ → ℕ → List (List ℕ) → Result (List Segment)
unfolding table_segments
all_tables info start end_ [] = ok []
all_tables info start end_ (table ∷ tables) = do
  raise_if (ltb (length table * info.block_size) end_) value_error
  here ← table_segments info start end_ table (logical_pages info start end_)
  rest ← all_tables info start end_ tables
  ok (here ++ rest)

-- The segments that the generator yields; an error drops those before it.
unfoldable pub kv_segments : PoolInfo → List (List ℕ) → ℕ → ℕ → Result (List Segment)
unfolding all_tables
kv_segments info tables start end_ = do
  raise_if (not (ltb start end_)) value_error
  all_tables info start end_ tables

pub record Chunk : Type 0 where
  pub local : List Segment
  pub remote : List Segment
  pub size : ℕ

-- The chunks yielded, and the one being filled.
pub record Parts : Type 0 where
  pub chunks : List Chunk
  pub filling : Chunk

abbrev pub empty_chunk : Chunk
empty_chunk = record { local = []; remote = []; size = 0 }

unfoldable pub shift : Segment → ℕ → ℕ → Segment
shift s offset amount = record s { address = s.address + offset; amount = amount }

-- A round of the inner loop of `partition_segments`.
unfoldable pub cut_piece : Segment → Segment → ℕ → ℕ → ℕ → ℕ → Parts → Parts
unfolding shift
cut_piece src dst byte_limit descriptor_limit offset amount p =
    let next : Chunk = record {
      local = p.filling.local ++ shift src offset amount ∷ [];
      remote = p.filling.remote ++ shift dst offset amount ∷ [];
      size = p.filling.size + amount;
    } in
    if (next.size == byte_limit) || (length next.local == descriptor_limit)
    then record { chunks = p.chunks ++ next ∷ []; filling = empty_chunk }
    else record p { filling = next }

-- `while offset < src[1]`; each round takes at least a byte, so the bytes are enough fuel.
unfoldable pub cut_pieces : ℕ → Segment → Segment → ℕ → ℕ → ℕ → Parts → Parts
unfolding cut_piece
cut_pieces zero src dst byte_limit descriptor_limit offset p = p
cut_pieces (suc fuel) src dst byte_limit descriptor_limit offset p =
    let amount = min (src.amount - offset) (byte_limit - p.filling.size) in
    let rest =
      cut_pieces fuel src dst byte_limit descriptor_limit (offset + amount)
        (cut_piece src dst byte_limit descriptor_limit offset amount p) in
    if ltb offset src.amount then rest else p

-- The outer loop, over `zip_longest(source, target)`.
unfoldable pub cut_segments : List Segment → List Segment → ℕ → ℕ → Parts → Result Parts
unfolding cut_pieces
cut_segments [] [] byte_limit descriptor_limit p = ok p
cut_segments [] (dst ∷ target) byte_limit descriptor_limit p = err value_error
cut_segments (src ∷ source) [] byte_limit descriptor_limit p = err value_error
cut_segments (src ∷ source) (dst ∷ target) byte_limit descriptor_limit p =
    let rest =
      cut_segments source target byte_limit descriptor_limit
        (cut_pieces src.amount src dst byte_limit descriptor_limit 0 p) in
    if src.amount == dst.amount then rest else err value_error

abbrev pub is_nil : List Segment → Bool
is_nil [] = true
is_nil (s ∷ ss) = false

-- `if local: yield local, remote, size`.
abbrev pub flushed : Parts → List Chunk
flushed p = if is_nil p.filling.local then p.chunks else p.chunks ++ p.filling ∷ []

-- The chunks that the generator yields; an error drops those before it.
unfoldable pub partition_segments : List Segment → List Segment → ℕ → ℕ → Result (List Chunk)
unfolding cut_segments
partition_segments source target byte_limit descriptor_limit = do
  p ←
      cut_segments source target byte_limit descriptor_limit
        (record { chunks = []; filling = empty_chunk })
  ok (flushed p)
