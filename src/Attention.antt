-- ===== src/Attention.antt =====
-- `plan_attention_metadata` of vllm_rlt/attention/metadata.py: block tables of one width and causal
-- lengths for the attention kernels. A table entry `none` is the source's -1.
pub mod Packed
mod Tests
use vllm_rlt.Common.{
  ℕ, zero, suc, ◌+◌, ◌-◌, ◌*◌, ◌/◌, ◌==◌, Bool, true, false, not, ◌&&◌, ◌||◌, List, [], ◌∷◌, ◌++◌,
  Option, none, some, Result, ok, err, value_error, index_error, ◌>>=◌, ◌>>◌, raise_if, length,
  take, replicate, map, max, get_or, any, if◌then◌else◌,
}

-- A sequence key is a pair of an allocation's identity and a depth.
abbrev pub Key : Type 0
Key = ℕ × ℕ

abbrev pub same_key : Key → Key → Bool
same_key (a, d) (b, e) = (a == b) && (d == e)

-- A row of the parallel arrays of `AttentionRows`.
pub record Row : Type 0 where
  pub block_table : List ℕ
  pub position : ℕ
  pub key : Key

pub record AttentionMetadataValues : Type 0 where
  pub block_tables : List (Option ℕ)
  pub num_rows : ℕ
  pub table_width : ℕ
  pub context_lengths : List ℕ
  pub cu_seqlens_q : Option (List ℕ)
  pub max_seqlen_q : ℕ

-- `max((position // block_size + 1 for ...), default=0)`.
unfoldable pub table_width : ℕ → List Row → ℕ
table_width block_size [] = 0
table_width block_size (r ∷ rows) = max (r.position / block_size + 1) (table_width block_size rows)

-- A packed sequence: its last row, its number of rows, and its key.
pub record Sequence : Type 0 where
  pub last : Row
  pub count : ℕ

-- The loop over the sequence keys; the current sequence is the head of the result's reverse, so
-- `done` holds the sequences before it, the latest first.
unfoldable pub pack : List Row → List Sequence → Sequence → Result (List Sequence)
pack [] done now = ok (now ∷ done)
pack (r ∷ rows) done now =
    let extend = pack rows done (record { last = r; count = now.count + 1 }) in
    let begin = pack rows (now ∷ done) (record { last = r; count = 1 }) in
    if same_key r.key now.last.key
    then if r.position == now.last.position + 1 then extend else err value_error
    else if any (λ s. same_key r.key s.last.key) done
    then err value_error
    else begin

unfoldable pub backwards : List Sequence → List Sequence → List Sequence
backwards [] acc = acc
backwards (s ∷ ss) acc = backwards ss (s ∷ acc)

-- The sequences in order.
unfoldable pub sequences : List Row → Result (List Sequence)
unfolding pack backwards
sequences [] = ok []
sequences (r ∷ rows) = do
  found ← pack rows [] (record { last = r; count = 1 })
  ok (backwards found [])

-- `cumulative`, from the rows counted so far.
unfoldable pub cumulative : ℕ → List Sequence → List ℕ
cumulative start [] = start ∷ []
cumulative start (s ∷ ss) = start ∷ cumulative (start + s.count) ss

unfoldable pub longest : List Sequence → ℕ
longest [] = 0
longest (s ∷ ss) = max s.count (longest ss)

-- `table[:width]`, filled up with -1.
unfoldable pub padded : ℕ → List ℕ → List (Option ℕ)
padded width table =
    let kept = take width table in map some kept ++ replicate (width - length kept) none

unfoldable pub all_padded : ℕ → List Row → List (Option ℕ)
unfolding padded
all_padded width [] = []
all_padded width (r ∷ rows) = padded width r.block_table ++ all_padded width rows

unfoldable pub lay_out : ℕ → List Row → Option (List ℕ) → ℕ → AttentionMetadataValues
unfolding all_padded
lay_out width rows cu longest_ = record {
  block_tables = all_padded width rows;
  num_rows = length rows;
  table_width = width;
  context_lengths = map (λ r. r.position + 1) rows;
  cu_seqlens_q = cu;
  max_seqlen_q = longest_;
}

unfoldable pub plan_attention_metadata : List Row → ℕ → Bool → Result AttentionMetadataValues
unfolding table_width sequences cumulative longest lay_out
plan_attention_metadata rows block_size false =
    ok (lay_out (table_width block_size rows) rows none 1)
plan_attention_metadata rows block_size true = do
  found ← sequences rows
  ok (
      lay_out (table_width block_size rows) (map (λ s. s.last) found) (some (cumulative 0 found))
        (if length found == 0 then 1 else longest found))
