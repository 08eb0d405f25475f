-- ===== src/Attention/Packed.antt =====
-- The tensors that vllm_rlt/attention/metadata.py plans have the shapes that the kernels index.
use native.Mathlib.Nat.{suc-mul, zero-mul}
use vllm_rlt.Common.{
  ℕ, suc, ◌+◌, ◌-◌, ◌*◌, ◌≡◌, refl, sym, Bool, true, false, List, [], ◌∷◌, Option, none, some,
  Result, ◌==◌, length, length-map, length-replicate, length-append, length-take, take, replicate,
  map, any, arith, Ensures, bind-Ensures, Ensures-ok, Ensures-mono, if-cases, if◌then◌else◌,
}
use vllm_rlt.Attention.{
  Row, same_key, AttentionMetadataValues, Sequence, table_width, pack, backwards, sequences,
  cumulative, longest, padded, all_padded, lay_out, plan_attention_metadata,
}

length-padded : (width : ℕ) (table : List ℕ) → length (padded width table) ≡ width
unfolding padded
length-padded width table =
    let kept = take width table in
    omega (
      arith,
      length-append (map {B = Option ℕ} some kept) (replicate (width - length kept) none),
      length-map {B = Option ℕ} some kept,
      length-replicate {A = Option ℕ} (width - length kept) none,
      length-take width table,
    )

length-all_padded :
    (width : ℕ) (rows : List Row) → length (all_padded width rows) ≡ length rows * width
unfolding all_padded
length-all_padded width [] = sym (zero-mul width)
length-all_padded width (r ∷ rows) = omega (
  arith,
  length-append (padded width r.block_table) (all_padded width rows),
  length-padded width r.block_table,
  length-all_padded width rows,
  suc-mul (length rows) width,
)

unfoldable pub counted : List Sequence → ℕ
counted [] = 0
counted (s ∷ ss) = s.count + counted ss

counted-backwards : (xs acc : List Sequence) → counted (backwards xs acc) ≡ counted xs + counted acc
unfolding counted backwards
counted-backwards [] acc = omega arith
counted-backwards (s ∷ ss) acc = omega (arith, counted-backwards ss (s ∷ acc))

counted-pack :
    (rows : List Row) (done : List Sequence) (now : Sequence)
    → Ensures (λ ss. counted ss ≡ now.count + counted done + length rows) (pack rows done now)
unfolding pack counted
counted-pack [] done now = omega arith
counted-pack (r ∷ rows) done now =
    let Good : Result (List Sequence) → Type 0 =
      Ensures (λ ss. counted ss ≡ now.count + counted done + suc (length rows)) in
    if-cases Good (same_key r.key now.last.key)
      (λ same.
        if-cases Good (r.position == now.last.position + 1)
          (λ next.
            Ensures-mono _ (λ ss. counted ss ≡ now.count + counted done + suc (length rows))
              (pack rows done (record { last = r; count = now.count + 1 }))
              (λ ss e. omega (arith, e))
              (counted-pack rows done (record { last = r; count = now.count + 1 })))
          (λ gap. tt))
      (λ other.
        if-cases Good (any (λ s. same_key r.key s.last.key) done) (λ again. tt)
          (λ new.
            Ensures-mono _ (λ ss. counted ss ≡ now.count + counted done + suc (length rows))
              (pack rows (now ∷ done) (record { last = r; count = 1 })) (λ ss e. omega (arith, e))
              (counted-pack rows (now ∷ done) (record { last = r; count = 1 }))))

counted-nil : counted [] ≡ 0
unfolding counted
counted-nil = refl

counted-sequences : (rows : List Row) → Ensures (λ ss. counted ss ≡ length rows) (sequences rows)
unfolding sequences counted
counted-sequences [] = refl
counted-sequences (r ∷ rows) =
    let now : Sequence = record { last = r; count = 1 } in
    bind-Ensures (λ ss. counted ss ≡ suc (length rows)) (pack rows [] now) _
      (λ ss e.
        let all =
          Ensures-ok (λ x. counted x ≡ 1 + counted [] + length rows) _ e
            (counted-pack rows [] now) in
        omega (arith, all, counted-backwards ss [], counted-nil))

-- The entries after the first of a list that is not empty, at its end.
abbrev pub last_of : ℕ → List ℕ → ℕ
last_of d [] = d
last_of d (x ∷ xs) = last_of x xs

cumulative_lem :
    (start d : ℕ) (ss : List Sequence)
    → (length (cumulative start ss) ≡ length ss + 1)
      × (last_of d (cumulative start ss) ≡ start + counted ss)
unfolding cumulative counted
cumulative_lem start d [] = (refl, omega arith)
cumulative_lem start d (s ∷ ss) =
    let (size, end_) = cumulative_lem (start + s.count) start ss in
    (omega (arith, size), omega (arith, end_))

abbrev pub Covers : ℕ → ℕ → Option (List ℕ) → Type 0
Covers queries rows none = rows ≡ queries
Covers queries rows (some cumulative_) =
    (length cumulative_ ≡ rows + 1) × (last_of 0 cumulative_ ≡ queries)

-- The shapes of a plan for a number of queries.
pub record Shaped (queries : ℕ) (m : AttentionMetadataValues) : Type 0 where
  pub rectangular : length m.block_tables ≡ m.num_rows * m.table_width
  pub lengths : length m.context_lengths ≡ m.num_rows
  pub covers : Covers queries m.num_rows m.cu_seqlens_q

lay_out-Shaped :
    (width : ℕ) (rows : List Row) (cu : Option (List ℕ)) (longest_ queries : ℕ)
    → Covers queries (length rows) cu
    → Shaped queries (lay_out width rows cu longest_)
unfolding lay_out
lay_out-Shaped width rows cu longest_ queries h = record {
  rectangular = length-all_padded width rows;
  lengths = length-map (λ (r : Row). r.position + 1) rows;
  covers = h;
}

-- A plan has a block-table entry for each row and page of the width, and a context length for each
-- row. Without packing there is a row for each query. With packing the cumulative lengths are one
-- more than the rows, and end with the number of queries. A packed batch may raise.
pub plan_attention_metadata-Shaped :
    (rows : List Row) (block_size : ℕ) (packed : Bool)
    → Ensures (Shaped (length rows)) (plan_attention_metadata rows block_size packed)
unfolding plan_attention_metadata
plan_attention_metadata-Shaped rows block_size false =
    lay_out-Shaped (table_width block_size rows) rows none 1 (length rows) refl
plan_attention_metadata-Shaped rows block_size true =
    bind-Ensures (Shaped (length rows)) (sequences rows) _ (λ found e.
      let all = Ensures-ok (λ ss. counted ss ≡ length rows) _ e (counted-sequences rows) in
      let (size, end_) = cumulative_lem 0 0 found in
      let same = length-map (λ (s : Sequence). s.last) found in
      lay_out-Shaped (table_width block_size rows) (map (λ s. s.last) found)
        (some (cumulative 0 found)) (if length found == 0 then 1 else longest found) (length rows)
        (omega (arith, size, same), omega (arith, end_, all)))
