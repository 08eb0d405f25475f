-- ===== src/Transfer/Partition/Delivered.antt =====
-- `partition_segments` of vllm_rlt/pd/transport.py: the limits of its chunks, and the bytes that they
-- carry.
use vllm_rlt.Common.{
  ℕ, ◌+◌, ◌-◌, ◌<◌, ◌≡◌, ◌≢◌, refl, sym, ap, ◌∙◌, ◌⊎◌, inl, inr, true, List, [], ◌∷◌, ◌++◌, ok, err,
  value_error, ◌==◌, map, arith, All, if-cases, Bool-cases, ==_iff,
}
use vllm_rlt.Transfer.Segments.{
  Segment, Chunk, Parts, empty_chunk, cut_pieces, cut_segments, is_nil, flushed, partition_segments,
}
use vllm_rlt.Transfer.Partition.{
  Fits, total_bytes, chunk_bytes, Going, started, cut_pieces-Going, cut_segments-Going, flush,
}
use vllm_rlt.Transfer.Partition.Sent.{
  Byte, byte_run, bytes_of, carried, local_side, remote_side, append_append, append_nil,
  carried-append, sent_on, cut_pieces-sent,
}

-- The two sides of a state of the loops carry these bytes.
abbrev Carries : List Byte → List Byte → Parts → Type 0
Carries sources targets p = (sent_on local_side p ≡ sources) × (sent_on remote_side p ≡ targets)

cut_segments-Carries :
    (source target : List Segment) (byte_limit descriptor_limit sent : ℕ) (p p' : Parts)
    → Going byte_limit descriptor_limit sent p
    → 0 < byte_limit
    → 0 < descriptor_limit
    → cut_segments source target byte_limit descriptor_limit p ≡ ok p'
    → Carries
        (sent_on local_side p ++ bytes_of source)
        (sent_on remote_side p ++ bytes_of target)
        p'
unfolding cut_segments bytes_of
cut_segments-Carries [] [] byte_limit descriptor_limit sent p p' g pos slots good =
    let same : p ≡ p' = cc in
    (
      ap (sent_on local_side) (sym same) ∙ append_nil (sent_on local_side p),
      ap (sent_on remote_side) (sym same) ∙ append_nil (sent_on remote_side p),
    )
cut_segments-Carries [] (dst ∷ target) byte_limit descriptor_limit sent p p' g pos slots good =
    absurd cc
cut_segments-Carries (src ∷ source) [] byte_limit descriptor_limit sent p p' g pos slots good =
    absurd cc
cut_segments-Carries (src ∷ source) (dst ∷ target) byte_limit descriptor_limit sent p p' g pos slots
      good =
    elim (Bool-cases (src.amount == dst.amount)) [
      | inr differ ↦ absurd (let bad = rw differ at good in cc)
      | inl same ↦
          let amounts : src.amount ≡ dst.amount = (==_iff src.amount dst.amount).0 same in
          let here_all : src.amount - 0 ≡ src.amount = omega arith in
          let there_all : src.amount - 0 ≡ dst.amount = omega (arith, amounts) in
          let begin : (a : ℕ) → a + 0 ≡ a = λ a. omega arith in
          let q = cut_pieces src.amount src dst byte_limit descriptor_limit 0 p in
          let going =
            cut_pieces-Going byte_limit descriptor_limit src.amount sent src dst 0 p g pos slots
              (omega arith) (omega arith) in
          let here =
            cut_pieces-sent local_side src dst src refl (λ o n r. refl) byte_limit descriptor_limit
              src.amount sent 0 p g pos slots (omega arith) (omega arith)
            ∙ (ap (λ a. sent_on local_side p ++ byte_run src.device a (src.amount - 0))
                  (begin src.address)
                ∙ ap (λ n. sent_on local_side p ++ byte_run src.device src.address n) here_all) in
          let there =
            cut_pieces-sent remote_side src dst dst refl (λ o n r. refl) byte_limit descriptor_limit
              src.amount sent 0 p g pos slots (omega arith) (omega arith)
            ∙ (ap (λ a. sent_on remote_side p ++ byte_run dst.device a (src.amount - 0))
                  (begin dst.address)
                ∙ ap (λ n. sent_on remote_side p ++ byte_run dst.device dst.address n) there_all) in
          let later =
            cut_segments-Carries source target byte_limit descriptor_limit (sent + (src.amount - 0))
              q p' going pos slots (rw same at good) in
          (
            later.0
                ∙ (ap (λ l. l ++ bytes_of source) here
                    ∙ append_append (sent_on local_side p)
                        (byte_run src.device src.address src.amount) (bytes_of source)),
            later.1
                ∙ (ap (λ l. l ++ bytes_of target) there
                    ∙ append_append (sent_on remote_side p)
                        (byte_run dst.device dst.address dst.amount) (bytes_of target)),
          )
    ]

no_segments : (ss : List Segment) → is_nil ss ≡ true → bytes_of ss ≡ []
unfolding bytes_of
no_segments [] h = refl
no_segments (s ∷ ss) h = cc

nil-amounts :
    (xs ys : List Segment)
    → is_nil xs ≡ true
    → map (λ s. s.amount) xs ≡ map (λ s. s.amount) ys
    → is_nil ys ≡ true
nil-amounts [] [] h e = refl
nil-amounts [] (y ∷ ys) h e = cc
nil-amounts (x ∷ xs) ys h e = cc

flushed-carried :
    (side : Chunk → List Segment) (p : Parts)
    → (is_nil p.filling.local ≡ true → is_nil (side p.filling) ≡ true)
    → carried side (flushed p) ≡ sent_on side p
unfolding sent_on
flushed-carried side p both =
    if-cases (λ cs. carried side cs ≡ sent_on side p) (is_nil p.filling.local)
      (λ empty.
        append_nil (carried side p.chunks)
        ∙ ap (λ l. carried side p.chunks ++ l) (sym (no_segments (side p.filling) (both empty))))
      (λ more. carried-append side p.chunks p.filling)

-- For limits that are not 0, the partition is refused exactly where the source and the target
-- segments differ in their sizes. Otherwise every chunk keeps the byte limit and the descriptor
-- limit, and its local and remote descriptors pair off in size. The chunks carry all the bytes: on
-- the local side they list, in order, the device and the address of each byte of the source once, on
-- the remote side those of the target.
pub partition_segments-Carried :
    (source target : List Segment) (byte_limit descriptor_limit : ℕ)
    → 0 < byte_limit
    → 0 < descriptor_limit
    → ((partition_segments source target byte_limit descriptor_limit ≡ err value_error)
        × (map (λ s. s.amount) source ≢ map (λ s. s.amount) target))
      ⊎ ((chunks : List Chunk) × (partition_segments source target byte_limit descriptor_limit
            ≡ ok chunks)
          × (map (λ s. s.amount) source ≡ map (λ s. s.amount) target)
          × All (Fits byte_limit descriptor_limit) chunks
          × (chunk_bytes chunks ≡ total_bytes source)
          × (carried local_side chunks ≡ bytes_of source)
          × (carried remote_side chunks ≡ bytes_of target))
unfolding partition_segments sent_on carried bytes_of
partition_segments-Carried source target byte_limit descriptor_limit pos slots =
    let start : Parts = record { chunks = []; filling = empty_chunk } in
    let going = started byte_limit descriptor_limit pos slots in
    elim (cut_segments-Going source target byte_limit descriptor_limit 0 start going pos slots) [
      | inl (bad, differ) ↦ inl (rw bad refl, differ)
      | inr (p, good, even, g) ↦
          let (fits, sent) = flush byte_limit descriptor_limit _ p g in
          let (sources, targets) =
            cut_segments-Carries source target byte_limit descriptor_limit 0 start p going pos slots
              good in
          inr (
            flushed p,
            rw good refl,
            even,
            fits,
            omega (arith, sent),
            flushed-carried local_side p (λ h. h) ∙ sources,
            flushed-carried remote_side p
                  (λ h. nil-amounts p.filling.local p.filling.remote h g.paired.pairs)
                ∙ targets,
          )
    ]
