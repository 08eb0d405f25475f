-- ===== src/Transfer/Partition.antt =====
-- The loops of `partition_segments` of vllm_rlt/pd/transport.py: what each round keeps.
pub mod Sent
pub mod Delivered
use vllm_rlt.Common.{
  ℕ, zero, suc, ◌+◌, ◌-◌, ◌≤◌, ◌<◌, ◌≡◌, ◌≢◌, refl, sym, ap, ◌∙◌, ◌⊎◌, inl, inr, true, ◌||◌, List,
  [], ◌∷◌, ◌++◌, ok, err, value_error, ◌==◌, ltb, length, length-append, min, map, arith, All,
  All-append, if-cases, Bool-cases,
}
use vllm_rlt.Transfer.Segments.{
  Segment, Chunk, Parts, empty_chunk, shift, cut_piece, cut_pieces, cut_segments, is_nil, flushed,
  partition_segments,
}

unfoldable pub total_bytes : List Segment → ℕ
total_bytes [] = 0
total_bytes (s ∷ ss) = s.amount + total_bytes ss

unfoldable pub chunk_bytes : List Chunk → ℕ
chunk_bytes [] = 0
chunk_bytes (c ∷ cs) = c.size + chunk_bytes cs

total_bytes-append :
    (xs : List Segment) (s : Segment) → total_bytes (xs ++ s ∷ []) ≡ total_bytes xs + s.amount
unfolding total_bytes
total_bytes-append [] s = omega arith
total_bytes-append (x ∷ xs) s = omega (arith, total_bytes-append xs s)

chunk_bytes-append :
    (xs : List Chunk) (c : Chunk) → chunk_bytes (xs ++ c ∷ []) ≡ chunk_bytes xs + c.size
unfolding chunk_bytes
chunk_bytes-append [] c = omega arith
chunk_bytes-append (x ∷ xs) c = omega (arith, chunk_bytes-append xs c)

-- The local and remote lists pair off, and their bytes are the chunk's size.
pub record Paired (c : Chunk) : Type 0 where
  pub pairs : map (λ s. s.amount) c.local ≡ map (λ s. s.amount) c.remote
  pub local_bytes : total_bytes c.local ≡ c.size

pub record Fits (byte_limit descriptor_limit : ℕ) (c : Chunk) : Type 0 where
  pub paired : Paired c
  pub bytes : c.size ≤ byte_limit
  pub descriptors : length c.local ≤ descriptor_limit

-- The loops' invariant, with the bytes sent so far.
record Going (byte_limit descriptor_limit sent : ℕ) (p : Parts) : Type 0 where
  done : All (Fits byte_limit descriptor_limit) p.chunks
  paired : Paired p.filling
  room : p.filling.size < byte_limit
  slots : length p.filling.local < descriptor_limit
  counted : chunk_bytes p.chunks + p.filling.size ≡ sent

map-append :
    (f : Segment → ℕ) (xs : List Segment) (s : Segment)
    → map f (xs ++ s ∷ []) ≡ map f xs ++ f s ∷ []
map-append f [] s = refl
map-append f (x ∷ xs) s = ap (λ ys. f x ∷ ys) (map-append f xs s)

Paired-nil : Paired empty_chunk
unfolding total_bytes
Paired-nil = record { pairs = refl; local_bytes = refl }

cut_piece-Going :
    (byte_limit descriptor_limit sent : ℕ) (src dst : Segment) (offset amount : ℕ) (p : Parts)
    → Going byte_limit descriptor_limit sent p
    → p.filling.size + amount ≤ byte_limit
    → 0 < byte_limit
    → 0 < descriptor_limit
    → Going byte_limit descriptor_limit
        (sent + amount)
        (cut_piece src dst byte_limit descriptor_limit offset amount p)
unfolding cut_piece shift
cut_piece-Going byte_limit descriptor_limit sent src dst offset amount p g within pos some_slots =
    let amounts : Segment → ℕ = λ s. s.amount in
    let next : Chunk = record {
      local = p.filling.local ++ shift src offset amount ∷ [];
      remote = p.filling.remote ++ shift dst offset amount ∷ [];
      size = p.filling.size + amount;
    } in
    let longer = length-append p.filling.local (shift src offset amount ∷ []) in
    let paired : Paired next = record {
      pairs =
          map-append amounts p.filling.local (shift src offset amount)
          ∙ (ap (λ xs. xs ++ amount ∷ []) g.paired.pairs
              ∙ sym (map-append amounts p.filling.remote (shift dst offset amount)));
      local_bytes = omega (
        arith,
        total_bytes-append p.filling.local (shift src offset amount),
        g.paired.local_bytes,
      );
    } in
    let fits : Fits byte_limit descriptor_limit next = record {
      paired = paired;
      bytes = within;
      descriptors = omega (arith, longer, g.slots);
    } in
    if-cases (Going byte_limit descriptor_limit (sent + amount))
      ((next.size == byte_limit) || (length next.local == descriptor_limit))
      (λ full. record {
        done = All-append (Fits byte_limit descriptor_limit) p.chunks (next ∷ []) g.done (fits, tt);
        paired = Paired-nil;
        room = pos;
        slots = some_slots;
        counted = omega (arith, chunk_bytes-append p.chunks next, g.counted);
      })
      (λ open_. record {
        done = g.done;
        paired = paired;
        room = ground (arith, within, open_);
        slots = ground (arith, longer, g.slots, open_);
        counted = omega (arith, g.counted);
      })

resent :
    (byte_limit descriptor_limit m n : ℕ) (p : Parts)
    → Going byte_limit descriptor_limit m p
    → m ≡ n
    → Going byte_limit descriptor_limit n p
resent byte_limit descriptor_limit m n p g e = record {
  done = g.done;
  paired = g.paired;
  room = g.room;
  slots = g.slots;
  counted = g.counted ∙ e;
}

started :
    (byte_limit descriptor_limit : ℕ)
    → 0 < byte_limit
    → 0 < descriptor_limit
    → Going byte_limit descriptor_limit 0 (record { chunks = []; filling = empty_chunk })
unfolding chunk_bytes
started byte_limit descriptor_limit pos slots = record {
  done = tt;
  paired = Paired-nil;
  room = pos;
  slots = slots;
  counted = refl;
}

nil_bytes : (ss : List Segment) → is_nil ss ≡ true → total_bytes ss ≡ 0
unfolding total_bytes
nil_bytes [] h = refl
nil_bytes (s ∷ ss) h = cc

flush :
    (byte_limit descriptor_limit sent : ℕ) (p : Parts)
    → Going byte_limit descriptor_limit sent p
    → All (Fits byte_limit descriptor_limit) (flushed p) × (chunk_bytes (flushed p) ≡ sent)
flush byte_limit descriptor_limit sent p g =
    if-cases (λ cs. All (Fits byte_limit descriptor_limit) cs × (chunk_bytes cs ≡ sent))
      (is_nil p.filling.local)
      (λ empty.
        (g.done, omega (arith, g.counted, nil_bytes p.filling.local empty, g.paired.local_bytes)))
      (λ more.
        let fits : Fits byte_limit descriptor_limit p.filling = record {
          paired = g.paired;
          bytes = omega (arith, g.room);
          descriptors = omega (arith, g.slots);
        } in
        (
          All-append (Fits byte_limit descriptor_limit) p.chunks (p.filling ∷ []) g.done (fits, tt),
          omega (arith, chunk_bytes-append p.chunks p.filling, g.counted),
        ))

-- With fuel for the bytes that are left, the inner loop sends them all.
cut_pieces-Going :
    (byte_limit descriptor_limit : ℕ) (fuel sent : ℕ) (src dst : Segment) (offset : ℕ) (p : Parts)
    → Going byte_limit descriptor_limit sent p
    → 0 < byte_limit
    → 0 < descriptor_limit
    → offset ≤ src.amount
    → src.amount - offset ≤ fuel
    → Going byte_limit descriptor_limit
        (sent + (src.amount - offset))
        (cut_pieces fuel src dst byte_limit descriptor_limit offset p)
unfolding cut_pieces
cut_pieces-Going byte_limit descriptor_limit zero sent src dst offset p g pos some_slots le enough =
    resent byte_limit descriptor_limit sent _ p g (omega arith)
cut_pieces-Going byte_limit descriptor_limit (suc fuel) sent src dst offset p g pos some_slots le
      enough =
    let amount = min (src.amount - offset) (byte_limit - p.filling.size) in
    if-cases (Going byte_limit descriptor_limit (sent + (src.amount - offset)))
      (ltb offset src.amount)
      (λ more.
        let below : offset < src.amount = ground arith in
        resent byte_limit descriptor_limit _ _ _
          (cut_pieces-Going byte_limit descriptor_limit fuel (sent + amount) src dst
            (offset + amount) _
            (cut_piece-Going byte_limit descriptor_limit sent src dst offset amount p g
              (omega (arith, g.room)) pos some_slots)
            pos some_slots (omega arith) (omega (arith, g.room, below)))
          (omega (arith, below)))
      (λ end_. resent byte_limit descriptor_limit sent _ p g (ground arith))

cut_segments-Going :
    (source target : List Segment) (byte_limit descriptor_limit sent : ℕ) (p : Parts)
    → Going byte_limit descriptor_limit sent p
    → 0 < byte_limit
    → 0 < descriptor_limit
    → ((cut_segments source target byte_limit descriptor_limit p ≡ err value_error)
        × (map (λ s. s.amount) source ≢ map (λ s. s.amount) target))
      ⊎ ((p' : Parts) × (cut_segments source target byte_limit descriptor_limit p ≡ ok p')
          × (map (λ s. s.amount) source ≡ map (λ s. s.amount) target)
          × Going byte_limit descriptor_limit (sent + total_bytes source) p')
unfolding cut_segments total_bytes
cut_segments-Going [] [] byte_limit descriptor_limit sent p g pos slots =
    inr (p, refl, refl, resent byte_limit descriptor_limit sent _ p g (omega arith))
cut_segments-Going [] (dst ∷ target) byte_limit descriptor_limit sent p g pos slots =
    inl (refl, λ e. cc)
cut_segments-Going (src ∷ source) [] byte_limit descriptor_limit sent p g pos slots =
    inl (refl, λ e. cc)
cut_segments-Going (src ∷ source) (dst ∷ target) byte_limit descriptor_limit sent p g pos slots =
    elim (Bool-cases (src.amount == dst.amount)) [
      | inr differ ↦ inl (rw differ refl, λ e. ground arith)
      | inl same ↦
          elim (cut_segments-Going source target byte_limit descriptor_limit (sent + src.amount) _
            (resent byte_limit descriptor_limit _ (sent + src.amount) _
              (cut_pieces-Going byte_limit descriptor_limit src.amount sent src dst 0 p g pos slots
                (omega arith) (omega arith))
              (omega arith))
            pos slots) [
              | inl (bad, differ) ↦ inl (rw same bad, λ e. differ (cc e))
              | inr (p', good, even, g') ↦ inr (
                p',
                rw same good,
                ground arith,
                resent byte_limit descriptor_limit _ _ p' g' (omega arith),
              )
            ]
    ]
