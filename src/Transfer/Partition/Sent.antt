-- ===== src/Transfer/Partition/Sent.antt =====
-- The bytes on either side of the pieces that `partition_segments` of vllm_rlt/pd/transport.py cuts.
use vllm_rlt.Common.{
  ℕ, zero, suc, ◌+◌, ◌-◌, ◌≤◌, ◌<◌, ◌≡◌, refl, sym, ap, ◌∙◌, ◌||◌, List, [], ◌∷◌, ◌++◌, ◌==◌, ltb,
  length, min, arith, if-cases,
}
use vllm_rlt.Transfer.Segments.{Segment, Chunk, Parts, empty_chunk, shift, cut_piece, cut_pieces}
use vllm_rlt.Transfer.Partition.{Going, cut_piece-Going}

-- A byte: its device and its address.
abbrev pub Byte : Type 0
Byte = ℕ × ℕ

unfoldable pub byte_run : ℕ → ℕ → ℕ → List Byte
byte_run device address zero = []
byte_run device address (suc amount) = (device, address) ∷ byte_run device (address + 1) amount

unfoldable pub bytes_of : List Segment → List Byte
unfolding byte_run
bytes_of [] = []
bytes_of (s ∷ ss) = byte_run s.device s.address s.amount ++ bytes_of ss

-- The bytes on one side of the chunks, in the order of the writes.
unfoldable pub carried : (Chunk → List Segment) → List Chunk → List Byte
unfolding bytes_of
carried side [] = []
carried side (c ∷ chunks) = bytes_of (side c) ++ carried side chunks

abbrev pub local_side : Chunk → List Segment
local_side c = c.local

abbrev pub remote_side : Chunk → List Segment
remote_side c = c.remote

pub append_append : (xs ys zs : List Byte) → (xs ++ ys) ++ zs ≡ xs ++ (ys ++ zs)
append_append [] ys zs = refl
append_append (x ∷ xs) ys zs = ap (λ l. x ∷ l) (append_append xs ys zs)

pub append_nil : (xs : List Byte) → xs ≡ xs ++ []
append_nil [] = refl
append_nil (x ∷ xs) = ap (λ l. x ∷ l) (append_nil xs)

byte_run-add :
    (device address m n : ℕ)
    → byte_run device address (m + n) ≡ byte_run device address m ++ byte_run device (address + m) n
unfolding byte_run
byte_run-add device address zero n =
    let none_more : zero + n ≡ n = omega arith in
    let same : address ≡ address + zero = omega arith in
    ap (byte_run device address) none_more ∙ ap (λ a. byte_run device a n) same
byte_run-add device address (suc m) n =
    let one_more : suc m + n ≡ suc (m + n) = omega arith in
    let along : address + 1 + m ≡ address + suc m = omega arith in
    ap (byte_run device address) one_more
    ∙ ap (λ l. (device, address) ∷ l)
        (byte_run-add device (address + 1) m n
          ∙ ap (λ a. byte_run device (address + 1) m ++ byte_run device a n) along)

bytes_of-append :
    (xs : List Segment) (s : Segment)
    → bytes_of (xs ++ s ∷ []) ≡ bytes_of xs ++ byte_run s.device s.address s.amount
unfolding bytes_of
bytes_of-append [] s = sym (append_nil (byte_run s.device s.address s.amount))
bytes_of-append (x ∷ xs) s =
    ap (λ l. byte_run x.device x.address x.amount ++ l) (bytes_of-append xs s)
    ∙ sym (
        append_append (byte_run x.device x.address x.amount) (bytes_of xs)
          (byte_run s.device s.address s.amount))

pub carried-append :
    (side : Chunk → List Segment) (chunks : List Chunk) (c : Chunk)
    → carried side (chunks ++ c ∷ []) ≡ carried side chunks ++ bytes_of (side c)
unfolding carried
carried-append side [] c = sym (append_nil (bytes_of (side c)))
carried-append side (x ∷ chunks) c =
    ap (λ l. bytes_of (side x) ++ l) (carried-append side chunks c)
    ∙ sym (append_append (bytes_of (side x)) (carried side chunks) (bytes_of (side c)))

-- What the chunks and the one being filled carry.
unfoldable pub sent_on : (Chunk → List Segment) → Parts → List Byte
sent_on side p = carried side p.chunks ++ bytes_of (side p.filling)

-- The chunk being filled with the next piece.
abbrev pub filled : Segment → Segment → ℕ → ℕ → Parts → Chunk
filled src dst offset amount p = record {
  local = p.filling.local ++ shift src offset amount ∷ [];
  remote = p.filling.remote ++ shift dst offset amount ∷ [];
  size = p.filling.size + amount;
}

-- One side of the loops over a segment `src` and its target `dst`: `s` is the one on this side.
module _ (side : Chunk → List Segment) (src dst s : Segment) (fresh : side empty_chunk ≡ [])
    (filled-side : (offset amount : ℕ) (p : Parts)
      → side (filled src dst offset amount p) ≡ side p.filling ++ shift s offset amount ∷ []) where
  bytes_of-filled :
      (offset amount : ℕ) (p : Parts)
      → bytes_of (side (filled src dst offset amount p))
        ≡ bytes_of (side p.filling) ++ byte_run s.device (s.address + offset) amount
  unfolding shift
  bytes_of-filled offset amount p =
      ap bytes_of (filled-side offset amount p)
      ∙ bytes_of-append (side p.filling) (shift s offset amount)

  cut_piece-sent :
      (byte_limit descriptor_limit offset amount : ℕ) (p : Parts)
      → sent_on side (cut_piece src dst byte_limit descriptor_limit offset amount p)
        ≡ sent_on side p ++ byte_run s.device (s.address + offset) amount
  unfolding cut_piece sent_on bytes_of
  cut_piece-sent byte_limit descriptor_limit offset amount p =
      let next = filled src dst offset amount p in
      let run = byte_run s.device (s.address + offset) amount in
      let longer =
        ap (λ l. carried side p.chunks ++ l) (bytes_of-filled offset amount p)
        ∙ sym (append_append (carried side p.chunks) (bytes_of (side p.filling)) run) in
      if-cases (λ q. sent_on side q ≡ sent_on side p ++ run)
        ((next.size == byte_limit) || (length next.local == descriptor_limit))
        (λ full.
          ap (λ l. carried side (p.chunks ++ next ∷ []) ++ bytes_of l) fresh
          ∙ (sym (append_nil (carried side (p.chunks ++ next ∷ [])))
              ∙ (carried-append side p.chunks next ∙ longer)))
        (λ open_. longer)

  pub cut_pieces-sent :
      (byte_limit descriptor_limit fuel sent offset : ℕ) (p : Parts)
      → Going byte_limit descriptor_limit sent p
      → 0 < byte_limit
      → 0 < descriptor_limit
      → offset ≤ src.amount
      → src.amount - offset ≤ fuel
      → sent_on side (cut_pieces fuel src dst byte_limit descriptor_limit offset p)
        ≡ sent_on side p ++ byte_run s.device (s.address + offset) (src.amount - offset)
  unfolding cut_pieces byte_run
  cut_pieces-sent byte_limit descriptor_limit zero sent offset p g pos slots le enough =
      let none_left : 0 ≡ src.amount - offset = omega arith in
      append_nil (sent_on side p)
      ∙ ap (λ n. sent_on side p ++ byte_run s.device (s.address + offset) n) none_left
  cut_pieces-sent byte_limit descriptor_limit (suc fuel) sent offset p g pos slots le enough =
      let amount = min (src.amount - offset) (byte_limit - p.filling.size) in
      let here = byte_run s.device (s.address + offset) amount in
      if-cases
        (λ q.
          sent_on side q
          ≡ sent_on side p ++ byte_run s.device (s.address + offset) (src.amount - offset))
        (ltb offset src.amount)
        (λ more.
          let below : offset < src.amount = ground arith in
          let going =
            cut_piece-Going byte_limit descriptor_limit sent src dst offset amount p g
              (omega (arith, g.room)) pos slots in
          let later =
            cut_pieces-sent byte_limit descriptor_limit fuel (sent + amount) (offset + amount) _
              going pos slots (omega arith) (omega (arith, g.room, below)) in
          let rest = src.amount - (offset + amount) in
          let along : s.address + (offset + amount) ≡ s.address + offset + amount = omega arith in
          let whole : amount + rest ≡ src.amount - offset = omega (arith, below) in
          later
          ∙ (ap (λ l. l ++ byte_run s.device (s.address + (offset + amount)) rest)
                (cut_piece-sent byte_limit descriptor_limit offset amount p)
              ∙ (append_append (sent_on side p) here
                    (byte_run s.device (s.address + (offset + amount)) rest)
                  ∙ ap (λ l. sent_on side p ++ l)
                      (ap (λ a. here ++ byte_run s.device a rest) along
                        ∙ (sym (byte_run-add s.device (s.address + offset) amount rest)
                            ∙ ap (byte_run s.device (s.address + offset)) whole)))))
        (λ end_.
          let none_left : 0 ≡ src.amount - offset = ground arith in
          append_nil (sent_on side p)
          ∙ ap (λ n. sent_on side p ++ byte_run s.device (s.address + offset) n) none_left)
