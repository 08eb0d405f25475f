-- ===== src/KvCache/Pages/Tables.antt =====
-- The block tables that `allocate` and `ensure_capacity` build hold exactly the blocks they are
-- given, and are of one length.
use vllm_rlt.Common.{
  ℕ, zero, suc, ◌+◌, ◌*◌, ◌≤◌, ◌<◌, ◌≡◌, refl, ap, List, [], ◌∷◌, ◌++◌, some, ok, length, get_elem?,
  take, drop, concat, count, count-append, arith, All, length-append, length-take, length-drop,
  take-append-drop, drop_all, drop-drop,
}
use native.Mathlib.Numerals.{add-one}
use vllm_rlt.KvCache.Pages.{column, share, build_tables, extend_tables}

-- How often `b` stands at place `d` or later in the groups.
abbrev from_column : ℕ → List (List ℕ) → ℕ → ℕ
from_column d [] b = 0
from_column d (g ∷ prefix) b = count b (drop d g) + from_column d prefix b

drop_step :
    (d : ℕ) (g : List ℕ)
    → d < length g
    → (x : ℕ) × (get_elem? g d ≡ some x) × (drop d g ≡ x ∷ drop (suc d) g)
drop_step d [] h = elim h [ ]
drop_step zero (x ∷ g) h = (x, refl, refl)
drop_step (suc d) (y ∷ g) h = drop_step d g (omega arith)

column_lem :
    (d planes : ℕ) (prefix : List (List ℕ))
    → All (λ g. length g ≡ planes) prefix
    → d < planes
    → (bs : List ℕ) × (column d prefix ≡ ok bs)
      × (length bs ≡ length prefix)
      × ((b : ℕ) → count b bs + from_column (d + 1) prefix b ≡ from_column d prefix b)
unfolding column
column_lem d planes [] even h = ([], refl, refl, λ b. omega arith)
column_lem d planes (g ∷ prefix) (size, even) h =
    let (x, found, split) = drop_step d g (omega arith) in
    let (bs, e, len, counts) = column_lem d planes prefix even h in
    (
      x ∷ bs,
      rw (found, column) (rw e),
      ap suc len,
      λ b. omega (arith, counts b, ap (count b) split, ap (λ k. count b (drop k g)) (add-one d)),
    )

from_column_end :
    (planes : ℕ) (prefix : List (List ℕ)) (b : ℕ)
    → All (λ g. length g ≡ planes) prefix
    → from_column planes prefix b ≡ 0
from_column_end planes [] b even = refl
from_column_end planes (g ∷ prefix) b (size, even) =
    omega
      (arith, ap (count b) (drop_all planes g (omega arith)), from_column_end planes prefix b even)

from_column_start :
    (prefix : List (List ℕ)) (b : ℕ) → from_column 0 prefix b ≡ count b (concat prefix)
from_column_start [] b = refl
from_column_start (g ∷ prefix) b =
    omega (arith, from_column_start prefix b, count-append b g (concat prefix))

-- A share is as long as asked, and the shares partition the blocks.
share_lem :
    (n d : ℕ) (fresh : List ℕ)
    → (d + 1) * n ≤ length fresh
    → (length (share n d fresh) ≡ n)
      × ((b : ℕ)
          → count b (share n d fresh) + count b (drop ((d + 1) * n) fresh)
            ≡ count b (drop (d * n) fresh))
unfolding share
share_lem n d fresh h =
    let step : (d + 1) * n ≡ d * n + n = omega arith in
    (
      omega (arith, length-take n (drop (d * n) fresh), length-drop (d * n) fresh),
      λ b. omega (
        arith,
        ap (count b) (take-append-drop n (drop (d * n) fresh)),
        count-append b (take n (drop (d * n) fresh)) (drop n (drop (d * n) fresh)),
        ap (count b) (drop-drop (d * n) n fresh),
        ap (λ k. count b (drop k fresh)) step,
      ),
    )

start_share : (n : ℕ) (blocks : List ℕ) (b : ℕ) → count b (drop (0 * n) blocks) ≡ count b blocks
start_share n blocks b = ap (λ k. count b (drop k blocks)) {x = 0 * n} {y = 0} (omega arith)

build_tables_from :
    (d left planes : ℕ) (prefix : List (List ℕ)) (tail : ℕ) (fresh : List ℕ)
    → All (λ g. length g ≡ planes) prefix
    → d + left ≡ planes
    → length fresh ≡ planes * tail
    → (tables : List (List ℕ)) × (build_tables d left prefix tail fresh ≡ ok tables)
      × (length tables ≡ left)
      × All (λ t. length t ≡ length prefix + tail) tables
      × ((b : ℕ)
          → count b (concat tables) ≡ from_column d prefix b + count b (drop (d * tail) fresh))
unfolding build_tables
build_tables_from d zero planes prefix tail fresh even h size = (
  [],
  refl,
  refl,
  tt,
  λ b. omega (
    arith,
    from_column_end planes prefix b even,
    ap (λ k. from_column k prefix b) {x = d} {y = planes} (omega arith),
    ap (count b) (drop_all (d * tail) fresh (grind arith)),
  ),
)
build_tables_from d (suc left) planes prefix tail fresh even h size =
    let (bs, e, len, counts) = column_lem d planes prefix even (omega arith) in
    let (sized, shares) = share_lem tail d fresh (grind arith) in
    let (tables, e', planes', lens, total) =
      build_tables_from (d + 1) left planes prefix tail fresh even (omega arith) size in
    (
      (bs ++ share tail d fresh) ∷ tables,
      rw (e, e'),
      ap suc planes',
      (omega (arith, length-append bs (share tail d fresh)), lens),
      λ b. omega (
        arith,
        count-append b (bs ++ share tail d fresh) (concat tables),
        count-append b bs (share tail d fresh),
        counts b,
        shares b,
        total b,
      ),
    )

-- The tables of an allocation: one for each plane, all of one length, and together they hold the
-- blocks of the prefix and the fresh blocks.
pub build_tables_lem :
    (planes : ℕ) (prefix : List (List ℕ)) (tail : ℕ) (fresh : List ℕ)
    → All (λ g. length g ≡ planes) prefix
    → length fresh ≡ tail * planes
    → (tables : List (List ℕ)) × (build_tables 0 planes prefix tail fresh ≡ ok tables)
      × (length tables ≡ planes)
      × All (λ t. length t ≡ length prefix + tail) tables
      × ((b : ℕ) → count b (concat tables) ≡ count b (concat prefix) + count b fresh)
build_tables_lem planes prefix tail fresh even size =
    let (tables, e, n, lens, total) =
      build_tables_from 0 planes planes prefix tail fresh even (omega arith) (omega arith) in
    (
      tables,
      e,
      n,
      lens,
      λ b. omega (arith, total b, from_column_start prefix b, start_share tail fresh b),
    )

extend_tables_from :
    (d left planes extra pages : ℕ) (blocks : List ℕ) (tables : List (List ℕ))
    → length tables ≡ left
    → d + left ≡ planes
    → length blocks ≡ planes * extra
    → All (λ t. length t ≡ pages) tables
    → (length (extend_tables d extra blocks tables) ≡ left)
      × All (λ t. length t ≡ pages + extra) (extend_tables d extra blocks tables)
      × ((b : ℕ)
          → count b (concat (extend_tables d extra blocks tables))
            ≡ count b (concat tables) + count b (drop (d * extra) blocks))
unfolding extend_tables
extend_tables_from d left planes extra pages blocks [] n h size even =
    (n, tt, λ b. omega (arith, ap (count b) (drop_all (d * extra) blocks (grind arith))))
extend_tables_from d zero planes extra pages blocks (t ∷ tables) n h size even =
    absurd (omega arith)
extend_tables_from d (suc left) planes extra pages blocks (t ∷ tables) n h size (here, even) =
    let (sized, shares) = share_lem extra d blocks (grind arith) in
    let (n', lens, total) =
      extend_tables_from (d + 1) left planes extra pages blocks tables (omega arith) (omega arith)
        size even in
    (
      ap suc n',
      (omega (arith, length-append t (share extra d blocks)), lens),
      λ b. omega (
        arith,
        count-append b (t ++ share extra d blocks)
            (concat (extend_tables (d + 1) extra blocks tables)),
        count-append b t (share extra d blocks),
        count-append b t (concat tables),
        shares b,
        total b,
      ),
    )

-- Growth gives each plane's table as many blocks more, and all of the claimed blocks are used.
pub extend_tables_lem :
    (planes extra pages : ℕ) (blocks : List ℕ) (tables : List (List ℕ))
    → length tables ≡ planes
    → length blocks ≡ extra * planes
    → All (λ t. length t ≡ pages) tables
    → (length (extend_tables 0 extra blocks tables) ≡ planes)
      × All (λ t. length t ≡ pages + extra) (extend_tables 0 extra blocks tables)
      × ((b : ℕ)
          → count b (concat (extend_tables 0 extra blocks tables))
            ≡ count b (concat tables) + count b blocks)
extend_tables_lem planes extra pages blocks tables n size even =
    let (n', lens, total) =
      extend_tables_from 0 planes planes extra pages blocks tables n (omega arith) (omega arith)
        even in
    (n', lens, λ b. omega (arith, total b, start_share extra blocks b))
