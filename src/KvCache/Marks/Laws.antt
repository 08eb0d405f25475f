-- ===== src/KvCache/Marks/Laws.antt =====
-- What marking positions does to the written sets of an allocation.
use vllm_rlt.Common.{
  ℕ, ◌<◌, ◌≡◌, ap, ◌∙◌, ◌&&◌, ◌||◌, List, [], ◌∷◌, ◌==◌, if◌then◌else◌, length, get_or, set,
  get_or-set, length-set, contains, All, All-set, All-get_or, All-get_or_inside, arith,
}
use vllm_rlt.KvCache.Written.{Written, add, holds, written_to}
use vllm_rlt.KvCache.Written.Laws.{IsNormal, add-IsNormal, holds-add}
use vllm_rlt.KvCache.Marks.{row, mark, mark_layers, mark_planes}

-- The written sets of an allocation: so many planes of so many layers, each in normal form.
pub record IsGrid (planes layers : ℕ) (ws : List (List Written)) : Type 0 where
  pub height : length ws ≡ planes
  pub width : All (λ r. length r ≡ layers) ws
  pub normal : All (All IsNormal) ws

blank-IsNormal : IsNormal (written_to 0)
unfolding written_to
blank-IsNormal p e = cc

pub row-IsNormal :
    (planes layers : ℕ) (ws : List (List Written)) (p l : ℕ)
    → IsGrid planes layers ws
    → IsNormal (row ws p l)
unfolding row
row-IsNormal planes layers ws p l g =
    All-get_or IsNormal (get_or ws p []) l (written_to 0)
      (All-get_or (All IsNormal) ws p [] g.normal tt) blank-IsNormal

pub mark-IsGrid :
    (planes layers : ℕ) (ws : List (List Written)) (p l position : ℕ)
    → IsGrid planes layers ws
    → p < planes
    → IsGrid planes layers (mark ws p l position)
unfolding mark
mark-IsGrid planes layers ws p l position g h =
    let here : length (get_or ws p []) ≡ layers =
      All-get_or_inside (λ r. length r ≡ layers) ws p [] g.width (omega (arith, g.height)) in
    let new = set (get_or ws p []) l (add (row ws p l) position) in
    record {
      height = length-set ws p new ∙ g.height;
      width =
          All-set (λ r. length r ≡ layers) ws p new g.width
            (length-set (get_or ws p []) l (add (row ws p l) position) ∙ here);
      normal = All-set (All IsNormal) ws p new g.normal (
          All-set IsNormal (get_or ws p []) l (add (row ws p l) position)
            (All-get_or (All IsNormal) ws p [] g.normal tt)
            (add-IsNormal (row ws p l) position (row-IsNormal planes layers ws p l g)));
    }

row-mark :
    (planes layers : ℕ) (ws : List (List Written)) (p l position : ℕ)
    → IsGrid planes layers ws
    → p < planes
    → l < layers
    → (p' l' : ℕ)
    → row (mark ws p l position) p' l'
      ≡ (if (p == p') && (l == l') then add (row ws p l) position else row ws p' l')
unfolding mark row
row-mark planes layers ws p l position g hp hl p' l' =
    let here : length (get_or ws p []) ≡ layers =
      All-get_or_inside (λ r. length r ≡ layers) ws p [] g.width (omega (arith, g.height)) in
    let v = add (row ws p l) position in
    let new = set (get_or ws p []) l v in
    ground (
      arith,
      get_or-set ws p p' new [],
      get_or-set (get_or ws p []) l l' v (written_to 0),
      g.height,
      here,
    )

-- One mark adds one position at one plane and layer.
pub holds-mark :
    (planes layers : ℕ) (ws : List (List Written)) (p l position : ℕ)
    → IsGrid planes layers ws
    → p < planes
    → l < layers
    → (p' l' x : ℕ)
    → holds (row (mark ws p l position) p' l') x
      ≡ (holds (row ws p' l') x || ((p == p') && ((l == l') && (position == x))))
holds-mark planes layers ws p l position g hp hl p' l' x =
    ap (λ w. holds w x) (row-mark planes layers ws p l position g hp hl p' l')
    ∙ ground (arith, holds-add (row ws p l) position x (row-IsNormal planes layers ws p l g))

mark_layers-IsGrid :
    (planes layers : ℕ) (ws : List (List Written)) (p : ℕ) (ls : List ℕ) (position : ℕ)
    → IsGrid planes layers ws
    → p < planes
    → IsGrid planes layers (mark_layers ws p ls position)
unfolding mark_layers
mark_layers-IsGrid planes layers ws p [] position g hp = g
mark_layers-IsGrid planes layers ws p (l ∷ ls) position g hp =
    mark_layers-IsGrid planes layers (mark ws p l position) p ls position
      (mark-IsGrid planes layers ws p l position g hp) hp

holds-mark_layers :
    (planes layers : ℕ) (ws : List (List Written)) (p : ℕ) (ls : List ℕ) (position : ℕ)
    → IsGrid planes layers ws
    → p < planes
    → All (λ l. l < layers) ls
    → (p' l' x : ℕ)
    → holds (row (mark_layers ws p ls position) p' l') x
      ≡ (holds (row ws p' l') x || ((p == p') && (contains l' ls && (position == x))))
unfolding mark_layers
holds-mark_layers planes layers ws p [] position g hp inside p' l' x = ground arith
holds-mark_layers planes layers ws p (l ∷ ls) position g hp (hl, inside) p' l' x =
    holds-mark_layers planes layers (mark ws p l position) p ls position
      (mark-IsGrid planes layers ws p l position g hp) hp inside p' l' x
    ∙ ground (arith, holds-mark planes layers ws p l position g hp hl p' l' x)

pub mark_planes-IsGrid :
    (planes layers : ℕ) (ws : List (List Written)) (ps ls : List ℕ) (position : ℕ)
    → IsGrid planes layers ws
    → All (λ p. p < planes) ps
    → IsGrid planes layers (mark_planes ws ps ls position)
unfolding mark_planes
mark_planes-IsGrid planes layers ws [] ls position g inside = g
mark_planes-IsGrid planes layers ws (p ∷ ps) ls position g (hp, inside) =
    mark_planes-IsGrid planes layers (mark_layers ws p ls position) ps ls position
      (mark_layers-IsGrid planes layers ws p ls position g hp) inside

-- Marking some planes and layers adds the position there, and nothing anywhere else.
pub holds-mark_planes :
    (planes layers : ℕ) (ws : List (List Written)) (ps ls : List ℕ) (position : ℕ)
    → IsGrid planes layers ws
    → All (λ p. p < planes) ps
    → All (λ l. l < layers) ls
    → (p' l' x : ℕ)
    → holds (row (mark_planes ws ps ls position) p' l') x
      ≡ (holds (row ws p' l') x || (contains p' ps && (contains l' ls && (position == x))))
unfolding mark_planes
holds-mark_planes planes layers ws [] ls position g inside sized p' l' x = ground arith
holds-mark_planes planes layers ws (p ∷ ps) ls position g (hp, inside) sized p' l' x =
    holds-mark_planes planes layers (mark_layers ws p ls position) ps ls position
      (mark_layers-IsGrid planes layers ws p ls position g hp) inside sized p' l' x
    ∙ ground (arith, holds-mark_layers planes layers ws p ls position g hp sized p' l' x)
