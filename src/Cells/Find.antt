-- ===== src/Cells/Find.antt =====
-- `IsObjectExist` answers whether the cell has the object.
use game_project.Base.{
  ℕ, zero, suc, ◌+◌, ◌<◌, ◌≡◌, refl, sym, ap, ◌∙◌, Option, none, some, List, [], ◌∷◌, ok, fault,
  out_of_range, length, get_elem?, arith,
}
use game_project.Base.Int.{pos}
use game_project.Links.{Links}
use game_project.Links.Chain.{IsChain}
use game_project.Links.Bound.{IsBelow, length_of_IsBelow}
use game_project.Grid.Merge.{member}
use game_project.Cells.{Cells, get_grid_by_index, is_object_exist, is_object_in_grid}
use game_project.Cells.Stand.{AreCells, AreCells-get}

is_object_exist-member :
    (fuel a : ℕ) (l : Links) (before head : Option ℕ) (xs : List ℕ)
    → length xs < fuel
    → IsChain l before head xs
    → is_object_exist fuel a head l ≡ ok (member a xs)
unfolding is_object_exist
is_object_exist-member zero a l before head xs lt c = absurd (omega arith)
is_object_exist-member (suc fuel) a l before head [] lt c = rw (c, is_object_exist) refl
is_object_exist-member (suc fuel) a l before head (x ∷ xs) lt c =
    let rest = is_object_exist-member fuel a l (some x) (l.next x) xs (omega arith) c.2 in
    rw (c.0, is_object_exist) (rw (rest, is_object_exist) (ground arith))

pub get_grid_by_index-pos :
    (n : ℕ) (h : Option ℕ) (c : Cells)
    → get_elem? c.heads n ≡ some h
    → get_grid_by_index (pos n) c ≡ ok (some (n, h))
unfolding get_grid_by_index
get_grid_by_index-pos n h c e = rw (e, get_grid_by_index) refl

pub get_grid_by_index-none :
    (n : ℕ) (c : Cells)
    → get_elem? c.heads n ≡ none
    → get_grid_by_index (pos n) c ≡ fault out_of_range
unfolding get_grid_by_index
get_grid_by_index-none n c e = rw (e, get_grid_by_index) refl

-- `IsObjectExist` in a cell of the manager, whose m_pHead is `h`.
pub is_object_exist-cell :
    (cell : ℕ → ℕ) (a n : ℕ) (h : Option ℕ) (c : Cells) (xss : List (List ℕ)) (xs : List ℕ)
    → AreCells c.links cell 0 c.heads xss
    → get_elem? xss n ≡ some xs
    → get_elem? c.heads n ≡ some h
    → IsBelow c.made xs
    → is_object_exist (c.made + 1) a h c.links ≡ ok (member a xs)
is_object_exist-cell cell a n h c xss xs s g e below =
    let (k, q, d) = AreCells-get c.links cell 0 n n c.heads xss xs (omega arith) s g in
    let same : some h ≡ some k = sym e ∙ q in
    let r : h ≡ k = cc in
    ap (λ z. is_object_exist (c.made + 1) a z c.links) r
    ∙ is_object_exist-member (c.made + 1) a c.links none k xs
        (omega (arith, length_of_IsBelow c.made xs below d.1)) d.0

is_object_in_grid-at :
    (a n : ℕ) (h : Option ℕ) (c : Cells)
    → get_elem? c.heads n ≡ some h
    → is_object_in_grid a (pos n) c ≡ is_object_exist (c.made + 1) a h c.links
unfolding is_object_in_grid
is_object_in_grid-at a n h c e = rw (get_grid_by_index-pos n h c e) refl

-- `IsObjectExist` returns, and says whether the list of the cell has the object.
pub is_object_in_grid-member :
    (cell : ℕ → ℕ) (a n : ℕ) (c : Cells) (xss : List (List ℕ)) (xs : List ℕ)
    → AreCells c.links cell 0 c.heads xss
    → get_elem? xss n ≡ some xs
    → IsBelow c.made xs
    → is_object_in_grid a (pos n) c ≡ ok (member a xs)
is_object_in_grid-member cell a n c xss xs s g below =
    let (h, e, d) = AreCells-get c.links cell 0 n n c.heads xss xs (omega arith) s g in
    is_object_in_grid-at a n h c e ∙ is_object_exist-cell cell a n h c xss xs s g e below
