-- ===== src/Scene/Update/Visit.antt =====
-- The objects that the loops over an array of cells come to.
use game_project.Base.{
  ℕ, zero, suc, ◌+◌, ◌<◌, ◌≡◌, Option, none, some, List, [], ◌∷◌, ◌++◌, map, ok, fault,
  out_of_range, length, get_elem?, arith, refl, Result,
}
use game_project.Base.Int.{ℤ, pos}
use game_project.Links.{Links}
use game_project.Links.Chain.{IsChain}
use game_project.Links.Bound.{IsBelow, length_of_IsBelow}
use game_project.Grid.Merge.{array}
use game_project.Cells.{Cells}
use game_project.Cells.Stand.{AreCells, AreCells-get}
use game_project.Cells.Find.{get_grid_by_index-pos, get_grid_by_index-none}
use game_project.Scene.Cell.{AllBelow, AllBelow-get}
use game_project.Scene.Run.{get_elem?-some}
use game_project.Scene.Update.{visit_objects, visit_grids}

-- The lists of some cells, one behind the other.
abbrev or_empty : Option (List ℕ) → List ℕ
or_empty none = []
or_empty (some xs) = xs

abbrev pub lists_at : List (List ℕ) → List ℕ → List ℕ
lists_at xss [] = []
lists_at xss (n ∷ ns) = or_empty (get_elem? xss n) ++ lists_at xss ns

module _ {A : Type 0} (g : ℕ → A → A) where
  abbrev step : ℕ → A → Result A
  step b x = ok (g b x)

  abbrev pub fold : A → List ℕ → A
  fold x [] = x
  fold x (b ∷ bs) = fold (g b x) bs

  pub fold-append : (x : A) (bs cs : List ℕ) → fold x (bs ++ cs) ≡ fold (fold x bs) cs
  fold-append x [] cs = refl
  fold-append x (b ∷ bs) cs = fold-append (g b x) bs cs

  -- The loop along a list takes its objects in their order.
  visit_objects-chain :
      (fuel : ℕ) (l : Links) (before head : Option ℕ) (xs : List ℕ) (x : A)
      → length xs < fuel
      → IsChain l before head xs
      → visit_objects step fuel head l x ≡ ok (fold x xs)
  unfolding visit_objects
  visit_objects-chain zero l before head xs x lt c = absurd (omega arith)
  visit_objects-chain (suc fuel) l before head [] x lt c = rw (c, visit_objects) refl
  visit_objects-chain (suc fuel) l before head (a ∷ xs) x lt c =
      rw (c.0, visit_objects)
        (visit_objects-chain fuel l (some a) (l.next a) xs (g a x) (omega arith) c.2)

  module _ (cell : ℕ → ℕ) (c : Cells) (xss : List (List ℕ))
      (s : AreCells c.links cell 0 c.heads xss) where
    -- The loops stop with a fault at a cell that the vector does not have.
    pub visit_grids-beyond :
        (ns : List ℕ) (m : ℕ) (rest : List ℤ) (x : A)
        → AllBelow c.made xss
        → IsBelow (length xss) ns
        → get_elem? c.heads m ≡ none
        → visit_grids step (map pos ns ++ (pos m ∷ rest)) c x ≡ fault out_of_range
    unfolding visit_grids
    visit_grids-beyond [] m rest x b below out = rw (get_grid_by_index-none m c out) refl
    visit_grids-beyond (n ∷ ns) m rest x b below out =
        let (xs, at) = get_elem?-some xss n below.0 in
        let (h, e, d) = AreCells-get c.links cell 0 n n c.heads xss xs (omega arith) s at in
        let walk =
          visit_objects-chain (c.made + 1) c.links none h xs x
            (omega (arith, length_of_IsBelow c.made xs (AllBelow-get c.made n xss xs b at) d.1))
            d.0 in
        rw (get_grid_by_index-pos n h c e)
          (rw (walk, visit_grids-beyond ns m rest (fold x xs) b below.1 out) refl)

    -- The loops take the objects of the cells, in their order, up to the end of the array.
    pub visit_grids-lists :
        (ns : List ℕ) (rest : List ℤ) (x : A)
        → AllBelow c.made xss
        → IsBelow (length xss) ns
        → visit_grids step (array ns rest) c x ≡ ok (fold x (lists_at xss ns))
    unfolding visit_grids
    visit_grids-lists [] rest x b below = refl
    visit_grids-lists (n ∷ ns) rest x b below =
        let (xs, at) = get_elem?-some xss n below.0 in
        let (h, e, d) = AreCells-get c.links cell 0 n n c.heads xss xs (omega arith) s at in
        let walk =
          visit_objects-chain (c.made + 1) c.links none h xs x
            (omega (arith, length_of_IsBelow c.made xs (AllBelow-get c.made n xss xs b at) d.1))
            d.0 in
        rw (get_grid_by_index-pos n h c e, at)
          (rw (walk, fold-append x xs (lists_at xss ns))
            (visit_grids-lists ns rest (fold x xs) b below.1))
