-- ===== src/Scene/Update/Round.antt =====
-- The array of cells that an update goes through, and which of them are cells of the grid.
use game_project.Base.{
  ℕ, ◌+◌, ◌-◌, ◌*◌, ◌<◌, ◌≤◌, ◌≡◌, refl, ◌∙◌, inl, inr, List, [], ◌∷◌, ◌++◌, replicate, length, ok,
  if◌then◌else◌, ◌==◌, Bool-cases, arith,
}
use game_project.Base.Int.{ℤ, pos}
use game_project.Links.Bound.{IsBelow}
use game_project.Grid.{end}
use game_project.Grid.Merge.{array}
use game_project.Grid.Around.{in_row, around, surrounding_lem}
use game_project.Cells.Position.{Floats}
use game_project.Cells.Position.Bounds.{index-lt}
use game_project.Scene.{Scene}
use game_project.Scene.Holds.{Holds}
use game_project.Scene.Run.{AreCells-length}
use game_project.Scene.Update.{surrounding_grids}

pub IsBelow-append : (n : ℕ) (xs ys : List ℕ) → IsBelow n xs → IsBelow n ys → IsBelow n (xs ++ ys)
IsBelow-append n [] ys h k = k
IsBelow-append n (x ∷ xs) ys h k = (h.0, IsBelow-append n xs ys h.1 k)

module _ (rows cols : ℕ) where
  pub in_row-IsBelow :
      (c r : ℕ) → r < rows → 2 ≤ cols → c < cols → IsBelow (rows * cols) (in_row cols c r)
  in_row-IsBelow c r hr wide hc = elim (Bool-cases (c == 0)) [
    | inl p ↦
        rw p (index-lt rows cols r c hr hc, (index-lt rows cols r (c + 1) hr (ground arith), tt))
    | inr p ↦ elim (Bool-cases (c + 1 == cols)) [
      | inl q ↦
          rw (p, q)
            (index-lt rows cols r (c - 1) hr (omega arith), (index-lt rows cols r c hr hc, tt))
      | inr q ↦
          rw (p, q)
            (
              index-lt rows cols r (c - 1) hr (omega arith),
              (index-lt rows cols r c hr hc, (index-lt rows cols r (c + 1) hr (ground arith), tt)),
            )
    ]
  ]

  -- The cells round one that is not in the first or last row are cells of the grid.
  pub around-IsBelow :
      (r c : ℕ) → r + 2 < rows → 2 ≤ cols → c < cols → IsBelow (rows * cols) (around cols r c)
  around-IsBelow r c hr wide hc =
      IsBelow-append (rows * cols) (in_row cols c r)
        (in_row cols c (r + 1) ++ in_row cols c (r + 1 + 1))
        (in_row-IsBelow c r (omega arith) wide hc)
        (IsBelow-append (rows * cols) (in_row cols c (r + 1)) (in_row cols c (r + 1 + 1))
          (in_row-IsBelow c (r + 1) (omega arith) wide hc)
          (in_row-IsBelow c (r + 1 + 1) (omega arith) wide hc))

-- What stands behind the cells in the array of `GetSurroundingGrids`.
abbrev pub tail : ℕ → ℕ → List ℤ
tail cols c = replicate (if c == 0 then 3 else if c + 1 == cols then 3 else 0) end

module _ {f : Floats} (rows cols : ℕ) (s : Scene f) (xss : List (List ℕ))
    (h : Holds rows cols s xss) where
  pub surrounding_grids-around :
      (r c : ℕ)
      → 2 ≤ cols
      → c < cols
      → surrounding_grids s.area.max_cols (pos ((r + 1) * cols + c))
        ≡ ok (array (around cols r c) (tail cols c))
  unfolding surrounding_grids
  surrounding_grids-around r c wide col = rw (h.cols_lem, surrounding_lem cols r c wide col) refl

  pub length-lists : length xss ≡ rows * cols
  length-lists = AreCells-length _ _ 0 s.cells.heads xss h.cells ∙ h.sized
