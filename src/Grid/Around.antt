-- ===== src/Grid/Around.antt =====
-- The cells round a cell, by rows and columns.
use native.Mathlib.Nat.{
  mul-add-div_right, mul-add-mod_self_right, div-eq_of_lt, mod-eq_of_lt, mod_self,
}
use game_project.Base.{
  dec_lt, ℕ, ◌+◌, ◌-◌, ◌*◌, ◌/◌, ◌%◌, ◌<◌, ◌≤◌, ◌≡◌, ap, ◌∙◌, inl, inr, false, List, [], ◌∷◌, ◌++◌,
  map, if◌then◌else◌, ◌==◌, arith, Bool-cases, replicate,
}
use game_project.Base.Int.{pos, ◌+ℤ◌, ◌-ℤ◌, pos-+ℤ, pos--ℤ, pos-*ℤ}
use game_project.Grid.{surrounding, end}
use game_project.Grid.Merge.{array}

-- The columns next to column `c`, itself included, that a grid has.
abbrev pub columns : ℕ → ℕ → List ℕ
columns cols c =
    if c == 0
    then c ∷ (c + 1) ∷ []
    else if c + 1 == cols
    then (c - 1) ∷ c ∷ []
    else (c - 1) ∷ c ∷ (c + 1) ∷ []

-- Their cells in a row.
abbrev pub in_row : ℕ → ℕ → ℕ → List ℕ
in_row cols c r = map (λ k. r * cols + k) (columns cols c)

-- The cells of the rows `r`, `r + 1` and `r + 2` next to column `c`.
abbrev pub around : ℕ → ℕ → ℕ → List ℕ
around cols r c = in_row cols c r ++ (in_row cols c (r + 1) ++ in_row cols c (r + 1 + 1))

module _ (cols r c : ℕ) (wide : 2 ≤ cols) (col : c < cols) where
  abbrev pub index : ℕ
  index = (r + 1) * cols + c

  index-row : index / cols ≡ r + 1
  index-row = mul-add-div_right (omega arith) (r + 1) c ∙ omega (arith, div-eq_of_lt col)

  index-col : index % cols ≡ c
  index-col = mul-add-mod_self_right (r + 1) cols c ∙ mod-eq_of_lt col

  next_col : (index + 1) % cols ≡ (if c + 1 == cols then 0 else c + 1)
  next_col =
      ap (λ k. k % cols) (omega arith)
      ∙ mul-add-mod_self_right (r + 1) cols (c + 1)
      ∙ elim (dec_lt (c + 1) cols) [
        | yes lt ↦ mod-eq_of_lt lt ∙ ground arith
        | no ge ↦ let e : c + 1 ≡ cols = omega arith in rw e (mod_self cols ∙ ground arith)
      ]

  row_above : pos (r + 1) -ℤ pos 1 ≡ pos r
  unfolding ◌-ℤ◌
  row_above = ground arith

  left_of : (k : ℕ) → 0 < c → pos (k * cols) +ℤ pos c -ℤ pos 1 ≡ pos (k * cols + (c - 1))
  left_of k h = rw pos-+ℤ (pos--ℤ (k * cols + c) 1 (omega arith) ∙ ap pos (omega arith))

  before : 0 < c → pos index -ℤ pos 1 ≡ pos ((r + 1) * cols + (c - 1))
  before h = pos--ℤ index 1 (omega arith) ∙ ap pos (omega arith)

  -- For the cell in row `r + 1` and column `c` of a grid of two columns at least,
  -- `GetSurroundingGrids` fills its array with the cells of the three rows and of the two or three
  -- columns round it, in rising order, and then with -1: one at least, four in the first and in the
  -- last column.
  pub surrounding_lem :
      surrounding cols index
      ≡ array
          (around cols r c)
          (replicate (if c == 0 then 3 else if c + 1 == cols then 3 else 0) end)
  unfolding surrounding
  surrounding_lem =
      rw
        (
          index-row,
          index-col,
          next_col,
          row_above,
          pos-+ℤ (r + 1) 1,
          pos-*ℤ r cols,
          pos-*ℤ (r + 1 + 1) cols,
        )
        (elim (Bool-cases (c == 0)) [
          | inl p ↦ rw p (let z : c ≡ 0 = ground arith in simp pos-+ℤ (grind arith))
          | inr p ↦
              let far : 0 < c = ground arith in
              elim (Bool-cases (c + 1 == cols)) [
                | inl q ↦
                    rw (p, q)
                      (rw
                        (
                          left_of r (ground arith),
                          left_of (r + 1 + 1) (ground arith),
                          before (ground arith),
                        )
                        (simp pos-+ℤ (grind arith)))
                | inr q ↦
                    rw (p, q)
                      (rw
                        (
                          left_of r (ground arith),
                          left_of (r + 1 + 1) (ground arith),
                          before (ground arith),
                        )
                        (let z : (c + 1 == 0) ≡ false = ground arith in
                          rw z (simp pos-+ℤ (grind arith))))
              ]
        ])
