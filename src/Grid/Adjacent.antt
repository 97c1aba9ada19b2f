-- ===== src/Grid/Adjacent.antt =====
-- The cells round a cell are the ones whose row and column differ by one at most.
use native.Mathlib.Nat.{mul-le-mul_right}
use game_project.Base.{
  dec_lt, ℕ, ◌+◌, ◌-◌, ◌*◌, ◌<◌, ◌≤◌, ◌≡◌, refl, inl, inr, Bool, false, ◌&&◌, ◌||◌, List, [], ◌∷◌,
  ◌++◌, leb, ◌==◌, arith, Bool-cases,
}
use game_project.Grid.Merge.{IsRising, member}
use game_project.Grid.Around.{in_row, around}

-- Two positions of a row, or of a column, that differ by one at most.
abbrev pub near : ℕ → ℕ → Bool
near a b = leb a (b + 1) && leb b (a + 1)

pub member-append : (k : ℕ) (xs ys : List ℕ) → member k (xs ++ ys) ≡ (member k xs || member k ys)
member-append k [] ys = refl
member-append k (x ∷ xs) ys = ground (arith, member-append k xs ys)

module _ (cols : ℕ) where
  next_row : (r : ℕ) → (r + 1) * cols ≡ r * cols + cols
  next_row r = omega arith

  row-apart : (j r k c : ℕ) → j < r → k < cols → (j * cols + k == r * cols + c) ≡ false
  row-apart j r k c h hk =
      let m : (j + 1) * cols ≤ r * cols = mul-le-mul_right cols (omega arith) in ground arith

  row_after : (j r k c : ℕ) → r < j → c < cols → (j * cols + k == r * cols + c) ≡ false
  row_after j r k c h hc =
      let m : (r + 1) * cols ≤ j * cols = mul-le-mul_right cols (omega arith) in ground arith

  pub same_cell :
      (j r k c : ℕ) → k < cols → c < cols → (j * cols + k == r * cols + c) ≡ (j == r && k == c)
  same_cell j r k c hk hc = elim (dec_lt j r) [
    | yes lt ↦ rw (row-apart j r k c lt hk) (ground arith)
    | no ge ↦ elim (dec_lt r j) [
      | yes gt ↦ rw (row_after j r k c gt hc) (ground arith)
      | no le ↦ let e : j ≡ r = omega arith in ground arith
    ]
  ]

  pub around-IsRising : (r c : ℕ) → 2 ≤ cols → c < cols → IsRising (around cols r c)
  around-IsRising r c wide col = elim (Bool-cases (c == 0)) [
    | inl p ↦ rw p (ground arith)
    | inr p ↦ elim (Bool-cases (c + 1 == cols)) [
      | inl q ↦ rw (p, q) (ground arith)
      | inr q ↦ rw (p, q) (ground arith)
    ]
  ]

  member-in_row :
      (r c j k : ℕ)
      → 2 ≤ cols
      → c < cols
      → k < cols
      → member (j * cols + k) (in_row cols c r) ≡ (j == r && near c k)
  member-in_row r c j k wide col hk = elim (Bool-cases (c == 0)) [
    | inl p ↦
        rw p
          (rw (same_cell j r k c hk col, same_cell j r k (c + 1) hk (ground arith)) (ground arith))
    | inr p ↦ elim (Bool-cases (c + 1 == cols)) [
      | inl q ↦
          rw (p, q)
            (rw (same_cell j r k (c - 1) hk (omega arith), same_cell j r k c hk col) (ground arith))
      | inr q ↦
          rw (p, q)
            (rw
              (
                same_cell j r k (c - 1) hk (omega arith),
                same_cell j r k c hk col,
                same_cell j r k (c + 1) hk (ground arith),
              )
              (ground arith))
    ]
  ]

  -- The list `around` has the cells whose row and column differ by one at most from row `r + 1` and
  -- column `c`, and no others.
  pub member-around :
      (r c j k : ℕ)
      → 2 ≤ cols
      → c < cols
      → k < cols
      → member (j * cols + k) (around cols r c) ≡ (near (r + 1) j && near c k)
  member-around r c j k wide col hk =
      rw
        (
          member-append (j * cols + k) (in_row cols c r)
              (in_row cols c (r + 1) ++ in_row cols c (r + 1 + 1)),
          member-append (j * cols + k) (in_row cols c (r + 1)) (in_row cols c (r + 1 + 1)),
          member-in_row r c j k wide col hk,
          member-in_row (r + 1) c j k wide col hk,
          member-in_row (r + 1 + 1) c j k wide col hk,
        )
        (ground arith)
