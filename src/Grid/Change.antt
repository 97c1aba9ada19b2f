-- ===== src/Grid/Change.antt =====
-- What `CalDiffGrids` finds between the surroundings of two cells.
use game_project.Base.{
  ℕ, zero, suc, ◌+◌, ◌-◌, ◌*◌, ◌<◌, ◌≤◌, ◌≡◌, ◌∙◌, refl, Bool, true, false, not, ◌&&◌, ◌||◌, List,
  [], ◌∷◌, ◌++◌, map, replicate, ◌==◌, arith, ok, Ensures, length, inl, inr, Bool-cases,
  if◌then◌else◌,
}
use game_project.Base.Int.{ℤ, pos, eq_ℤ}
use game_project.Grid.{cal_diff_grids, pad, end}
use game_project.Grid.Merge.{member, without, within, merge_grids_lem}
use game_project.Grid.Around.{around, surrounding_lem}
use game_project.Grid.Adjacent.{near, member-around, around-IsRising}

-- An array of indices contains one.
abbrev pub contains : ℕ → List ℤ → Bool
contains n [] = false
contains n (x ∷ xs) = eq_ℤ (pos n) x || contains n xs

contains-replicate : (n k : ℕ) → contains n (replicate k end) ≡ false
contains-replicate n zero = refl
contains-replicate n (suc k) = contains-replicate n k

contains-array : (n k : ℕ) (xs : List ℕ) → contains n (map pos xs ++ replicate k end) ≡ member n xs
contains-array n k [] = contains-replicate n k
contains-array n k (x ∷ xs) = rw (contains-array n k xs) refl

contains-pad : (n : ℕ) (xs : List ℕ) → contains n (pad (map pos xs)) ≡ member n xs
unfolding pad
contains-pad n xs = contains-array n (10 - length (map pos xs)) xs

-- Equal numbers are members of the same lists.
same_member : (k y : ℕ) (xs : List ℕ) → (k == y) ≡ true → member k xs ≡ member y xs
same_member k y xs h = let e : k ≡ y = ground arith in rw e refl

pub member-without :
    (k : ℕ) (xs ys : List ℕ) → member k (without xs ys) ≡ (member k ys && not (member k xs))
member-without k xs [] = refl
member-without k xs (y ∷ ys) = elim (Bool-cases (k == y)) [
  | inl e ↦ rw (← same_member k y xs e) (elim (Bool-cases (member k xs)) [
    | inl p ↦ rw (p, member-without k xs ys, p, e) (ground arith)
    | inr p ↦ rw (p, e) refl
  ])
  | inr n ↦ elim (Bool-cases (member y xs)) [
    | inl p ↦ rw (p, member-without k xs ys, n) refl
    | inr p ↦ rw (p, n) (member-without k xs ys)
  ]
]

pub member-within :
    (k : ℕ) (xs ys : List ℕ) → member k (within xs ys) ≡ (member k ys && member k xs)
member-within k xs [] = refl
member-within k xs (y ∷ ys) = elim (Bool-cases (k == y)) [
  | inl e ↦ rw (← same_member k y xs e) (elim (Bool-cases (member k xs)) [
    | inl p ↦ rw (p, e) refl
    | inr p ↦ rw (p, member-within k xs ys, p, e) (ground arith)
  ])
  | inr n ↦ elim (Bool-cases (member y xs)) [
    | inl p ↦ rw (p, n) (member-within k xs ys)
    | inr p ↦ rw (p, member-within k xs ys, n) refl
  ]
]

-- The cell in row `j`, column `k` is round the one in row `r`, column `c`.
abbrev pub adjacent : ℕ → ℕ → ℕ → ℕ → Bool
adjacent r c j k = near r j && near c k

module _ (cols r c r' c' : ℕ) (wide : 2 ≤ cols) (col : c < cols) (col' : c' < cols) where
  pub cal_diff_grids_lem :
      cal_diff_grids cols ((r + 1) * cols + c) ((r' + 1) * cols + c')
      ≡ ok (record {
        inc = pad (map pos (without (around cols r c) (around cols r' c')));
        dec = pad (map pos (without (around cols r' c') (around cols r c)));
        stay = pad (map pos (within (around cols r' c') (around cols r c)));
      })
  unfolding cal_diff_grids
  cal_diff_grids_lem =
      rw
        (
          surrounding_lem cols r c wide col,
          surrounding_lem cols r' c' wide col',
          merge_grids_lem (around cols r c) (around cols r' c')
              (replicate (if c == 0 then 3 else if c + 1 == cols then 3 else 0) end)
              (replicate (if c' == 0 then 3 else if c' + 1 == cols then 3 else 0) end)
              (around-IsRising cols r c wide col) (around-IsRising cols r' c' wide col'),
        )
        refl

  -- Between two cells that are not in the first or last row, `CalDiffGrids` returns. It reports as
  -- increased the cells that are round the destination and not round the source, as decreased those
  -- round the source and not round the destination, and as kept those round both.
  pub cal_diff_grids-adjacent :
      (j k : ℕ)
      → k < cols
      → Ensures
          (λ d.
            (contains (j * cols + k) d.inc
              ≡ (adjacent (r' + 1) c' j k && not (adjacent (r + 1) c j k)))
            × (contains (j * cols + k) d.dec
                ≡ (adjacent (r + 1) c j k && not (adjacent (r' + 1) c' j k)))
            × (contains (j * cols + k) d.stay
                ≡ (adjacent (r + 1) c j k && adjacent (r' + 1) c' j k)))
          (cal_diff_grids cols ((r + 1) * cols + c) ((r' + 1) * cols + c'))
  cal_diff_grids-adjacent j k h =
      let n = j * cols + k in
      let src = around cols r c in
      let dest = around cols r' c' in
      let s = member-around cols r c j k wide col h in
      let d = member-around cols r' c' j k wide col' h in
      rw cal_diff_grids_lem (
        contains-pad n (without src dest) ∙ member-without n src dest ∙ rw (s, d) refl,
        contains-pad n (without dest src) ∙ member-without n dest src ∙ rw (s, d) refl,
        contains-pad n (within dest src) ∙ member-within n dest src ∙ rw (s, d) refl,
      )
