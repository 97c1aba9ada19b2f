-- ===== src/Grid.antt =====
-- The index arithmetic of project/Server/GameServer/GridManager.cpp: the cells round a cell, and what
-- changes between the surroundings of two cells.
pub mod Merge
pub mod Around
pub mod Adjacent
pub mod Change
mod Tests
use game_project.Base.{
  ℕ, zero, suc, ◌+◌, ◌-◌, ◌*◌, ◌/◌, ◌%◌, Bool, true, false, ◌&&◌, List, [], ◌∷◌, ◌++◌, Result, ok,
  fault, out_of_range, ◌>>=◌, if◌then◌else◌, ◌==◌, length, replicate,
}
use game_project.Base.Int.{ℤ, pos, negsuc, ltb_ℤ, eq_ℤ, ◌+ℤ◌, ◌-ℤ◌, ◌*ℤ◌}

-- The mark -1 that ends an array of indices.
abbrev pub end : ℤ
end = negsuc 0

-- The three output arrays of `CalDiffGrids`, as far as they are filled.
pub record GridDiff : Type 0 where
  pub inc : List ℤ
  pub dec : List ℤ
  pub stay : List ℤ

-- What one round of the first loop does with the two indices that it looks at.
pub data Choice : Type 0 where
  finish take_inc take_dec take_both : Choice

pub choose : ℤ → ℤ → Choice
choose s d =
    if eq_ℤ s end && eq_ℤ d end
    then finish
    else if eq_ℤ s end
    then take_inc
    else if eq_ℤ d end
    then take_dec
    else if eq_ℤ s d
    then take_both
    else if ltb_ℤ s d
    then take_dec
    else take_inc

abbrev pub add_inc : ℤ → GridDiff → Result GridDiff
add_inc x d = ok (record d { inc = x ∷ d.inc })

abbrev pub add_dec : ℤ → GridDiff → Result GridDiff
add_dec x d = ok (record d { dec = x ∷ d.dec })

abbrev pub add_stay : ℤ → GridDiff → Result GridDiff
add_stay x d = ok (record d { stay = x ∷ d.stay })

-- The first loop of `CalDiffGrids`, at the rests of the two arrays.
pub merge_grids : List ℤ → List ℤ → Result GridDiff
unfolding choose
merge_grids [] ds = fault out_of_range
merge_grids (s ∷ ss) [] = fault out_of_range
merge_grids (s ∷ ss) (d ∷ ds) = elim (choose s d) [
  | finish ↦ ok (record { inc = []; dec = []; stay = [] })
  | take_inc ↦ merge_grids (s ∷ ss) ds >>= add_inc d
  | take_dec ↦ merge_grids ss (d ∷ ds) >>= add_dec s
  | take_both ↦ merge_grids ss ds >>= add_stay s
]

-- The second loop fills each array up to its ten places.
unfoldable pub pad : List ℤ → List ℤ
pad xs = xs ++ replicate (10 - length xs) end

-- `GetSurroundingGrids` for a cell of a grid with `cols` columns, as an array of ten.
pub surrounding : ℕ → ℕ → List ℤ
surrounding cols i =
    let row = pos (i / cols) in
    let col = pos (i % cols) in
    let above = (row -ℤ pos 1) *ℤ pos cols in
    let below = (row +ℤ pos 1) *ℤ pos cols in
    if i % cols == 0
    then above
      ∷ (above +ℤ pos 1)
      ∷ pos i
      ∷ pos (i + 1)
      ∷ below
      ∷ (below +ℤ pos 1)
      ∷ end
      ∷ end
      ∷ end
      ∷ end
      ∷ []
    else (let above_left = above +ℤ col -ℤ pos 1 in
        let left = pos i -ℤ pos 1 in
        let below_left = below +ℤ col -ℤ pos 1 in
        if (i + 1) % cols == 0
        then above_left
          ∷ (above_left +ℤ pos 1)
          ∷ left
          ∷ (left +ℤ pos 1)
          ∷ below_left
          ∷ (below_left +ℤ pos 1)
          ∷ end
          ∷ end
          ∷ end
          ∷ end
          ∷ []
        else above_left
          ∷ (above_left +ℤ pos 1)
          ∷ (above_left +ℤ pos 1 +ℤ pos 1)
          ∷ left
          ∷ (left +ℤ pos 1)
          ∷ (left +ℤ pos 1 +ℤ pos 1)
          ∷ below_left
          ∷ (below_left +ℤ pos 1)
          ∷ (below_left +ℤ pos 1 +ℤ pos 1)
          ∷ end
          ∷ [])

-- `CalDiffGrids`
pub cal_diff_grids : ℕ → ℕ → ℕ → Result GridDiff
unfolding merge_grids pad surrounding
cal_diff_grids cols src dest = merge_grids (surrounding cols src) (surrounding cols dest) >>= λ d.
    ok (record { inc = pad d.inc; dec = pad d.dec; stay = pad d.stay })
