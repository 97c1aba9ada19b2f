-- ===== src/Grid/Tests.antt =====
-- The grid at concrete inputs: a grid of 41 columns, as the scenes make it.
use game_project.Base.{
  ◌≡◌, refl, not, ◌&&◌, ◌+◌, ◌*◌, ◌∷◌, Ensures, ok, arith, replicate, ◌==◌, if◌then◌else◌,
}
use game_project.Base.Int.{pos, ◌-ℤ◌, ◌+ℤ◌, ◌*ℤ◌}
use game_project.Grid.{cal_diff_grids, end, surrounding}
use game_project.Grid.Merge.{array}
use game_project.Grid.Around.{around, surrounding_lem}
use game_project.Grid.Adjacent.{near, member-around}
use game_project.Grid.Merge.{member}
use game_project.Grid.Change.{contains, adjacent, cal_diff_grids-adjacent}

-- One step to the right adds a column of three cells and drops one.
step_right :
    cal_diff_grids 41 169 170
    ≡ ok (record {
      inc = pos 130 ∷ pos 171 ∷ pos 212 ∷ replicate 7 end;
      dec = pos 127 ∷ pos 168 ∷ pos 209 ∷ replicate 7 end;
      stay = pos 128 ∷ pos 129 ∷ pos 169 ∷ pos 170 ∷ pos 210 ∷ pos 211 ∷ replicate 4 end;
    })
unfolding cal_diff_grids ◌-ℤ◌ ◌+ℤ◌ ◌*ℤ◌
step_right = refl

surrounding_lem_example :
    surrounding 41 169
    ≡ array (around 41 3 5) (replicate (if 5 == 0 then 3 else if 5 + 1 == 41 then 3 else 0) end)
surrounding_lem_example = surrounding_lem 41 3 5 (omega arith) (omega arith)

member-around_example : member (4 * 41 + 6) (around 41 3 5) ≡ (near (3 + 1) 4 && near 5 6)
member-around_example = member-around 41 3 5 4 6 (omega arith) (omega arith) (omega arith)

cal_diff_grids-adjacent_example :
    Ensures
      (λ d.
        (contains (9 * 41 + 10) d.inc ≡ (adjacent (7 + 1) 9 9 10 && not (adjacent (3 + 1) 5 9 10)))
        × (contains (9 * 41 + 10) d.dec
            ≡ (adjacent (3 + 1) 5 9 10 && not (adjacent (7 + 1) 9 9 10)))
        × (contains (9 * 41 + 10) d.stay ≡ (adjacent (3 + 1) 5 9 10 && adjacent (7 + 1) 9 9 10)))
      (cal_diff_grids 41 ((3 + 1) * 41 + 5) ((7 + 1) * 41 + 9))
cal_diff_grids-adjacent_example =
    cal_diff_grids-adjacent 41 3 5 7 9 (omega arith) (omega arith) (omega arith) 9 10 (omega arith)
