-- ===== src/Scene/Init.antt =====
-- A scene is safe from its start on.
use game_project.Base.{ℕ}
use game_project.Base.Int.{ℤ, pos, ◌+ℤ◌, ◌-ℤ◌}
use game_project.Links.{Links}
use game_project.Cells.Position.{Floats, FloatLaws, Area, cells_in}

module _ (f : Floats) (laws : FloatLaws f) (rows cols : ℕ) where
  -- The area of a scene with these borders.
  abbrev pub area_of : ℤ → ℤ → ℤ → ℤ → Area
  area_of left right top bottom = record {
    left = left;
    right = right;
    top = top;
    bottom = bottom;
    max_rows = cells_in (bottom -ℤ top) +ℤ pos 1;
    max_cols = cells_in (right -ℤ left) +ℤ pos 1;
  }
