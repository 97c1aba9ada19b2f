-- ===== src/Cells/Position.antt =====
-- The cell of a position: `Init` and `GetIndexByPos` of project/Server/GameServer/GridManager.cpp. A
-- FLOAT of the machine is no part of the program: its type and operations are an argument, `Floats`,
-- and `FloatLaws` says what the code relies on. The INT32 numbers of rows and cells are not cut off.
pub mod Bounds
use game_project.Base.{
  ℕ, suc, ◌+◌, true, some, ◌*◌, ◌/◌, Bool, false, not, ◌||◌, ◌≡◌, ◌≤◌, none, List, Result, ok,
  fault, out_of_range, ◌>>=◌, if◌then◌else◌, Option, replicate,
}
use game_project.Cells.{Cells, get_grid_by_index, add_object, remove_object, put_grid}
use game_project.Base.Int.{ℤ, pos, negsuc, pos_part, neg_part, sub_ℕ, ltb_ℤ, ◌+ℤ◌, ◌-ℤ◌, ◌*ℤ◌, ◌≤ℤ◌}

pub record Floats : Type 1 where
  pub Float : Type 0
  pub of_int : ℤ → Float
  pub less : Float → Float → Bool
  pub add : Float → Float → Float
  pub sub : Float → Float → Float
  pub div : Float → Float → Float
  pub to_int : Float → ℤ

-- CELL_SIZE
abbrev pub cell_size : ℤ
cell_size = pos 50

-- m_nLeft, m_nRight, m_nTop and m_nBottom, m_nMaxRows and m_nMaxCols.
pub record Area : Type 0 where
  pub left : ℤ
  pub right : ℤ
  pub top : ℤ
  pub bottom : ℤ
  pub max_rows : ℤ
  pub max_cols : ℤ

-- a / CELL_SIZE on integers is cut off towards zero.
abbrev pub cells_in : ℤ → ℤ
cells_in (pos n) = pos (n / 50)
cells_in (negsuc n) = sub_ℕ 0 (suc n / 50)

-- `assign(n, CGrid())`
abbrev pub empty_grids : ℤ → Result (List (Option ℕ))
empty_grids (pos n) = ok (replicate n none)
empty_grids (negsuc n) = fault out_of_range

-- `Init`, with m_pHead of each cell.
unfoldable pub init : ℤ → ℤ → ℤ → ℤ → Result (Area × List (Option ℕ))
init left right top bottom =
    let rows = cells_in (bottom -ℤ top) +ℤ pos 1 in
    let cols = cells_in (right -ℤ left) +ℤ pos 1 in
    empty_grids (rows *ℤ cols) >>= λ heads. ok (
      record {
        left = left;
        right = right;
        top = top;
        bottom = bottom;
        max_rows = rows;
        max_cols = cols;
      },
      heads,
    )

-- What `GetIndexByPos` makes of a row and a column.
abbrev pub index_of : Area → ℤ → ℤ → ℤ
index_of m row col =
    if not (ltb_ℤ row m.max_rows) || not (ltb_ℤ col m.max_cols)
    then negsuc 0
    else row *ℤ m.max_cols +ℤ col

module _ (f : Floats) where
  open f use {Float, of_int, less, add, sub, div, to_int}

  -- (x - start) / CELL_SIZE + 1, as an INT32.
  abbrev pub cell_number : Float → ℤ → ℤ
  cell_number x start =
      to_int (add (div (sub x (of_int start)) (of_int cell_size)) (of_int (pos 1)))

  -- The test on the borders in `GetIndexByPos`.
  abbrev pub is_outside : Area → Float → Float → Bool
  is_outside m x z =
      less z (of_int m.top)
      || less (of_int m.bottom) z
      || less x (of_int m.left)
      || less (of_int m.right) x

  -- `GetIndexByPos`
  unfoldable pub get_index_by_pos : Area → Float → Float → ℤ
  get_index_by_pos m x z =
      if is_outside m x z then negsuc 0 else index_of m (cell_number z m.top) (cell_number x m.left)

  -- `GetGridByPos`, and `AddObjectToGrid` and `RemoveObjectFromGrid` by a position.
  pub get_grid_by_pos : Area → Float → Float → Cells → Result (Option (ℕ × Option ℕ))
  get_grid_by_pos m x z c = get_grid_by_index (get_index_by_pos m x z) c

  pub add_object_to_grid_by_pos : ℕ → Area → Float → Float → Cells → Result (Bool × Cells)
  add_object_to_grid_by_pos a m x z c = get_grid_by_pos m x z c >>= λ g. elim g [
    | none ↦ ok (false, c)
    | some (n, h) ↦ add_object a h c.links >>= λ r. ok (true, put_grid n r c)
  ]

  pub remove_object_from_grid_by_pos : ℕ → Area → Float → Float → Cells → Result (Bool × Cells)
  remove_object_from_grid_by_pos a m x z c = get_grid_by_pos m x z c >>= λ g. elim g [
    | none ↦ ok (false, c)
    | some (n, h) ↦ remove_object (c.made + 1) a h c.links >>= λ r. ok (true, put_grid n r c)
  ]

-- A number that is neither below `low` nor above `high`.
pub record IsWithin (f : Floats) (IsNumber : f.Float → Type 0) (low high : ℤ) (x : f.Float)
    : Type 0 where
  pub number : IsNumber x
  pub not_below : f.less x (f.of_int low) ≡ false
  pub not_above : f.less (f.of_int high) x ≡ false

-- An integer that a FLOAT with 24 bits of precision has exactly.
abbrev pub IsExact : ℤ → Type 0
IsExact n = (pos_part n ≤ 16777216) × (neg_part n ≤ 16777216)

-- What the code relies on: between the results on two integers lies the result on a number that lies
-- between the two, since the operations are exact on small integers and monotone. The comparisons with
-- the value NaN, which is no number, are all false.
pub record FloatLaws (f : Floats) : Type 1 where
  pub IsNumber : f.Float → Type 0
  -- a number that is not above an integer is not above a larger one
  pub raise :
      (x : f.Float) (a b : ℤ)
      → IsNumber x
      → IsExact a
      → IsExact b
      → a ≤ℤ b
      → f.less (f.of_int a) x ≡ false
      → f.less (f.of_int b) x ≡ false
  pub sub_lem :
      (x : f.Float) (s : ℤ) (a b : ℕ)
      → IsExact s
      → IsExact (s +ℤ pos a)
      → IsExact (s +ℤ pos b)
      → IsExact (pos b)
      → IsWithin f IsNumber (s +ℤ pos a) (s +ℤ pos b) x
      → IsWithin f IsNumber (pos a) (pos b) (f.sub x (f.of_int s))
  pub div_lem :
      (x : f.Float) (d a b : ℕ)
      → 1 ≤ d
      → IsExact (pos (b * d))
      → IsWithin f IsNumber (pos (a * d)) (pos (b * d)) x
      → IsWithin f IsNumber (pos a) (pos b) (f.div x (f.of_int (pos d)))
  pub add_lem :
      (x : f.Float) (c a b : ℕ)
      → IsExact (pos (b + c))
      → IsWithin f IsNumber (pos a) (pos b) x
      → IsWithin f IsNumber (pos (a + c)) (pos (b + c)) (f.add x (f.of_int (pos c)))
  pub to_int_lem :
      (x : f.Float) (a b : ℕ)
      → IsExact (pos b)
      → IsWithin f IsNumber (pos a) (pos b) x
      → (n : ℕ) × (f.to_int x ≡ pos n) × (a ≤ n) × (n ≤ b)
