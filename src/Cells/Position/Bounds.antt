-- ===== src/Cells/Position/Bounds.antt =====
-- The index of a position is -1 or that of the cell that it lies in.
use native.Mathlib.Nat.{mul-le-mul_right}
use game_project.Base.{
  ℕ, Bool, ◌+◌, ◌*◌, ◌<◌, ◌≤◌, ◌≡◌, refl, sym, ap, ◌∙◌, ◌⊎◌, inl, inr, true, false, ◌||◌,
  Bool-cases, arith,
}
use game_project.Base.Int.{ℤ, pos, negsuc, pos_part, neg_part, ltb_ℤ, ◌+ℤ◌, ◌≤ℤ◌, pos-+ℤ, pos-*ℤ}
use game_project.Cells.Position.{
  Floats, Area, cell_number, is_outside, get_index_by_pos, FloatLaws, IsExact, IsWithin,
}

-- A border of a map: the whole of it is less than eight million wide.
abbrev pub IsSmall : ℤ → Type 0
IsSmall n = (pos_part n ≤ 4000000) × (neg_part n ≤ 4000000)

abbrev pub AreSmall : Area → Type 0
AreSmall m = IsSmall m.left × IsSmall m.right × IsSmall m.top × IsSmall m.bottom

-- `n` is the row or the column of a coordinate: one whose distance from the border is `q` cells or more is
-- in the cell `q + 1` or a later one, and one whose distance is `q` cells or less in that cell or an
-- earlier one.
pub record IsCell (f : Floats) (x : f.Float) (start : ℤ) (n : ℕ) : Type 0 where
  pub from : (q : ℕ) → q ≤ 160000 → f.less x (f.of_int (start +ℤ pos (q * 50))) ≡ false → q + 1 ≤ n
  pub upto : (q : ℕ) → q ≤ 160000 → f.less (f.of_int (start +ℤ pos (q * 50))) x ≡ false → n ≤ q + 1

-- The index is -1, or that of the cell of the position, whose row and column are not the first.
abbrev pub InGrid : (f : Floats) → Area → ℕ → ℕ → f.Float → f.Float → ℤ → Type 0
InGrid f m rows cols x z i =
    (i ≡ negsuc 0)
    ⊎ ((r c : ℕ) × (i ≡ pos (r * cols + c))
        × (1 ≤ r)
        × (r < rows)
        × (1 ≤ c)
        × (c < cols)
        × IsCell f z m.top r
        × IsCell f x m.left c)

four_false :
    (a b c d : Bool)
    → (a || b || c || d) ≡ false
    → (a ≡ false) × (b ≡ false) × (c ≡ false) × (d ≡ false)
four_false false false false false h = (refl, refl, refl, refl)
four_false true b c d h = absurd cc
four_false false true c d h = absurd cc
four_false false false true d h = absurd cc
four_false false false false true h = absurd cc

IsExact-behind : (s : ℤ) (n : ℕ) → IsSmall s → n ≤ 8000000 → IsExact (s +ℤ pos n)
unfolding ◌+ℤ◌
IsExact-behind s n h k = (ground arith, ground arith)

-- The other border is not further than the largest distance.
span : (s t : ℤ) → IsSmall s → IsSmall t → t ≤ℤ s +ℤ pos 8000000
unfolding ◌+ℤ◌
span s t h k = ground arith

plus_zero : (s : ℤ) → s +ℤ pos 0 ≡ s
unfolding ◌+ℤ◌
plus_zero (pos n) = ground arith
plus_zero (negsuc n) = ground arith

module _ (f : Floats) (laws : FloatLaws f) where
  -- A number between two distances from a border.
  cell_number-between :
      (x : f.Float) (start : ℤ) (j k : ℕ)
      → IsSmall start
      → j ≤ 160000
      → k ≤ 160000
      → IsWithin f laws.IsNumber (start +ℤ pos (j * 50)) (start +ℤ pos (k * 50)) x
      → (n : ℕ) × (cell_number f x start ≡ pos n) × (j + 1 ≤ n) × (n ≤ k + 1)
  cell_number-between x start j k small hj hk w =
      let exact : (n : ℕ) → n ≤ 160000 → IsExact (start +ℤ pos (n * 50)) =
        λ n h. IsExact-behind start (n * 50) small (omega arith) in
      let u =
        laws.sub_lem x start (j * 50) (k * 50) (omega arith, omega arith) (exact j hj) (exact k hk)
          (omega arith, omega arith) w in
      let v = laws.div_lem _ 50 j k (omega arith) (omega arith, omega arith) u in
      laws.to_int_lem _ (j + 1) (k + 1) (omega arith, omega arith)
        (laws.add_lem _ 1 j k (omega arith, omega arith) v)

  -- A number between the borders is in a cell.
  cell_number-IsCell :
      (x : f.Float) (start limit : ℤ)
      → IsSmall start
      → IsSmall limit
      → laws.IsNumber x
      → f.less x (f.of_int start) ≡ false
      → f.less (f.of_int limit) x ≡ false
      → (n : ℕ) × (cell_number f x start ≡ pos n) × (1 ≤ n) × IsCell f x start n
  cell_number-IsCell x start limit small near nx low high =
      let least : f.less x (f.of_int (start +ℤ pos (0 * 50))) ≡ false =
        ap (λ z. f.less x (f.of_int z)) (plus_zero start) ∙ low in
      let most : f.less (f.of_int (start +ℤ pos (160000 * 50))) x ≡ false =
        laws.raise x limit (start +ℤ pos 8000000) nx (omega arith, omega arith)
          (IsExact-behind start 8000000 small (omega arith)) (span start limit small near) high in
      let same : (a b : ℕ) → cell_number f x start ≡ pos a → cell_number f x start ≡ pos b → a ≡ b =
        λ a b g h. (let q : pos a ≡ pos b = sym g ∙ h in cc) in
      let (n, e, lo, hi) =
        cell_number-between x start 0 160000 small (omega arith) (omega arith)
          (record { number = nx; not_below = least; not_above = most }) in
      (
        n,
        e,
        omega (arith, lo),
        record {
          from = λ q h k.
              let (n', e', lo', hi') =
                cell_number-between x start q 160000 small h (omega arith)
                  (record { number = nx; not_below = k; not_above = most }) in
              omega (arith, lo', same n n' e e');
          upto = λ q h k.
              let (n', e', lo', hi') =
                cell_number-between x start 0 q small (omega arith) h
                  (record { number = nx; not_below = least; not_above = k }) in
              omega (arith, hi', same n n' e e');
        },
      )

  pub get_index_by_pos-InGrid :
      (m : Area) (rows cols : ℕ) (x z : f.Float)
      → m.max_rows ≡ pos rows
      → m.max_cols ≡ pos cols
      → AreSmall m
      → laws.IsNumber x
      → laws.IsNumber z
      → InGrid f m rows cols x z (get_index_by_pos f m x z)
  unfolding get_index_by_pos
  get_index_by_pos-InGrid m rows cols x z er ec small nx nz =
      elim (Bool-cases (is_outside f m x z)) [
        | inl out ↦ inl (rw out refl)
        | inr ins ↦
            (let b =
                four_false (f.less z (f.of_int m.top)) (f.less (f.of_int m.bottom) z)
                  (f.less x (f.of_int m.left)) (f.less (f.of_int m.right) x) ins in
              let (r, e, lo, row) =
                cell_number-IsCell z m.top m.bottom small.2 small.3 nz b.0 b.1 in
              let (c, g, lo', col) =
                cell_number-IsCell x m.left m.right small.0 small.1 nx b.2 b.3 in
              elim (Bool-cases (ltb_ℤ (pos r) (pos rows))) [
                | inr p ↦ inl (rw (ins, e, g, er, ec, p) refl)
                | inl p ↦ elim (Bool-cases (ltb_ℤ (pos c) (pos cols))) [
                  | inr q ↦ inl (rw (ins, e, g, er, ec, p, q) refl)
                  | inl q ↦ inr (
                    r,
                    c,
                    rw (ins, e, g, er, ec, p, q)
                        (ap (λ k. k +ℤ pos c) (pos-*ℤ r cols) ∙ pos-+ℤ (r * cols) c),
                    lo,
                    ground arith,
                    lo',
                    ground arith,
                    row,
                    col,
                  )
                ]
              ])
      ]

-- Such an index is below the number of the cells.
pub index-lt : (rows cols r c : ℕ) → r < rows → c < cols → r * cols + c < rows * cols
index-lt rows cols r c hr hc =
    let m : (r + 1) * cols ≤ rows * cols = mul-le-mul_right cols (omega arith) in omega arith
