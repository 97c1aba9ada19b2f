-- ===== src/Scene/Change.antt =====
-- An object is taken from one cell to another.
use mathlib.Core.Path.{subst}
use game_project.Base.{
  ℕ, ◌≡◌, ◌≢◌, refl, sym, ap, ◌∙◌, false, some, List, ◌∷◌, ◌++◌, ok, ◌>>=◌, Ensures, Ensures-bind,
  if◌then◌else◌, ◌==◌, length, get_elem?, set, get_elem?-set_ne, arith,
}
use game_project.Base.Int.{ℤ, pos}
use game_project.Cells.{Cells, is_object_in_grid, remove_object_from_grid, add_object_to_grid}
use game_project.Cells.Local.{AllAt-Absent, mark}
use game_project.Cells.Stand.{AreCells, AreCells-get}
use game_project.Cells.Add.{add_object_to_grid-Put}
use game_project.Cells.Take.{AllAt-middle, remove_object_from_grid-Taken}
use game_project.Cells.Find.{is_object_in_grid-member}
use game_project.Scene.{change_grid}
use game_project.Scene.Cell.{member-Absent, AllBelow, AllBelow-get}

-- The lists of the cells behind a move from cell `n`, which holds `ys`, the player and `zs`, to the
-- cell `m`, which holds `xs`.
abbrev pub moved : ℕ → ℕ → ℕ → List ℕ → List ℕ → List ℕ → List (List ℕ) → List (List ℕ)
moved a n m ys zs xs xss = if m == n then xss else set (set xss n (ys ++ zs)) m (a ∷ xs)

change_grid-absent :
    (a : ℕ) (cur dest : ℤ) (c : Cells)
    → is_object_in_grid a dest c ≡ ok false
    → change_grid a cur dest c ≡ (
        remove_object_from_grid a cur c >>= λ (b, u).
        add_object_to_grid a dest u >>= λ (d, v). ok v)
unfolding change_grid
change_grid-absent a cur dest c h = rw h refl

module _ (size : ℕ) where
  -- What `change_grid` leaves.
  pub record Changed (a m : ℕ) (cell : ℕ → ℕ) (c : Cells) (xss : List (List ℕ)) (u : Cells)
      : Type 0 where
    pub cells : AreCells u.links (mark a m cell) 0 u.heads xss
    pub sized : length u.heads ≡ size
    pub made : u.made ≡ c.made

  pub change_grid-Changed :
      (cell : ℕ → ℕ) (a n m : ℕ) (c : Cells) (xss : List (List ℕ)) (ys zs xs : List ℕ)
      → AreCells c.links cell 0 c.heads xss
      → AllBelow c.made xss
      → length c.heads ≡ size
      → get_elem? xss n ≡ some (ys ++ (a ∷ zs))
      → get_elem? xss m ≡ some xs
      → n ≢ m
      → Ensures
          (Changed a m cell c (set (set xss n (ys ++ zs)) m (a ∷ xs)))
          (change_grid a (pos n) (pos m) c)
  change_grid-Changed cell a n m c xss ys zs xs s b k g g' ne =
      let (h, e, d) =
        AreCells-get c.links cell 0 n n c.heads xss (ys ++ (a ∷ zs)) (omega arith) s g in
      let (h', e', d') = AreCells-get c.links cell 0 m m c.heads xss xs (omega arith) s g' in
      let here = (AllAt-middle cell n a ys zs d.2).0 in
      let gone = member-Absent a xs (AllAt-Absent cell m a xs d'.2 (λ q. ne (sym here ∙ q))) in
      let out =
        is_object_in_grid-member cell a m c xss xs s g' (AllBelow-get c.made m xss xs b g') in
      let get : get_elem? (set xss n (ys ++ zs)) m ≡ some xs =
        get_elem?-set_ne xss (ys ++ zs) ne ∙ g' in
      subst (Ensures (Changed a m cell c (set (set xss n (ys ++ zs)) m (a ∷ xs))))
        (sym (change_grid-absent a (pos n) (pos m) c (out ∙ ap ok gone)))
        (Ensures-bind _ _ (remove_object_from_grid a (pos n) c) _
          (remove_object_from_grid-Taken cell a n c xss ys zs s g
            (AllBelow-get c.made n xss (ys ++ (a ∷ zs)) b g))
          (λ (t, u) q.
            Ensures-bind _ _ (add_object_to_grid a (pos m) u) (λ (t', v). ok v)
              (add_object_to_grid-Put cell a m u (set xss n (ys ++ zs)) xs q.1.cells get q.1.free
                q.1.absent)
              (λ (t', v) r. record {
                cells = r.1.cells;
                sized = r.1.heads ∙ q.1.heads ∙ k;
                made = r.1.made ∙ q.1.made;
              })))
