-- ===== src/Scene/Move.antt =====
-- `OnCmdPlayerMove` takes a player to the cell of its new position.
use mathlib.Core.Path.{subst, fun_ext}
use game_project.Base.{
  ℕ, ◌*◌, ◌<◌, ◌≡◌, ◌≢◌, refl, sym, ap, ◌∙◌, inl, inr, Bool, true, some, List, [], ◌∷◌, ◌++◌, ok,
  ◌>>=◌, Ensures, Ensures-bind, if◌then◌else◌, ◌==◌, get_elem?, set, get_elem?-set_self,
  get_elem?-set_ne, Bool-cases, ℕ_discrete, arith,
}
use game_project.Base.Int.{ℤ, pos, negsuc}
use game_project.Links.Bound.{IsBelow}
use game_project.Links.Parts.{IsBelow-parts}
use game_project.Cells.{Cells, is_object_in_grid}
use game_project.Cells.Local.{mark}
use game_project.Cells.Stand.{AreCells, AreCells-get}
use game_project.Cells.Take.{AllAt-middle}
use game_project.Cells.Find.{is_object_in_grid-member}
use game_project.Cells.Position.{Floats}
use game_project.Scene.{
  Position, Scene, index_at, place, set_update, note_update, ut_update, change_grid, move_player,
}
use game_project.Scene.Cell.{
  member-middle, member-without, InMap, InMap-set, get_elem?-lt, AllBelow, AllBelow-get,
  AllBelow-set,
}
use game_project.Scene.Holds.{
  code, cell_of, Holds, put_object-SameField, note_update-SameMap, note_update-Holds,
}
use game_project.Scene.Change.{moved, Changed, change_grid-Changed}

pub code-pos : (size n : ℕ) (i : ℤ) → code size i ≡ n → n < size → i ≡ pos n
code-pos size n (pos k) e lt = ap pos e
code-pos size n (negsuc k) e lt = absurd (omega arith)

-- Each object is still in some cell after a move.
InMap-moved :
    (a b n m : ℕ) (xss : List (List ℕ)) (ys zs xs : List ℕ)
    → get_elem? xss n ≡ some (ys ++ (a ∷ zs))
    → get_elem? xss m ≡ some xs
    → n ≢ m
    → InMap b xss
    → InMap b (set (set xss n (ys ++ zs)) m (a ∷ xs))
InMap-moved a b n m xss ys zs xs g g' ne i =
    let get : get_elem? (set xss n (ys ++ zs)) m ≡ some xs =
      get_elem?-set_ne xss (ys ++ zs) ne ∙ g' in
    elim (ℕ_discrete b a) [
      | yes e ↦ record {
        cell = m;
        objects = a ∷ xs;
        at =
            get_elem?-set_self (set xss n (ys ++ zs)) m (a ∷ xs)
              (get_elem?-lt (set xss n (ys ++ zs)) m get);
        has = ground arith;
      }
      | no other ↦
          InMap-set b m (set xss n (ys ++ zs)) xs (a ∷ xs) get (λ q. ground arith)
            (InMap-set b n xss (ys ++ (a ∷ zs)) (ys ++ zs) g
              (λ q. sym (member-without a b ys zs other) ∙ q) i)
    ]

mark_same : (a m : ℕ) (cell : ℕ → ℕ) → cell a ≡ m → mark a m cell ≡ cell
mark_same a m cell e = fun_ext (λ x. elim (Bool-cases (x == a)) [
  | inl h ↦ let q : x ≡ a = ground arith in rw h (sym e ∙ ap cell (sym q))
  | inr h ↦ rw h refl
])

AllBelow-moved :
    (a n m k : ℕ) (xss : List (List ℕ)) (ys zs xs : List ℕ)
    → AllBelow k xss
    → get_elem? xss n ≡ some (ys ++ (a ∷ zs))
    → get_elem? xss m ≡ some xs
    → AllBelow k (moved a n m ys zs xs xss)
AllBelow-moved a n m k xss ys zs xs b g g' = elim (Bool-cases (m == n)) [
  | inl e ↦ rw e b
  | inr e ↦
      let p = IsBelow-parts k a ys zs (AllBelow-get k n xss (ys ++ (a ∷ zs)) b g) in
      rw e (
        AllBelow-set k m (set xss n (ys ++ zs)) (a ∷ xs) (p.1, AllBelow-get k m xss xs b g')
          (AllBelow-set k n xss (ys ++ zs) p.0 b))
]

keep-moved :
    (a b n m : ℕ) (xss : List (List ℕ)) (ys zs xs : List ℕ)
    → get_elem? xss n ≡ some (ys ++ (a ∷ zs))
    → get_elem? xss m ≡ some xs
    → InMap b xss
    → InMap b (moved a n m ys zs xs xss)
keep-moved a b n m xss ys zs xs g g' i = elim (Bool-cases (m == n)) [
  | inl e ↦ rw e i
  | inr e ↦ let ne : n ≢ m = ground arith in rw e (InMap-moved a b n m xss ys zs xs g g' ne i)
]

pub IsBelow-middle : (k a : ℕ) (ys zs : List ℕ) → IsBelow k (ys ++ (a ∷ zs)) → a < k
IsBelow-middle k a [] zs b = b.0
IsBelow-middle k a (y ∷ ys) zs b = IsBelow-middle k a ys zs b.1

module _ {f : Floats} (rows cols : ℕ) where
  cell_of-place :
      (a m dir : ℕ) (p : Position f) (s : Scene f)
      → index_at s.area p ≡ pos m
      → mark a m (cell_of rows cols s.area s.objects)
        ≡ cell_of rows cols s.area (place a p dir s).objects
  cell_of-place a m dir p s e =
      fun_ext (λ x. elim (Bool-cases (x == a)) [ inl h ↦ rw (h, e) refl | inr h ↦ rw h refl ])

  -- A player gets its new position once it is in the cell for it.
  place-Holds :
      (a m dir : ℕ) (p : Position f) (s : Scene f) (c : Cells) (xss xss' : List (List ℕ))
      → Holds rows cols s xss
      → index_at s.area p ≡ pos m
      → Changed (rows * cols) a m (cell_of rows cols s.area s.objects) s.cells xss' c
      → AllBelow c.made xss'
      → ((b : ℕ) → InMap b xss → InMap b xss')
      → Holds rows cols (place a p dir (record s { cells = c })) xss'
  place-Holds a m dir p s c xss xss' h e q below keep = record {
    cells = subst (λ g. AreCells c.links g 0 c.heads xss') (cell_of-place a m dir p s e) q.cells;
    below = below;
    sized = q.sized;
    rows_lem = h.rows_lem;
    cols_lem = h.cols_lem;
    owned = λ b lt.
        put_object-SameField (λ o. o.has_owner_scene) a b _ s.objects refl
        ∙ h.owned b (subst (λ k. b < k) q.made lt);
    players = λ id b t.
        let r = h.players id b t in
        (
          keep b r.0,
          elim (Bool-cases (b == a)) [
            | inl w ↦
                let same : b ≡ a = ground arith in
                rw w (ap (λ z. (s.objects z).object_id) (sym same) ∙ r.1)
            | inr w ↦ rw w r.1
          ],
        );
  }

  move_player-inside :
      (a n m dir : ℕ) (p : Position f) (s : Scene f)
      → index_at s.area p ≡ pos m
      → index_at s.area (s.objects a).object_pos ≡ pos n
      → is_object_in_grid a (pos n) s.cells ≡ ok true
      → (s.objects a).has_owner_scene ≡ true
      → move_player a p dir s ≡ (
          (if m == n then ok s.cells else change_grid a (pos n) (pos m) s.cells) >>= λ c.
          ok (true, note_update ut_update a (place a p dir (record s { cells = c }))))
  unfolding move_player set_update
  move_player-inside a n m dir p s e e' h owner =
      let top : (a == a) ≡ true = ground arith in rw (e, e') (rw h (rw (top, owner) refl))

  player-cell :
      (a n : ℕ) (s : Scene f) (xss : List (List ℕ)) (ys zs : List ℕ)
      → Holds rows cols s xss
      → get_elem? xss n ≡ some (ys ++ (a ∷ zs))
      → cell_of rows cols s.area s.objects a ≡ n
  player-cell a n s xss ys zs h g =
      let cell = cell_of rows cols s.area s.objects in
      let (x, e, d) =
        AreCells-get s.cells.links cell 0 n n s.cells.heads xss (ys ++ (a ∷ zs)) (omega arith)
          h.cells g in
      (AllAt-middle cell n a ys zs d.2).0

  -- The index of the position of a player that stands in a cell.
  pub player-index :
      (a n : ℕ) (s : Scene f) (xss : List (List ℕ)) (ys zs : List ℕ)
      → Holds rows cols s xss
      → get_elem? xss n ≡ some (ys ++ (a ∷ zs))
      → index_at s.area (s.objects a).object_pos ≡ pos n
  player-index a n s xss ys zs h g =
      let cell = cell_of rows cols s.area s.objects in
      let (x, e, d) =
        AreCells-get s.cells.links cell 0 n n s.cells.heads xss (ys ++ (a ∷ zs)) (omega arith)
          h.cells g in
      code-pos (rows * cols) n _ (player-cell a n s xss ys zs h g)
        (omega (arith, get_elem?-lt s.cells.heads n e, h.sized))

  -- The cells after the part of `OnCmdPlayerMove` where the cell may be another one.
  move_cells :
      (a n m : ℕ) (s : Scene f) (xss : List (List ℕ)) (ys zs xs : List ℕ)
      → Holds rows cols s xss
      → get_elem? xss n ≡ some (ys ++ (a ∷ zs))
      → get_elem? xss m ≡ some xs
      → Ensures
          (Changed
            (rows * cols)
            a
            m
            (cell_of rows cols s.area s.objects)
            s.cells
            (moved a n m ys zs xs xss))
          (if m == n then ok s.cells else change_grid a (pos n) (pos m) s.cells)
  move_cells a n m s xss ys zs xs h g g' = elim (Bool-cases (m == n)) [
    | inl e ↦ rw e (record {
      cells =
          subst (λ c. AreCells s.cells.links c 0 s.cells.heads xss)
            (sym (
              mark_same a m (cell_of rows cols s.area s.objects)
                (player-cell a n s xss ys zs h g ∙ ground arith)))
            h.cells;
      sized = h.sized;
      made = refl;
    })
    | inr e ↦ rw e (
        let ne : n ≢ m = ground arith in
        change_grid-Changed (rows * cols) (cell_of rows cols s.area s.objects) a n m s.cells xss ys
          zs xs h.cells h.below h.sized g g' ne)
  ]

  -- A player that stands in the cell `n`, between `ys` and `zs`, and moves to a position in the cell
  -- `m`, is then the first of that cell, and no longer in the one before, unless the two are the same.
  -- The handler returns TRUE, no ASSERT fails, no other player changes its cell, each stands in
  -- the cell of its position again, and the same players are registered.
  pub move_player-Holds :
      (a n m dir : ℕ) (p : Position f) (s : Scene f) (xss : List (List ℕ)) (ys zs xs : List ℕ)
      → Holds rows cols s xss
      → get_elem? xss n ≡ some (ys ++ (a ∷ zs))
      → index_at s.area p ≡ pos m
      → get_elem? xss m ≡ some xs
      → Ensures
          (λ (b, u).
            (b ≡ true)
            × Holds rows cols u (moved a n m ys zs xs xss)
            × (u.area ≡ s.area)
            × (u.players ≡ s.players))
          (move_player a p dir s)
  move_player-Holds a n m dir p s xss ys zs xs h g e g' =
      let Q = λ (r : Bool × Scene f).
        (r.0 ≡ true)
        × Holds rows cols r.1 (moved a n m ys zs xs xss)
        × (r.1.area ≡ s.area)
        × (r.1.players ≡ s.players) in
      let cell = cell_of rows cols s.area s.objects in
      let there =
        is_object_in_grid-member cell a n s.cells xss (ys ++ (a ∷ zs)) h.cells g
          (AllBelow-get s.cells.made n xss (ys ++ (a ∷ zs)) h.below g) in
      subst (Ensures Q)
        (sym (
          move_player-inside a n m dir p s e (player-index a n s xss ys zs h g)
            (there ∙ ap ok (member-middle a ys zs))
            (h.owned a (
              IsBelow-middle s.cells.made a ys zs
                (AllBelow-get s.cells.made n xss (ys ++ (a ∷ zs)) h.below g)))))
        (Ensures-bind _ Q _
          (λ c. ok (true, note_update ut_update a (place a p dir (record s { cells = c }))))
          (move_cells a n m s xss ys zs xs h g g')
          (λ c q. (
            refl,
            note_update-Holds rows cols ut_update a (place a p dir (record s { cells = c }))
                (moved a n m ys zs xs xss)
                (place-Holds a m dir p s c xss (moved a n m ys zs xs xss) h e q
                  (subst (λ k. AllBelow k (moved a n m ys zs xs xss)) (sym q.made)
                    (AllBelow-moved a n m s.cells.made xss ys zs xs h.below g g'))
                  (λ b i. keep-moved a b n m xss ys zs xs g g' i)),
            (note_update-SameMap rows cols ut_update a
                (place a p dir (record s { cells = c }))).area,
            (note_update-SameMap rows cols ut_update a
                (place a p dir (record s { cells = c }))).players,
          )))
