-- ===== src/Scene/Holds.antt =====
-- The cells of a scene hold its players: each stands in the cell of its position, and in no other.
use mathlib.Core.Path.{subst, fun_ext}
use game_project.Base.{
  ℕ, ◌*◌, ◌<◌, true, ◌≡◌, refl, sym, ap, ◌∙◌, inl, inr, Bool-cases, some, List, length, ◌==◌, arith,
}
use game_project.Base.Int.{ℤ, pos, negsuc}
use game_project.Cells.Position.{Floats, Area}
use game_project.Cells.Stand.{AreCells}
use game_project.Scene.{UpdateStatus, Player, Scene, index_at, put_object, note_update}
use game_project.Scene.Cell.{InMap, AllBelow}

-- The cell of an index; -1 is the cell of none of them.
abbrev pub code : ℕ → ℤ → ℕ
code size (pos n) = n
code size (negsuc n) = size

module _ {f : Floats} (rows cols : ℕ) where
  abbrev pub cell_of : Area → (ℕ → Player f) → ℕ → ℕ
  cell_of m objects a = code (rows * cols) (index_at m (objects a).object_pos)

  pub record Holds (s : Scene f) (xss : List (List ℕ)) : Type 0 where
    pub cells : AreCells s.cells.links (cell_of s.area s.objects) 0 s.cells.heads xss
    pub below : AllBelow s.cells.made xss
    pub sized : length s.cells.heads ≡ rows * cols
    pub rows_lem : s.area.max_rows ≡ pos rows
    pub cols_lem : s.area.max_cols ≡ pos cols
    -- every object that was made has its scene
    pub owned : (a : ℕ) → a < s.cells.made → (s.objects a).has_owner_scene ≡ true
    -- every player that is registered stands in a cell, under its own number
    pub players : (id a : ℕ) → s.players id ≡ some a → InMap a xss × ((s.objects a).object_id ≡ id)

  -- Two scenes that differ in the updates and in what the map does not depend on.
  pub record SameMap (s t : Scene f) : Type 0 where
    pub area : t.area ≡ s.area
    pub cells : t.cells ≡ s.cells
    pub players : t.players ≡ s.players
    pub place : (a : ℕ) → (t.objects a).object_pos ≡ (s.objects a).object_pos
    pub number : (a : ℕ) → (t.objects a).object_id ≡ (s.objects a).object_id
    pub owner :
        (a : ℕ) → (s.objects a).has_owner_scene ≡ true → (t.objects a).has_owner_scene ≡ true

  cell_of-SameMap :
      (s t : Scene f) → SameMap s t → cell_of s.area s.objects ≡ cell_of t.area t.objects
  cell_of-SameMap s t e = fun_ext (λ a.
      ap (λ m. cell_of m s.objects a) (sym e.area)
      ∙ ap (λ p. code (rows * cols) (index_at t.area p)) (sym (e.place a)))

  pub Holds-SameMap :
      (s t : Scene f) (xss : List (List ℕ)) → SameMap s t → Holds s xss → Holds t xss
  Holds-SameMap s t xss e h = record {
    cells =
        subst (λ c. AreCells c.links (cell_of t.area t.objects) 0 c.heads xss) (sym e.cells)
          (subst (λ g. AreCells s.cells.links g 0 s.cells.heads xss) (cell_of-SameMap s t e)
            h.cells);
    below = subst (λ c. AllBelow c.made xss) (sym e.cells) h.below;
    sized = ap (λ c. length c.heads) e.cells ∙ h.sized;
    rows_lem = ap (λ m. m.max_rows) e.area ∙ h.rows_lem;
    cols_lem = ap (λ m. m.max_cols) e.area ∙ h.cols_lem;
    owned = λ a lt. e.owner a (h.owned a (subst (λ c. a < c.made) e.cells lt));
    players = λ id a q.
        let r = h.players id a (ap (λ g. g id) (sym e.players) ∙ q) in (r.0, e.number a ∙ r.1);
  }

module _ {f : Floats} where
  pub put_object-SameField :
      {A : Type 0} (F : Player f → A) (a x : ℕ) (o : Player f) (g : ℕ → Player f)
      → F o ≡ F (g a)
      → F (put_object a o g x) ≡ F (g x)
  put_object-SameField F a x o g e = elim (Bool-cases (x == a)) [
    | inl h ↦ let q : x ≡ a = ground arith in rw h (e ∙ ap (λ z. F (g z)) (sym q))
    | inr h ↦ rw h refl
  ]

  pub note_update-SameMap :
      (rows cols : ℕ) (st : UpdateStatus) (a : ℕ) (s : Scene f)
      → SameMap rows cols s (note_update st a s)
  note_update-SameMap rows cols st a s = record {
    area = refl;
    cells = refl;
    players = refl;
    place = λ x. put_object-SameField (λ o. o.object_pos) a x _ s.objects refl;
    number = λ x. put_object-SameField (λ o. o.object_id) a x _ s.objects refl;
    owner = λ x k. put_object-SameField (λ o. o.has_owner_scene) a x _ s.objects refl ∙ k;
  }

  pub note_update-Holds :
      (rows cols : ℕ) (st : UpdateStatus) (a : ℕ) (s : Scene f) (xss : List (List ℕ))
      → Holds rows cols s xss
      → Holds rows cols (note_update st a s) xss
  note_update-Holds rows cols st a s xss =
      Holds-SameMap rows cols s (note_update st a s) xss (note_update-SameMap rows cols st a s)
