-- ===== src/Scene/Enter.antt =====
-- `OnCmdCharEnterSceneReq` puts a new player into the cell of its position.
use mathlib.Core.Path.{subst, fun_ext}
use game_project.Base.{
  ℕ, ◌+◌, ◌*◌, ◌<◌, ◌≡◌, refl, sym, ap, ◌∙◌, inl, inr, Bool, true, false, ◌||◌, Option, none, some,
  List, [], ◌∷◌, Result, ok, ◌>>=◌, Ensures, ◌==◌, get_elem?, set, get_elem?-set_self, Bool-cases,
  arith,
}
use game_project.Base.Int.{pos}
use game_project.Links.{set_next, set_prev}
use game_project.Links.Chain.{put-here, put-there}
use game_project.Links.Bound.{IsBelow, IsBelow-Absent}
use game_project.Grid.Merge.{member}
use game_project.Cells.{Cells, is_object_exist, put_grid}
use game_project.Cells.Local.{IsLocal, mark}
use game_project.Cells.Stand.{AreCells, AreCells-outside, AbsentAll}
use game_project.Cells.Add.{IsFree, pushed, AbsentAll-get, add_object-pushed, Put, pushed-Put}
use game_project.Cells.Find.{is_object_exist-cell, get_grid_by_index-pos}
use game_project.Cells.Position.{Floats}
use game_project.Scene.{
  UpdateStatus, ut_new, Position, Scene, index_at, put_player, new_player, set_update, note_update,
  set_owner_scene, add_to_map, on_cmd_char_enter_scene_req,
}
use game_project.Scene.Cell.{
  member-Absent, InMap, InMap-set, get_elem?-lt, AllBelow, AllBelow-get, AllBelow-set,
  AllBelow-mono,
}
use game_project.Scene.Holds.{code, cell_of, Holds, note_update-SameMap, note_update-Holds}

AllBelow-Absent : (a : ℕ) (xss : List (List ℕ)) → AllBelow a xss → AbsentAll a xss
AllBelow-Absent a [] b = tt
AllBelow-Absent a (xs ∷ xss) b = (IsBelow-Absent a xs b.0, AllBelow-Absent a xss b.1)

below : (a k : ℕ) (xs : List ℕ) → IsBelow k xs → member a xs ≡ true → a < k
below a k [] b h = cc
below a k (x ∷ xs) b h = elim (Bool-cases (a == x)) [
  | inl e ↦ let q : a ≡ x = ground arith in omega (arith, b.0)
  | inr e ↦ below a k xs b.1 (ap (λ z. z || member a xs) (sym e) ∙ h)
]

-- An object of a cell is one that was made.
InMap-lt : (k a : ℕ) (xss : List (List ℕ)) → AllBelow k xss → InMap a xss → a < k
InMap-lt k a xss b i = below a k i.objects (AllBelow-get k i.cell xss i.objects b i.at) i.has

module _ {f : Floats} (rows cols : ℕ) where
  add_to_map-inside :
      (a m : ℕ) (h : Option ℕ) (s : Scene f)
      → index_at s.area (s.objects a).object_pos ≡ pos m
      → get_elem? s.cells.heads m ≡ some h
      → is_object_exist (s.cells.made + 1) a h s.cells.links ≡ ok false
      → IsFree a s.cells.links
      → add_to_map a s ≡ (
          let c = put_grid m (some a, pushed a h s.cells.links) s.cells in
          ok (true, note_update ut_new a (set_owner_scene a (record s { cells = c }))))
  unfolding add_to_map set_update
  add_to_map-inside a m h s e g x free =
      let top : (a == a) ≡ true = ground arith in
      rw e (
        rw (get_grid_by_index-pos m h s.cells g)
          (rw x (rw (add_object-pushed a h s.cells.links free) (rw top refl))))

  -- The scene with the new object, which is registered.
  abbrev registered : ℕ → Position f → ℕ → UpdateStatus → Scene f → Scene f
  registered id p conn memory s =
      let t = new_player id p conn memory s in
      record t { players = put_player id (some s.cells.made) t.players }

  abbrev entered : ℕ → Position f → ℕ → UpdateStatus → Scene f → Scene f
  entered id p conn memory s = set_owner_scene s.cells.made (registered id p conn memory s)

  fresh-IsLocal :
      (a : ℕ) (s : Scene f)
      → IsLocal s.cells.links (set_prev a none (set_next a none s.cells.links)) (a ∷ [])
  fresh-IsLocal a s x o =
      let ne = λ (e : a ≡ x). o.0 (sym e) in
      (put-there a x none s.cells.links.next ne, put-there a x none s.cells.links.prev ne)

  cell_of-entered :
      (id conn : ℕ) (p : Position f) (memory : UpdateStatus) (s : Scene f)
      → mark s.cells.made
          (code (rows * cols) (index_at s.area p))
          (cell_of rows cols s.area s.objects)
        ≡ cell_of rows cols s.area (entered id p conn memory s).objects
  cell_of-entered id conn p memory s =
      let top : (s.cells.made == s.cells.made) ≡ true = ground arith in
      fun_ext (λ x. elim (Bool-cases (x == s.cells.made)) [
        | inl h ↦ rw (h, top) refl
        | inr h ↦ rw h refl
      ])

  entered-before :
      (id conn b : ℕ) (p : Position f) (memory : UpdateStatus) (s : Scene f)
      → b < s.cells.made
      → (entered id p conn memory s).objects b ≡ s.objects b
  entered-before id conn b p memory s lt =
      let ne : (b == s.cells.made) ≡ false = ground arith in rw ne refl

  -- The scene behind `AddObject`.
  entered-Holds :
      (id conn m : ℕ) (p : Position f) (memory : UpdateStatus) (s : Scene f) (xss : List (List ℕ))
      (xs : List ℕ) (u : Cells)
      → Holds rows cols s xss
      → index_at s.area p ≡ pos m
      → get_elem? xss m ≡ some xs
      → Put
          (cell_of rows cols s.area s.objects)
          s.cells.made
          m
          (registered id p conn memory s).cells
          xss
          xs
          u
      → Holds rows cols
          (record (entered id p conn memory s) { cells = u })
          (set xss m (s.cells.made ∷ xs))
  entered-Holds id conn m p memory s xss xs u h e g q =
      let a = s.cells.made in
      let t = entered id p conn memory s in
      let mono = AllBelow-mono a (a + 1) xss (omega arith) h.below in
      record {
        cells =
            subst (λ c. AreCells u.links c 0 u.heads (set xss m (a ∷ xs)))
              (ap (λ i. mark a (code (rows * cols) i) (cell_of rows cols s.area s.objects)) (sym e)
                ∙ cell_of-entered id conn p memory s)
              q.cells;
        below =
            subst (λ k. AllBelow k (set xss m (a ∷ xs))) (sym q.made)
              (AllBelow-set (a + 1) m xss (a ∷ xs)
                (omega arith, AllBelow-get (a + 1) m xss xs mono g) mono);
        sized = q.heads ∙ h.sized;
        rows_lem = h.rows_lem;
        cols_lem = h.cols_lem;
        owned = λ b lt.
            let under : b < a + 1 = subst (λ z. b < z) q.made lt in
            elim (Bool-cases (b == a)) [
              | inl y ↦ rw y refl
              | inr y ↦
                  ap (λ o. o.has_owner_scene) (entered-before id conn b p memory s (ground arith))
                  ∙ h.owned b (ground arith)
            ];
        players = λ k b w. elim (Bool-cases (k == id)) [
          | inl y ↦
              (let v : some a ≡ some b = rw y at w in
                let same : a ≡ b = cc in
                let num : k ≡ id = ground arith in
                let top : (a == a) ≡ true = ground arith in
                (
                  subst (λ z. InMap z (set xss m (a ∷ xs))) same
                      (record {
                        cell = m;
                        objects = a ∷ xs;
                        at = get_elem?-set_self xss m (a ∷ xs) (get_elem?-lt xss m g);
                        has = rw top refl;
                      }),
                  subst (λ z. (t.objects z).object_id ≡ k) same (rw top (sym num)),
                ))
          | inr y ↦
              let r = h.players k b (rw y at w) in
              (
                InMap-set b m xss xs (a ∷ xs) g (λ z. ground arith) r.0,
                ap (λ o. o.object_id)
                      (entered-before id conn b p memory s (InMap-lt a b xss h.below r.0))
                    ∙ r.1,
              )
        ];
      }

  -- A character whose number is not registered, and that enters at a position in the cell `m`, is then
  -- the first of that cell and registered. The handler returns TRUE, no ASSERT fails, no other player
  -- changes its cell, and all other numbers are registered as before.
  pub on_cmd_char_enter_scene_req-Holds :
      (id conn m : ℕ) (p : Position f) (memory : UpdateStatus) (s : Scene f) (xss : List (List ℕ))
      (xs : List ℕ)
      → Holds rows cols s xss
      → s.players id ≡ none
      → index_at s.area p ≡ pos m
      → get_elem? xss m ≡ some xs
      → Ensures
          (λ (b, u).
            (b ≡ true)
            × Holds rows cols u (set xss m (s.cells.made ∷ xs))
            × (u.players ≡ put_player id (some s.cells.made) s.players)
            × (u.area ≡ s.area))
          (on_cmd_char_enter_scene_req id p conn memory s)
  unfolding on_cmd_char_enter_scene_req
  on_cmd_char_enter_scene_req-Holds id conn m p memory s xss xs h free e g =
      let a = s.cells.made in
      let t = registered id p conn memory s in
      let l = t.cells.links in
      let cell = cell_of rows cols s.area s.objects in
      let absent = AllBelow-Absent a xss h.below in
      let mono = AllBelow-mono a (a + 1) xss (omega arith) h.below in
      let cells : AreCells l cell 0 t.cells.heads xss =
        AreCells-outside s.cells.links l cell a 0 s.cells.heads xss (fresh-IsLocal a s) absent
          h.cells in
      let (k, q, put) = pushed-Put cell a m t.cells xss xs cells g absent in
      let exist =
        is_object_exist-cell cell a m k t.cells xss xs cells g q
          (AllBelow-get (a + 1) m xss xs mono g)
        ∙ ap ok (member-Absent a xs (AbsentAll-get a m xss xs absent g)) in
      let top : (a == a) ≡ true = ground arith in
      let at : index_at t.area (t.objects a).object_pos ≡ pos m = rw top e in
      let links : IsFree a l =
        (put-here a none s.cells.links.next, put-here a none s.cells.links.prev) in
      let end = record t { cells = put_grid m (some a, pushed a k l) t.cells } in
      let answer : Bool × Scene f → Result (Bool × Scene f) = λ r. ok (true, r.1) in
      let e1 : on_cmd_char_enter_scene_req id p conn memory s ≡ (add_to_map a t >>= answer) =
        rw (free, on_cmd_char_enter_scene_req) refl in
      let e2 = ap (λ z. z >>= answer) (add_to_map-inside a m k t at q exist links) in
      let same = note_update-SameMap rows cols ut_new a (set_owner_scene a end) in
      rw (e1 ∙ e2) (
        refl,
        note_update-Holds rows cols ut_new a (set_owner_scene a end) (set xss m (a ∷ xs)) (
            entered-Holds id conn m p memory s xss xs (put_grid m (some a, pushed a k l) t.cells) h
              e g put),
        same.players,
        same.area,
      )
