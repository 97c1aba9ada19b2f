-- ===== src/Scene/Leave.antt =====
-- `OnCmdLeaveGameReq` takes a player out of its cell.
use mathlib.Core.Path.{subst}
use game_project.Base.{
  ℕ, ◌+◌, ◌≡◌, ◌≢◌, refl, sym, ap, ◌∙◌, inl, inr, Bool, true, Option, none, some, List, ◌∷◌, ◌++◌,
  ◌<◌, Result, ok, assert, ◌>>=◌, bind_assoc, Ensures, Ensures-bind, ◌==◌, get_elem?, set,
  Bool-cases, arith,
}
use game_project.Base.Int.{pos}
use game_project.Links.{Links}
use game_project.Links.Parts.{IsBelow-parts}
use game_project.Cells.{Cells, remove_object, put_grid}
use game_project.Cells.Take.{Taken, remove_object-Taken}
use game_project.Cells.Find.{get_grid_by_index-pos}
use game_project.Cells.Position.{Floats}
use game_project.Scene.{
  Scene, index_at, put_player, is_some, set_update, note_update, ut_delete, remove_from_map,
  on_cmd_leave_game_req,
}
use game_project.Scene.Cell.{member-without, InMap-set, AllBelow, AllBelow-get, AllBelow-set}
use game_project.Scene.Holds.{cell_of, Holds, SameMap, Holds-SameMap, note_update-SameMap}
use game_project.Scene.Move.{IsBelow-middle, player-index}

module _ {f : Floats} (rows cols : ℕ) where
  remove_from_map-inside :
      (a n : ℕ) (h : Option ℕ) (s : Scene f)
      → index_at s.area (s.objects a).object_pos ≡ pos n
      → get_elem? s.cells.heads n ≡ some h
      → (s.objects a).has_owner_scene ≡ true
      → remove_from_map a s ≡ (
          remove_object (s.cells.made + 1) a h s.cells.links >>= λ r.
          ok (true, note_update ut_delete a (record s { cells = put_grid n r s.cells })))
  unfolding remove_from_map set_update
  remove_from_map-inside a n h s e g owner =
      rw e (rw (get_grid_by_index-pos n h s.cells g) (rw owner refl))

  -- The scene without the player, which is no longer registered.
  left-Holds :
      (a id n : ℕ) (s : Scene f) (xss : List (List ℕ)) (ys zs : List ℕ) (c : Cells)
      → Holds rows cols s xss
      → s.players id ≡ some a
      → get_elem? xss n ≡ some (ys ++ (a ∷ zs))
      → Taken (cell_of rows cols s.area s.objects) a n s.cells xss ys zs c
      → Holds rows cols
          (record s { cells = c; players = put_player id none s.players })
          (set xss n (ys ++ zs))
  left-Holds a id n s xss ys zs c h w g q =
      let below = AllBelow-get s.cells.made n xss (ys ++ (a ∷ zs)) h.below g in
      record {
        cells = q.cells;
        below =
            subst (λ k. AllBelow k (set xss n (ys ++ zs))) (sym q.made)
              (AllBelow-set s.cells.made n xss (ys ++ zs)
                (IsBelow-parts s.cells.made a ys zs below).0 h.below);
        sized = q.heads ∙ h.sized;
        rows_lem = h.rows_lem;
        cols_lem = h.cols_lem;
        owned = λ b lt. h.owned b (subst (λ k. b < k) q.made lt);
        players = λ k b v. elim (Bool-cases (k == id)) [
          | inl y ↦ let bad : none ≡ some b = rw y at v in cc
          | inr y ↦
              let r = h.players k b (rw y at v) in
              let ne : b ≢ a = λ e. absurd (
                let t : k ≡ id =
                  sym r.1 ∙ ap (λ z. (s.objects z).object_id) e ∙ (h.players id a w).1 in
                ground arith) in
              (
                InMap-set b n xss (ys ++ (a ∷ zs)) (ys ++ zs) g
                    (λ z. sym (member-without a b ys zs ne) ∙ z) r.0,
                r.1,
              )
        ];
      }

  -- What `OnCmdLeaveGameReq` makes of the result of `RemoveFromMap`.
  abbrev answered : ℕ → Bool × Scene f → Result (Bool × Scene f)
  answered a (b, u) = assert (is_some (u.players (u.objects a).object_id)) >>= λ _.
      ok (true, record u { players = put_player (u.objects a).object_id none u.players })

  answered-found :
      (a id : ℕ) (b : Bool) (u : Scene f)
      → (u.objects a).object_id ≡ id
      → u.players id ≡ some a
      → answered a (b, u)
        ≡ ok (true, record u { players = put_player (u.objects a).object_id none u.players })
  answered-found a id b u e w =
      let found : is_some (u.players (u.objects a).object_id) ≡ true =
        ap (λ k. is_some (u.players k)) e ∙ ap is_some w in
      ap
        (λ k. assert k >>= λ _.
          ok (true, record u { players = put_player (u.objects a).object_id none u.players }))
        found

  answered-SameMap :
      (a id : ℕ) (s : Scene f) (c : Cells)
      → (s.objects a).object_id ≡ id
      → let v = note_update ut_delete a (record s { cells = c }) in
        SameMap rows cols
          (record s { cells = c; players = put_player id none s.players })
          (record v { players = put_player (v.objects a).object_id none v.players })
  answered-SameMap a id s c e =
      let t = record s { cells = c } in
      let v = note_update ut_delete a t in
      let m = note_update-SameMap rows cols ut_delete a t in
      record {
        area = m.area;
        cells = m.cells;
        players =
            ap (λ k. put_player k none v.players) (m.number a ∙ e)
            ∙ ap (put_player id none) m.players;
        place = m.place;
        number = m.number;
        owner = m.owner;
      }

  found :
      (a id : ℕ) (s : Scene f)
      → s.players id ≡ some a
      → on_cmd_leave_game_req id s ≡ (remove_from_map a s >>= answered a)
  unfolding on_cmd_leave_game_req
  found a id s w = rw (w, on_cmd_leave_game_req) refl

  -- A player that leaves, and that stands in the cell `n` between `ys` and `zs`, is then in no cell and
  -- not registered. The handler returns TRUE, no ASSERT fails, the others stay where they are, and all
  -- other numbers are registered as before.
  pub on_cmd_leave_game_req-Holds :
      (a id n : ℕ) (s : Scene f) (xss : List (List ℕ)) (ys zs : List ℕ)
      → Holds rows cols s xss
      → s.players id ≡ some a
      → get_elem? xss n ≡ some (ys ++ (a ∷ zs))
      → Ensures
          (λ (b, u).
            (b ≡ true)
            × Holds rows cols u (set xss n (ys ++ zs))
            × (u.players ≡ put_player id none s.players)
            × (u.area ≡ s.area))
          (on_cmd_leave_game_req id s)
  on_cmd_leave_game_req-Holds a id n s xss ys zs h w g =
      let Q = λ (r : Bool × Scene f).
        (r.0 ≡ true)
        × Holds rows cols r.1 (set xss n (ys ++ zs))
        × (r.1.players ≡ put_player id none s.players)
        × (r.1.area ≡ s.area) in
      let answer = answered a in
      let e1 = found a id s w in
      let below = AllBelow-get s.cells.made n xss (ys ++ (a ∷ zs)) h.below g in
      let cell = cell_of rows cols s.area s.objects in
      let (k, e, t) = remove_object-Taken cell a n s.cells xss ys zs h.cells g below in
      let F : Option ℕ × Links → Result (Bool × Scene f) =
        λ r. ok (true, note_update ut_delete a (record s { cells = put_grid n r s.cells })) in
      let e2 =
        remove_from_map-inside a n k s (player-index rows cols a n s xss ys zs h g) e
          (h.owned a (IsBelow-middle s.cells.made a ys zs below)) in
      let m = remove_object (s.cells.made + 1) a k s.cells.links in
      subst (Ensures Q) (sym (e1 ∙ ap (λ z. z >>= answer) e2 ∙ bind_assoc m F answer)) (
        Ensures-bind (λ r. Taken cell a n s.cells xss ys zs (put_grid n r s.cells)) Q m
          (λ r. F r >>= answer) t
          (λ r q.
            let b = left-Holds a id n s xss ys zs (put_grid n r s.cells) h w g q in
            let same = answered-SameMap a id s (put_grid n r s.cells) (h.players id a w).1 in
            let v = note_update ut_delete a (record s { cells = put_grid n r s.cells }) in
            let kept =
              note_update-SameMap rows cols ut_delete a
                (record s { cells = put_grid n r s.cells }) in
            let number = kept.number a ∙ (h.players id a w).1 in
            subst (Ensures Q) (sym (answered-found a id true v number w)) (
              refl,
              Holds-SameMap rows cols _ _ (set xss n (ys ++ zs)) same b,
              same.players,
              same.area,
            )))
