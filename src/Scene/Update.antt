-- ===== src/Scene/Update.antt =====
-- The update of the clients of a scene: `HandleUpdateObject` and the functions that send, of
-- project/Server/GameServer/Scene.cpp. A call of `SendCmdToConnection` is recorded with the connection and
-- the character that it gets; what the call does with m_WriteBuffer, which the scene never
-- fills, is not part of the record. An ASSERT or ASSERT_FAIELD that fails is a fault. A packet of one
-- object, whose name has at most 31 bytes, always fits in the 2048 bytes of a sender's `CBufferHelper`; of
-- those that hold several, the place in the buffer is kept and tested.
pub mod Visit
pub mod Round
pub mod LastRow
pub mod Stay
mod Tests
use game_project.Base.{
  ℕ, zero, suc, ◌+◌, ◌/◌, ◌%◌, ◌^◌, Bool, true, false, not, ◌&&◌, Option, none, some, List, [], ◌∷◌,
  ◌++◌, Result, ok, fault, out_of_range, no_progress, assertion, assert, ◌>>=◌, if◌then◌else◌, ◌==◌,
  leb,
}
use game_project.Base.Int.{ℤ, pos, eq_ℤ}
use game_project.Links.{Links}
use game_project.Grid.{GridDiff, surrounding, cal_diff_grids}
use game_project.Cells.{Cells, get_grid_by_index}
use game_project.Cells.Position.{Floats}
use game_project.Scene.{
  UpdateStatus, ut_none, ut_update, ut_new, ut_delete, Scene, index_at, is_none_index, put_object,
}

-- `GetObjectType() == OBJECT_PLAYER`
pub is_player : ℕ → Bool
is_player id = id / 2 ^ 56 % 256 == 1

-- A call of `SendCmdToConnection`: the connection, and the character where it is an argument.
pub record Sent : Type 0 where
  pub connect_id : ℕ
  pub char_id : Option ℕ

-- The calls of an update, the object whose memory it gives back, and the scene behind it.
pub record Updated (f : Floats) : Type 0 where
  pub calls : List Sent
  pub deleted : Option ℕ
  pub scene : Scene f

-- The loop along m_pGridNext that the senders share, with the body `step`.
pub visit_objects : {A : Type 0} (step : ℕ → A → Result A) → ℕ → Option ℕ → Links → A → Result A
visit_objects step zero p l x = fault no_progress
visit_objects step (suc fuel) none l x = ok x
visit_objects step (suc fuel) (some a) l x =
    step a x >>= λ y. visit_objects step fuel (l.next a) l y

-- The loop over the array of indices around it.
pub visit_grids : {A : Type 0} (step : ℕ → A → Result A) → List ℤ → Cells → A → Result A
unfolding visit_objects
visit_grids step [] c x = fault out_of_range
visit_grids step (i ∷ is) c x =
    if is_none_index i
    then ok x
    else (get_grid_by_index i c >>= λ g. elim g [
      | none ↦ fault assertion
      | some (n, h) ↦ visit_objects step (c.made + 1) h c.links x >>= λ y. visit_grids step is c y
    ])

-- `GetSurroundingGrids` of an index that is not negative.
pub surrounding_grids : ℤ → ℤ → Result (List ℤ)
surrounding_grids (pos cols) (pos i) = ok (surrounding cols i)
surrounding_grids _ _ = fault out_of_range

-- `CalDiffGrids` of indices that are not negative.
pub diff_grids : ℤ → ℤ → ℤ → Result GridDiff
diff_grids (pos cols) (pos i) (pos j) = cal_diff_grids cols i j
diff_grids _ _ _ = fault out_of_range

-- GetBufferSize() of the buffer that AllocDataBuff(1024) gives.
abbrev write_size : ℕ
write_size = 2048

-- The place behind the header and the count of the objects.
abbrev start_place : ℕ
start_place = 32

-- `Write` of `n` bytes at a place of the buffer.
abbrev write_at : ℕ → ℕ → Result ℕ
write_at n cur = assert (leb (cur + n + 100) write_size) >>= λ _. ok (cur + n)

-- What a sender adds for one object: its type, number, position, name, status and feature.
abbrev write_object : ℕ → ℕ → Result ℕ
write_object name_len cur = write_at 1 cur >>= λ c. write_at 8 c >>= λ c. write_at 12 c >>= λ c.
    write_at 2 c >>= λ c. write_at (name_len + 1) c >>= λ c. write_at 4 c >>= λ c. write_at 4 c

module _ {f : Floats} where
  abbrev pub id_of : Scene f → ℕ → ℕ
  id_of s a = (s.objects a).object_id

  -- `SendCmdToConnection` for the player `b`
  pub send : Scene f → ℕ → Sent
  send s b = record { connect_id = (s.objects b).connect_id; char_id = some (id_of s b) }

  -- The body of the loops of `SendNewObjectToGrids` and `SendUpdateObjectToGrids`.
  abbrev pub send_to_player : Scene f → ℕ → ℕ → List Sent → List Sent
  send_to_player s id b xs =
      if not (id_of s b == id) && is_player (id_of s b) then xs ++ (send s b ∷ []) else xs

  -- `SendNewObjectToGrids`
  pub send_new_object_to_grids : ℕ → List ℤ → Scene f → Result (List Sent)
  unfolding visit_grids
  send_new_object_to_grids a grids s =
      visit_grids (λ b xs. ok (send_to_player s (id_of s a) b xs)) grids s.cells []

  -- What is sent at the end where the count of objects is not 0.
  abbrev send_count : Scene f → ℕ → ℕ → List Sent
  send_count s a count = if count == 0 then [] else send s a ∷ []

  -- `SendNewGridsToObject`, with the place in the buffer and the count. The first argument is the length
  -- of the name of an object.
  pub send_new_grids_to_object : (ℕ → ℕ) → List ℤ → ℕ → Scene f → Result (List Sent)
  unfolding visit_grids
  send_new_grids_to_object name_len grids a s =
      visit_grids
        (λ b (cur, count).
          if id_of s b == id_of s a
          then ok (cur, count)
          else (write_object (name_len b) cur >>= λ c. ok (c, count + 1)))
        grids s.cells (start_place, 0)
      >>= λ (cur, count). write_at 4 cur >>= λ _. ok (send_count s a count)

  -- `SendUpdateObjectToGrids`
  pub send_update_object_to_grids : ℕ → List ℤ → Scene f → Result (List Sent)
  unfolding visit_grids
  send_update_object_to_grids a grids s =
      visit_grids (λ b xs. ok (send_to_player s (id_of s a) b xs)) grids s.cells []

  -- `SendRemoveObjectToGrids`
  pub send_remove_object_to_grids : ℕ → List ℤ → Scene f → Result (List Sent)
  unfolding visit_grids
  send_remove_object_to_grids id grids s =
      visit_grids (λ b xs. assert (not (id_of s b == id)) >>= λ _. ok (xs ++ (send s b ∷ []))) grids
        s.cells []

  -- `SendRemoveGridsToPlayer`
  pub send_remove_grids_to_player : List ℤ → ℕ → Scene f → Result (List Sent)
  unfolding visit_grids
  send_remove_grids_to_player grids a s =
      visit_grids
        (λ b (cur, count).
          write_at 8 cur >>= λ c. assert (not (id_of s b == id_of s a)) >>= λ _. ok (c, count + 1))
        grids s.cells (start_place, 0)
      >>= λ (cur, count). write_at 4 cur >>= λ _. ok (send_count s a count)

  -- `SendUpdateObjectToMyself`
  abbrev pub send_update_object_to_myself : ℕ → Scene f → List Sent
  send_update_object_to_myself a s =
      record { connect_id = (s.objects a).connect_id; char_id = none } ∷ []

  -- m_UpdateObjPos is set to m_ObjectPos, and m_UpdateStatus to `st`.
  abbrev pub settle : UpdateStatus → ℕ → Scene f → Scene f
  settle st a s =
      let o = s.objects a in
      record s {
        objects =
            put_object a (record o { update_pos = o.object_pos; update_status = st }) s.objects;
      }

  -- The branch of UT_New in `HandleUpdateObject`, at the index of the object.
  pub handle_new : (ℕ → ℕ) → ℕ → ℤ → Scene f → Result (Updated f)
  unfolding surrounding_grids send_new_object_to_grids send_new_grids_to_object
  handle_new name_len a i s = surrounding_grids s.area.max_cols i >>= λ grids.
      send_new_object_to_grids a grids s >>= λ xs.
      (if is_player (id_of s a) then send_new_grids_to_object name_len grids a s else ok [])
      >>= λ ys. ok (record { calls = xs ++ ys; deleted = none; scene = settle ut_none a s })

  -- The branch of UT_Delete.
  pub handle_delete : ℕ → ℤ → Scene f → Result (Updated f)
  unfolding surrounding_grids send_remove_object_to_grids
  handle_delete a i s = surrounding_grids s.area.max_cols i >>= λ grids.
      send_remove_object_to_grids (id_of s a) grids s >>= λ xs.
      ok
        (record { calls = xs; deleted = if is_player (id_of s a) then some a else none; scene = s })

  -- The branch of UT_Update where the object is still in the cell that the clients know.
  pub handle_stay : ℕ → ℤ → Scene f → Result (Updated f)
  unfolding surrounding_grids send_update_object_to_grids
  handle_stay a i s = surrounding_grids s.area.max_cols i >>= λ grids.
      send_update_object_to_grids a grids s >>= λ xs. ok (record {
        calls = send_update_object_to_myself a s ++ xs;
        deleted = none;
        scene = settle (s.objects a).update_status a s;
      })

  -- The branch of UT_Update where it is in another one.
  pub handle_change : (ℕ → ℕ) → ℕ → ℤ → ℤ → Scene f → Result (Updated f)
  unfolding diff_grids send_update_object_to_grids send_new_object_to_grids send_new_grids_to_object
      send_remove_object_to_grids send_remove_grids_to_player
  handle_change name_len a src i s = diff_grids s.area.max_cols src i >>= λ d.
      send_update_object_to_grids a d.stay s >>= λ xs. send_new_object_to_grids a d.inc s >>= λ ys.
      send_new_grids_to_object name_len d.inc a s >>= λ zs.
      send_remove_object_to_grids (id_of s a) d.dec s >>= λ us.
      send_remove_grids_to_player d.dec a s >>= λ vs. ok (record {
        calls = send_update_object_to_myself a s ++ (xs ++ (ys ++ (zs ++ (us ++ vs))));
        deleted = none;
        scene = settle ut_none a s;
      })

  -- The branches of `HandleUpdateObject`, at the index of m_ObjectPos and that of m_UpdateObjPos.
  pub handle_status : (ℕ → ℕ) → UpdateStatus → ℕ → ℤ → ℤ → Scene f → Result (Updated f)
  unfolding handle_new handle_delete handle_stay handle_change
  handle_status name_len ut_none a i src s = fault assertion
  handle_status name_len ut_new a i src s = handle_new name_len a i s
  handle_status name_len ut_delete a i src s = handle_delete a i s
  handle_status name_len ut_update a i src s =
      if eq_ℤ i src then handle_stay a i s else handle_change name_len a src i s

  -- `HandleUpdateObject`
  pub handle_update_object : (ℕ → ℕ) → ℕ → Scene f → Result (Updated f)
  unfolding handle_status
  handle_update_object name_len a s =
      let o = s.objects a in
      let i = index_at s.area o.object_pos in
      let src = index_at s.area o.update_pos in
      if is_none_index i then fault assertion else handle_status name_len o.update_status a i src s
