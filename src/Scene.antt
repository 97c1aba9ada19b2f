-- ===== src/Scene.antt =====
-- The players of a scene and the cells that they stand in: the handlers of
-- project/Server/GameServer/Scene.cpp on the requests to enter, to move and to leave, with
-- `CPlayerObjectMgr` and `CUpdateObjectMgr` of
-- project/Server/GameServer/GameObject/PlayerObject.cpp and `SetUpdate` of WorldObject.cpp beside it.
-- `Scene.Update` has the update of the clients. The acknowledgement that `OnCmdCharEnterSceneReq` sends is
-- left out. An ASSERT or ASSERT_FAIELD that fails is a fault.
pub mod Holds
pub mod Cell
pub mod Change
pub mod Move
pub mod Enter
pub mod Leave
pub mod Run
pub mod Init
pub mod Update
mod Tests
use game_project.Base.{
  ℕ, ◌+◌, Bool, true, false, not, Option, none, some, List, [], ◌∷◌, Result, ok, fault, assert,
  assertion, ◌>>=◌, if◌then◌else◌, ◌==◌, ltb,
}
use game_project.Base.Int.{ℤ, pos, negsuc, eq_ℤ}
use game_project.Links.{set_next, set_prev}
use game_project.Cells.{
  Cells, is_object_exist, add_object, remove_object, get_grid_by_index, put_grid,
  add_object_to_grid, remove_object_from_grid, is_object_in_grid,
}
use game_project.Cells.Position.{Floats, Area, init, get_index_by_pos}

pub data UpdateStatus : Type 0 where
  ut_none ut_update ut_new ut_delete : UpdateStatus

-- The values of `UpdateStatusEnum`.
abbrev pub rank : UpdateStatus → ℕ
rank ut_none = 0
rank ut_update = 1
rank ut_new = 2
rank ut_delete = 3

pub record Position (f : Floats) : Type 0 where
  pub x : f.Float
  pub y : f.Float
  pub z : f.Float

-- The fields of `CPlayerObject` beside its two links.
pub record Player (f : Floats) : Type 0 where
  pub object_id : ℕ
  pub object_pos : Position f
  -- m_UpdateObjPos
  pub update_pos : Position f
  pub update_status : UpdateStatus
  pub has_owner_scene : Bool
  pub connect_id : ℕ
  pub dir : ℕ

pub record Scene (f : Floats) : Type 0 where
  pub area : Area
  pub cells : Cells
  pub objects : ℕ → Player f
  -- m_PlayerObjectMgr
  pub players : ℕ → Option ℕ
  -- m_UpdateObjectMgr, a set of addresses in their order
  pub updates : List ℕ

-- `AddUpdateObject`
pub add_update_object : ℕ → List ℕ → List ℕ
add_update_object a [] = a ∷ []
add_update_object a (x ∷ xs) =
    if ltb a x then a ∷ x ∷ xs else if a == x then x ∷ xs else x ∷ add_update_object a xs

-- `RemoveUpdateObject`
remove_update_object : ℕ → List ℕ → Bool × List ℕ
remove_update_object a [] = (false, [])
remove_update_object a (x ∷ xs) =
    let rest = remove_update_object a xs in if a == x then (true, xs) else (rest.0, x ∷ rest.1)

-- What the requests hold.
pub data Request (f : Floats) : Type 0 where
  -- the character, where it stands, and the connection of its proxy server; the last argument is
  -- what the memory of the new object held in m_UpdateStatus, which the constructor does not set
  enter : ℕ → Position f → ℕ → UpdateStatus → Request f
  move : ℕ → Position f → ℕ → Request f
  leave : ℕ → Request f

abbrev pub put_player : ℕ → Option ℕ → (ℕ → Option ℕ) → ℕ → Option ℕ
put_player id v g k = if k == id then v else g k

abbrev pub is_some : Option ℕ → Bool
is_some none = false
is_some (some a) = true

abbrev pub is_none_index : ℤ → Bool
is_none_index i = eq_ℤ i (negsuc 0)

-- The part of `OnCmdPlayerMove` where the cell is another one.
pub change_grid : ℕ → ℤ → ℤ → Cells → Result Cells
change_grid a cur dest c = is_object_in_grid a dest c >>= λ e. assert (not e) >>= λ _.
    remove_object_from_grid a cur c >>= λ (b, u). add_object_to_grid a dest u >>= λ (d, v). ok v

module _ {f : Floats} where
  abbrev pub put_object : ℕ → Player f → (ℕ → Player f) → ℕ → Player f
  put_object a o g b = if b == a then o else g b

  -- The index of a position.
  abbrev pub index_at : Area → Position f → ℤ
  index_at m p = get_index_by_pos f m p.x p.z

  -- The part of `SetUpdate` for an object that has a scene.
  abbrev pub note_update : UpdateStatus → ℕ → Scene f → Scene f
  note_update st a s =
      let o = s.objects a in
      let now = if ltb (rank o.update_status) (rank st) then st else o.update_status in
      record s {
        objects = put_object a (record o { update_status = now }) s.objects;
        updates = add_update_object a s.updates;
      }

  -- `SetUpdate`
  pub set_update : UpdateStatus → ℕ → Scene f → Result (Bool × Scene f)
  set_update st a s =
      if (s.objects a).has_owner_scene then ok (true, note_update st a s) else fault assertion

  -- `SetOwnerScene`
  abbrev pub set_owner_scene : ℕ → Scene f → Scene f
  set_owner_scene a s = record s {
    objects = put_object a (record (s.objects a) { has_owner_scene = true }) s.objects;
  }

  -- `AddToMap`
  pub add_to_map : ℕ → Scene f → Result (Bool × Scene f)
  unfolding set_update
  add_to_map a s =
      let i = index_at s.area (s.objects a).object_pos in
      if is_none_index i
      then fault assertion
      else (get_grid_by_index i s.cells >>= λ g. elim g [
        | none ↦ fault assertion
        | some (n, h) ↦ is_object_exist (s.cells.made + 1) a h s.cells.links >>= λ e.
            assert (not e) >>= λ _. add_object a h s.cells.links >>= λ r.
            let t = set_owner_scene a (record s { cells = put_grid n r s.cells }) in
            set_update ut_new a t >>= λ (b, u). ok (true, u)
      ])

  -- `AddToMapPos`
  add_to_map_pos : ℕ → f.Float → f.Float → Scene f → Result (Bool × Scene f)
  unfolding add_to_map
  add_to_map_pos a x z s =
      let o = s.objects a in
      let p = record o.object_pos { x = x; z = z } in
      add_to_map a (record s { objects = put_object a (record o { object_pos = p }) s.objects })

  -- `RemoveFromMap`
  pub remove_from_map : ℕ → Scene f → Result (Bool × Scene f)
  unfolding set_update
  remove_from_map a s =
      let i = index_at s.area (s.objects a).object_pos in
      if is_none_index i
      then fault assertion
      else (get_grid_by_index i s.cells >>= λ g. elim g [
        | none ↦ fault assertion
        | some (n, h) ↦ remove_object (s.cells.made + 1) a h s.cells.links >>= λ r.
            set_update ut_delete a (record s { cells = put_grid n r s.cells }) >>= λ (b, u).
            ok (true, u)
      ])

  -- Its last part.
  abbrev pub place : ℕ → Position f → ℕ → Scene f → Scene f
  place a p dir s = record s {
    objects = put_object a (record (s.objects a) { object_pos = p; dir = dir }) s.objects;
  }

  -- `OnCmdPlayerMove` for the player that it finds.
  pub move_player : ℕ → Position f → ℕ → Scene f → Result (Bool × Scene f)
  unfolding change_grid set_update
  move_player a p dir s =
      let dest = index_at s.area p in
      let cur = index_at s.area (s.objects a).object_pos in
      if is_none_index dest
      then fault assertion
      else (is_object_in_grid a cur s.cells >>= λ e. assert e >>= λ _.
          (if eq_ℤ dest cur then ok s.cells else change_grid a cur dest s.cells) >>= λ c.
          set_update ut_update a (place a p dir (record s { cells = c })) >>= λ (b, u).
          ok (true, u))

  -- `OnCmdPlayerMove`
  pub on_cmd_player_move : ℕ → Position f → ℕ → Scene f → Result (Bool × Scene f)
  unfolding move_player
  on_cmd_player_move id p dir s = elim (s.players id) [
    | none ↦ fault assertion
    | some a ↦ move_player a p dir s
  ]

  -- `OnCmdLeaveGameReq`, which takes the player by its own number out of m_PlayerObjectMgr.
  pub on_cmd_leave_game_req : ℕ → Scene f → Result (Bool × Scene f)
  unfolding remove_from_map
  on_cmd_leave_game_req id s = elim (s.players id) [
    | none ↦ fault assertion
    | some a ↦ remove_from_map a s >>= λ (b, u).
        assert (is_some (u.players (u.objects a).object_id)) >>= λ _.
        ok (true, record u { players = put_player (u.objects a).object_id none u.players })
  ]

  -- What the constructor of `CPosition` gives.
  abbrev origin : Position f
  origin = let zero = f.of_int (pos 0) in record { x = zero; y = zero; z = zero }

  -- `new CPlayerObject`, `LoadFromDBPacket` and `SetConnectID`.
  abbrev pub new_player : ℕ → Position f → ℕ → UpdateStatus → Scene f → Scene f
  new_player id p conn memory s =
      let a = s.cells.made in
      record s {
        cells = record s.cells {
          links = set_prev a none (set_next a none s.cells.links);
          made = a + 1;
        };
        objects =
            put_object a
              (record {
                object_id = id;
                object_pos = p;
                update_pos = origin;
                update_status = memory;
                has_owner_scene = false;
                connect_id = conn;
                dir = 0;
              })
              s.objects;
      }

  -- `OnCmdCharEnterSceneReq`
  pub on_cmd_char_enter_scene_req :
      ℕ → Position f → ℕ → UpdateStatus → Scene f → Result (Bool × Scene f)
  unfolding add_to_map
  on_cmd_char_enter_scene_req id p conn memory s =
      let a = s.cells.made in
      let t = new_player id p conn memory s in
      elim (s.players id) [
        | some b ↦ fault assertion
        | none ↦
            add_to_map a (record t { players = put_player id (some a) t.players }) >>= λ (b, u).
            ok (true, u)
      ]

  -- `DispatchPacket` for the three requests.
  pub dispatch_packet : Request f → Scene f → Result (Bool × Scene f)
  unfolding on_cmd_char_enter_scene_req on_cmd_player_move on_cmd_leave_game_req
  dispatch_packet (enter id p conn memory) s = on_cmd_char_enter_scene_req id p conn memory s
  dispatch_packet (move id p dir) s = on_cmd_player_move id p dir s
  dispatch_packet (leave id) s = on_cmd_leave_game_req id s

  -- One request after another.
  pub dispatch_all : List (Request f) → Scene f → Result (Scene f)
  unfolding dispatch_packet
  dispatch_all [] s = ok s
  dispatch_all (r ∷ rs) s = dispatch_packet r s >>= λ (b, u). dispatch_all rs u

  -- `Init`, where no object was made yet and no player is registered. What the memory of the objects
  -- to come holds is an argument.
  pub init_scene : ℤ → ℤ → ℤ → ℤ → (ℕ → Player f) → Result (Scene f)
  init_scene left right top bottom memory = init left right top bottom >>= λ (m, heads).
      ok (record {
        area = m;
        cells = record {
          heads = heads;
          links = record { next = λ a. none; prev = λ a. none };
          made = 0;
        };
        objects = memory;
        players = λ id. none;
        updates = [];
      })
