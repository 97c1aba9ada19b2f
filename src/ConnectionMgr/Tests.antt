-- ===== src/ConnectionMgr/Tests.antt =====
-- The connections at concrete inputs.
use game_project.Base.{◌≡◌, refl, none, some, [], ◌∷◌, arith, Ensures, if◌then◌else◌, ◌==◌}
use game_project.ConnectionMgr.{
  ConnectionMgr, new_conn, create_connection, delete_connection, init_connection_list,
}
use game_project.ConnectionMgr.FreeList.{Frees, create_connection-Frees, delete_connection-Frees}
use game_project.ConnectionMgr.Init.{Inits, init_connection_list-Inits}

abbrev fresh : ConnectionMgr
fresh = record {
  conns = λ _. new_conn;
  next = λ _. none;
  free_conn_root = none;
  conn_list = [];
  released = [];
}

-- Connections 2 and 1 are free, and 3 is in use.
abbrev in_use : ConnectionMgr
in_use = record {
  conns = λ b. record new_conn { conn_id = b; socket = some 9 };
  next = λ b. if b == 2 then some 1 else none;
  free_conn_root = some 2;
  conn_list = none ∷ some 1 ∷ some 2 ∷ some 3 ∷ [];
  released = [];
}

in_use-Frees : Frees in_use (2 ∷ 1 ∷ [])
in_use-Frees = record { list = (refl, (refl, refl)); distinct = ground arith; ids = ground arith }

create_connection-Frees_example :
    ((create_connection in_use).0 ≡ some 2) × Frees (create_connection in_use).1 (1 ∷ [])
create_connection-Frees_example = create_connection-Frees in_use 2 (1 ∷ []) in_use-Frees

delete_connection-Frees_example :
    let m' = delete_connection (some 3) in_use in
    Frees m' (3 ∷ 2 ∷ 1 ∷ []) × (m'.conns 3 ≡ record new_conn { conn_id = 3; last_recv_tick = 0 })
delete_connection-Frees_example =
    delete_connection-Frees in_use 3 (2 ∷ 1 ∷ []) in_use-Frees (ground arith) (omega arith)

init_connection_list-Inits_example : Ensures (Inits 100) (init_connection_list 100 fresh)
init_connection_list-Inits_example = init_connection_list-Inits 100 fresh refl (omega arith)
