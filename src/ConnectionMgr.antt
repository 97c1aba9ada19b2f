-- ===== src/ConnectionMgr.antt =====
-- `CConnectionMgr` of project/Server/ServerEngine/Connection.cpp: the connections, made once, and the
-- list of those that are free. A connection is named by its address, which is its number here, since
-- the i-th call of `new` makes connection i. Its lock is held through each operation.
pub mod FreeList
pub mod Init
mod Tests
use game_project.Base.{
  ℕ, zero, suc, ◌+◌, ◌-◌, ◌%◌, ◌^◌, Bool, true, false, ◌&&◌, not, Option, none, some, List, [], ◌∷◌,
  ◌++◌, is_none, assert, Result, ok, fault, null_pointer, ◌>>=◌, if◌then◌else◌, ltb, ◌==◌,
  get_elem?, replicate, set,
}
use game_project.Links.{put}
use game_project.Connection.{Connection}

-- The fields of a `CConnection` that these operations read or write, and those that `Clear` resets.
-- A socket is `none` where it is INVALID_SOCKET; the buffers to send are named by their addresses.
pub record Conn : Type 0 where
  pub conn_id : ℕ
  pub socket : Option ℕ
  pub connected : Bool
  pub input : Connection
  pub send_buff_list : List ℕ
  pub last_recv_tick : ℕ

pub record ConnectionMgr : Type 0 where
  pub conns : ℕ → Conn
  pub next : ℕ → Option ℕ
  pub free_conn_root : Option ℕ
  pub conn_list : List (Option ℕ)
  -- the buffers that were released, in their order
  pub released : List ℕ

abbrev pub put_conn : ℕ → Conn → (ℕ → Conn) → ℕ → Conn
put_conn a c f b = if b == a then c else f b

-- The constructor of `CConnection`.
abbrev pub new_conn : Conn
new_conn = record {
  conn_id = 0;
  socket = none;
  connected = false;
  input = record { data_buf = []; current = none };
  send_buff_list = [];
  last_recv_tick = 0;
}

-- `Clear` leaves m_dwConnID. The buffers that it releases are noted by `delete_connection`.
abbrev pub clear : Conn → Conn
clear c = record c {
  socket = none;
  connected = false;
  input = record { data_buf = []; current = none };
  send_buff_list = [];
}

-- `CreateConnection`
pub create_connection : ConnectionMgr → Option ℕ × ConnectionMgr
create_connection m = elim m.free_conn_root [
  | none ↦ (none, m)
  | some a ↦
      let m' = record m { free_conn_root = m.next a } in
      if (m.conns a).conn_id == 0 then (none, m') else (some a, m')
]

-- `DeleteConnection`
pub delete_connection : Option ℕ → ConnectionMgr → ConnectionMgr
delete_connection none m = m
delete_connection (some a) m = record m {
  next = put a m.free_conn_root m.next;
  free_conn_root = some a;
  conns = put_conn a (clear (m.conns a)) m.conns;
  released = m.released ++ (m.conns a).send_buff_list;
}

-- `GetConnectionByConnID`
pub get_connection_by_conn_id : ConnectionMgr → ℕ → Option ℕ
get_connection_by_conn_id m id = elim (get_elem? m.conn_list id) [ none ↦ none | some o ↦ o ]

-- `Close`, less the calls of the handler and of the socket.
abbrev pub close : Conn → Conn
close c = record c { socket = none; connected = false; input = record c.input { data_buf = [] } }

-- The loop of `CloseAllConnection`.
pub close_all : List (Option ℕ) → ConnectionMgr → Result ConnectionMgr
close_all [] m = ok m
close_all (none ∷ rest) m = fault null_pointer
close_all (some a ∷ rest) m =
    close_all rest (record m { conns = put_conn a (close (m.conns a)) m.conns })

-- `CloseAllConnection`
pub close_all_connection : ConnectionMgr → Result ConnectionMgr
unfolding close_all
close_all_connection m = close_all m.conn_list m

-- `IsConnectionOK`
abbrev pub is_connection_ok : Conn → Bool
is_connection_ok c = elim c.socket [ none ↦ false | some s ↦ if s == 0 then false else c.connected ]

-- The loop of `CheckConntionAvalible`: a connection that was silent for 3000 ticks is closed.
pub check_all : ℕ → List (Option ℕ) → ConnectionMgr → Result ConnectionMgr
check_all tick [] m = ok m
check_all tick (none ∷ rest) m = fault null_pointer
check_all tick (some a ∷ rest) m =
    let c = m.conns a in
    let silent = is_connection_ok c && ltb ((c.last_recv_tick + 3000) % 2 ^ 32) tick in
    check_all tick rest (if silent then record m { conns = put_conn a (close c) m.conns } else m)

-- `CheckConntionAvalible`, with the result of `GetTickCount`.
pub check_conntion_avalible : ℕ → ConnectionMgr → Result ConnectionMgr
unfolding check_all
check_conntion_avalible tick m = check_all tick m.conn_list m

-- One round of `InitConnectionList`, where `last` is pTemp.
abbrev pub add_conn : ℕ → Option ℕ → ConnectionMgr → Result (ConnectionMgr)
add_conn i last m =
    let made = record m {
      conn_list = set m.conn_list i (some i);
      conns = put_conn i (record new_conn { conn_id = i }) m.conns;
    } in
    elim m.free_conn_root [
      | none ↦ ok (record made { free_conn_root = some i; next = put i none m.next })
      | some r ↦ elim last [
        | none ↦ fault null_pointer
        | some p ↦ ok (record made { next = put i none (put p (some i) m.next) })
      ]
    ]

-- Its loop, for the `n` connections from number `i` on.
pub add_conns : ℕ → ℕ → Option ℕ → ConnectionMgr → Result ConnectionMgr
add_conns zero i last m = ok m
add_conns (suc n) i last m = add_conn i last m >>= add_conns n (i + 1) (some i)

-- `InitConnectionList`
pub init_connection_list : ℕ → ConnectionMgr → Result ConnectionMgr
unfolding add_conns
init_connection_list n m =
    let size = (n + 1) % 2 ^ 32 in
    assert (is_none m.free_conn_root) >>= λ _.
    add_conns (size - 1) 1 none (record m { conn_list = replicate size none })
