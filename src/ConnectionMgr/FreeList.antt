-- ===== src/ConnectionMgr/FreeList.antt =====
-- The list of the free connections holds each free connection once.
use game_project.Base.{
  ℕ, ◌≡◌, ◌≢◌, refl, sym, ◌∙◌, inl, inr, true, false, Option, none, some, List, [], ◌∷◌, ◌==◌,
  arith, Bool-cases,
}
use game_project.Links.{put}
use game_project.Links.Chain.{Absent, IsDistinct, put-here, put-there}
use game_project.ConnectionMgr.{
  Conn, ConnectionMgr, put_conn, new_conn, clear, create_connection, delete_connection,
}

-- From `head` on the links go through the list.
abbrev pub IsList : (ℕ → Option ℕ) → Option ℕ → List ℕ → Type 0
IsList next head [] = head ≡ none
IsList next head (x ∷ xs) = (head ≡ some x) × IsList next (next x) xs

-- Every connection of the list has its number.
abbrev pub HaveIds : (ℕ → Conn) → List ℕ → Type 0
HaveIds f [] = Unit {0}
HaveIds f (x ∷ xs) = ((f x).conn_id ≢ 0) × HaveIds f xs

pub record Frees (m : ConnectionMgr) (xs : List ℕ) : Type 0 where
  pub list : IsList m.next m.free_conn_root xs
  pub distinct : IsDistinct xs
  pub ids : HaveIds m.conns xs

pub IsList-put :
    (next : ℕ → Option ℕ) (a : ℕ) (v head : Option ℕ) (xs : List ℕ)
    → Absent a xs
    → IsList next head xs
    → IsList (put a v next) head xs
IsList-put next a v head [] o l = l
IsList-put next a v head (x ∷ xs) o l =
    (l.0, rw (put-there a x v next o.0) (IsList-put next a v (next x) xs o.1 l.1))

put_conn-id :
    (a b : ℕ) (c : Conn) (f : ℕ → Conn)
    → c.conn_id ≡ (f a).conn_id
    → (put_conn a c f b).conn_id ≡ (f b).conn_id
put_conn-id a b c f e = elim (Bool-cases (b == a)) [
  | inl p ↦ let q : b ≡ a = ground arith in rw (p, q) e
  | inr p ↦ rw p refl
]

HaveIds-put :
    (a : ℕ) (c : Conn) (f : ℕ → Conn) (xs : List ℕ)
    → c.conn_id ≡ (f a).conn_id
    → HaveIds f xs
    → HaveIds (put_conn a c f) xs
HaveIds-put a c f [] e h = tt
HaveIds-put a c f (x ∷ xs) e h =
    (λ q. h.0 (sym (put_conn-id a x c f e) ∙ q), HaveIds-put a c f xs e h.1)

-- `CreateConnection` gives the first free connection, and the others stay free.
pub create_connection-Frees :
    (m : ConnectionMgr) (x : ℕ) (xs : List ℕ)
    → Frees m (x ∷ xs)
    → ((create_connection m).0 ≡ some x) × Frees (create_connection m).1 xs
unfolding create_connection
create_connection-Frees m x xs f =
    let id : ((m.conns x).conn_id == 0) ≡ false = ground (arith, f.ids.0) in
    rw f.list.0 (rw id (refl, record { list = f.list.1; distinct = f.distinct.1; ids = f.ids.1 }))

-- A connection that is deleted is the next to be given, with its number and without a socket, a part
-- of a packet or anything to send.
pub delete_connection-Frees :
    (m : ConnectionMgr) (a : ℕ) (xs : List ℕ)
    → Frees m xs
    → Absent a xs
    → (m.conns a).conn_id ≢ 0
    → let m' = delete_connection (some a) m in
      Frees m' (a ∷ xs)
      × (m'.conns a ≡ record new_conn {
        conn_id = (m.conns a).conn_id;
        last_recv_tick = (m.conns a).last_recv_tick;
      })
unfolding delete_connection
delete_connection-Frees m a xs f o id = (
  record {
    list = (
      refl,
      rw (put-here a m.free_conn_root m.next)
          (IsList-put m.next a m.free_conn_root m.free_conn_root xs o f.list),
    );
    distinct = (o, f.distinct);
    ids = (
      λ q. id (sym (put_conn-id a a (clear (m.conns a)) m.conns refl) ∙ q),
      HaveIds-put a (clear (m.conns a)) m.conns xs refl f.ids,
    );
  },
  let s : (a == a) ≡ true = ground arith in rw s refl,
)
