-- ===== src/ConnectionMgr/Init.antt =====
-- `InitConnectionList` numbers the connections and makes all of them free.
use mathlib.Core.Path.{subst}
use native.Mathlib.Nat.{mod-eq_of_lt}
use game_project.Base.{
  ℕ, zero, suc, ◌+◌, ◌-◌, is_none, ◌%◌, ◌^◌, ◌<◌, ◌≤◌, ◌≡◌, ◌≢◌, refl, sym, ap, ◌∙◌, inl, inr, true,
  Option, none, some, List, [], ◌∷◌, ◌++◌, map, map-append, fault, null_pointer, ◌>>=◌, ◌==◌, arith,
  length, get_elem?, set, replicate, Ensures, Ensures-bind, Ensures-weaken, Bool-cases, length-set,
  get_elem?-set_self, get_elem?-set_ne, length-replicate,
}
use game_project.Links.{put}
use game_project.Links.Chain.{Absent, IsDistinct, put-here, put-there}
use game_project.Links.Bound.{IsBelow, IsBelow-Absent, IsBelow-mono}
use game_project.ConnectionMgr.{
  Conn, ConnectionMgr, put_conn, new_conn, add_conn, add_conns, init_connection_list,
  get_connection_by_conn_id, close_all_connection, check_conntion_avalible, close_all, check_all,
}
use game_project.ConnectionMgr.FreeList.{IsList, HaveIds, Frees}

-- 1, 2, ..., n
abbrev pub up_to : ℕ → List ℕ
up_to zero = []
up_to (suc n) = up_to n ++ (suc n ∷ [])

-- A connection is put behind the last one.
IsList-snoc :
    (next : ℕ → Option ℕ) (head : Option ℕ) (xs : List ℕ) (p i : ℕ)
    → Absent p xs
    → Absent i (xs ++ (p ∷ []))
    → IsList next head (xs ++ (p ∷ []))
    → IsList (put i none (put p (some i) next)) head ((xs ++ (p ∷ [])) ++ (i ∷ []))
      × ((r : ℕ) × (head ≡ some r))
IsList-snoc next head [] p i op oi l = (
  (
    l.0,
    (
      put-there i p none (put p (some i) next) oi.0 ∙ put-here p (some i) next,
      put-here i none (put p (some i) next),
    ),
  ),
  (p, l.0),
)
IsList-snoc next head (x ∷ xs) p i op oi l =
    let n : put i none (put p (some i) next) x ≡ next x =
      put-there i x none (put p (some i) next) oi.0 ∙ put-there p x (some i) next op.0 in
    ((l.0, rw n (IsList-snoc next (next x) xs p i op.1 oi.1 l.1).0), (x, l.0))

IsBelow-snoc : (n x : ℕ) (xs : List ℕ) → IsBelow n xs → x < n → IsBelow n (xs ++ (x ∷ []))
IsBelow-snoc n x [] b h = (h, tt)
IsBelow-snoc n x (y ∷ xs) b h = (b.0, IsBelow-snoc n x xs b.1 h)

up_to-IsBelow : (k : ℕ) → IsBelow (k + 1) (up_to k)
up_to-IsBelow zero = tt
up_to-IsBelow (suc k) =
    IsBelow-snoc (suc k + 1) (suc k) (up_to k)
      (IsBelow-mono (k + 1) (suc k + 1) (up_to k) (omega arith) (up_to-IsBelow k)) (omega arith)

up_to-Absent : (k : ℕ) → Absent (suc k) (up_to k)
up_to-Absent k =
    let e : k + 1 ≡ suc k = omega arith in
    IsBelow-Absent (suc k) (up_to k) (subst (λ z. IsBelow z (up_to k)) e (up_to-IsBelow k))

Absent-snoc : (a x : ℕ) (xs : List ℕ) → Absent a xs → a ≢ x → Absent a (xs ++ (x ∷ []))
Absent-snoc a x [] o ne = (ne, tt)
Absent-snoc a x (y ∷ xs) o ne = (o.0, Absent-snoc a x xs o.1 ne)

IsDistinct-snoc : (x : ℕ) (xs : List ℕ) → IsDistinct xs → Absent x xs → IsDistinct (xs ++ (x ∷ []))
IsDistinct-snoc x [] d o = (tt, tt)
IsDistinct-snoc x (y ∷ xs) d o =
    (Absent-snoc y x xs d.0 (λ e. o.0 (sym e)), IsDistinct-snoc x xs d.1 o.1)

up_to-IsDistinct : (k : ℕ) → IsDistinct (up_to k)
up_to-IsDistinct zero = tt
up_to-IsDistinct (suc k) = IsDistinct-snoc (suc k) (up_to k) (up_to-IsDistinct k) (up_to-Absent k)

-- The manager after `k` of `n` connections are made.
pub record Made (n k : ℕ) (m : ConnectionMgr) : Type 0 where
  pub list : IsList m.next m.free_conn_root (up_to k)
  pub numbered :
      (j : ℕ)
      → 0 < j
      → j ≤ k
      → (get_elem? m.conn_list j ≡ some (some j)) × ((m.conns j).conn_id ≡ j)
  pub first : get_elem? m.conn_list 0 ≡ some none
  pub size : length m.conn_list ≡ n + 1

abbrev last_of : ℕ → Option ℕ
last_of zero = none
last_of (suc k) = some (suc k)

-- What one round does to the list of all connections and their numbers.
numbered_step :
    (n k : ℕ) (m : ConnectionMgr)
    → k < n
    → Made n k m
    → let l = set m.conn_list (suc k) (some (suc k)) in
      let f = put_conn (suc k) (record new_conn { conn_id = suc k }) m.conns in
      ((j : ℕ) → 0 < j → j ≤ suc k → (get_elem? l j ≡ some (some j)) × ((f j).conn_id ≡ j))
      × (get_elem? l 0 ≡ some none)
      × (length l ≡ n + 1)
numbered_step n k m lt s = (
  λ j p le. elim (Bool-cases (j == suc k)) [
    | inl e ↦
        let q : j ≡ suc k = ground arith in
        rw q (
          get_elem?-set_self m.conn_list (suc k) (some (suc k)) (omega (arith, s.size)),
          let h : (suc k == suc k) ≡ true = ground arith in rw h refl,
        )
    | inr e ↦
        let q : suc k ≢ j = ground arith in
        let (a, b) = s.numbered j p (ground arith) in
        (get_elem?-set_ne m.conn_list (some (suc k)) q ∙ a, rw e b)
  ],
  get_elem?-set_ne m.conn_list (some (suc k)) (λ e. absurd (omega arith)) ∙ s.first,
  length-set m.conn_list (suc k) (some (suc k)) ∙ s.size,
)

add_conn-Made :
    (n k : ℕ) (m : ConnectionMgr)
    → k < n
    → Made n k m
    → Ensures (Made n (suc k)) (add_conn (suc k) (last_of k) m)
add_conn-Made n zero m lt s =
    let (a, b, c) = numbered_step n zero m lt s in
    rw s.list (record { list = (refl, put-here 1 none m.next); numbered = a; first = b; size = c })
add_conn-Made n (suc k) m lt s =
    let (a, b, c) = numbered_step n (suc k) m lt s in
    let (l, (r, e)) =
      IsList-snoc m.next m.free_conn_root (up_to k) (suc k) (suc (suc k)) (up_to-Absent k)
        (up_to-Absent (suc k)) s.list in
    rw e (record { list = rw e at l; numbered = a; first = b; size = c })

add_conns-Made :
    (n j k i : ℕ) (m : ConnectionMgr)
    → k + j ≡ n
    → i ≡ suc k
    → Made n k m
    → Ensures (Made n n) (add_conns j i (last_of k) m)
unfolding add_conns
add_conns-Made n zero k i m e f s = let q : k ≡ n = omega arith in subst (λ z. Made n z m) q s
add_conns-Made n (suc j) k i m e f s =
    subst (λ z. Ensures (Made n n) (add_conn z (last_of k) m >>= add_conns j (z + 1) (some z)))
      (sym f)
      (Ensures-bind (Made n (suc k)) _ _ _ (add_conn-Made n k m (omega arith) s)
        (λ u t. add_conns-Made n j (suc k) (suc k + 1) u (omega arith) (omega arith) t))

HaveIds-snoc :
    (f : ℕ → Conn) (x : ℕ) (xs : List ℕ)
    → HaveIds f xs
    → (f x).conn_id ≢ 0
    → HaveIds f (xs ++ (x ∷ []))
HaveIds-snoc f x [] h n = (n, tt)
HaveIds-snoc f x (y ∷ xs) h n = (h.0, HaveIds-snoc f x xs h.1 n)

up_to-HaveIds :
    (f : ℕ → Conn) (k : ℕ) → ((j : ℕ) → 0 < j → j ≤ k → (f j).conn_id ≡ j) → HaveIds f (up_to k)
up_to-HaveIds f zero h = tt
up_to-HaveIds f (suc k) h =
    HaveIds-snoc f (suc k) (up_to k) (up_to-HaveIds f k (λ j p le. h j p (omega arith)))
      (λ e. absurd (omega (arith, h (suc k) (omega arith) (omega arith))))

first_null :
    (tick : ℕ) (l : List (Option ℕ)) (m : ConnectionMgr)
    → get_elem? l 0 ≡ some none
    → (close_all l m ≡ fault null_pointer) × (check_all tick l m ≡ fault null_pointer)
unfolding close_all check_all
first_null tick [] m e = cc
first_null tick (none ∷ l) m e = (refl, refl)
first_null tick (some a ∷ l) m e = cc

by_conn_id :
    (m : ConnectionMgr) (j : ℕ)
    → get_elem? m.conn_list j ≡ some (some j)
    → get_connection_by_conn_id m j ≡ some j
unfolding get_connection_by_conn_id
by_conn_id m j e = rw (e, get_connection_by_conn_id) refl

by_conn_ids :
    (m : ConnectionMgr) (k : ℕ)
    → ((j : ℕ) → 0 < j → j ≤ k → get_connection_by_conn_id m j ≡ some j)
    → map (get_connection_by_conn_id m) (up_to k) ≡ map some (up_to k)
by_conn_ids m zero h = refl
by_conn_ids m (suc k) h =
    map-append (get_connection_by_conn_id m) (up_to k) (suc k ∷ [])
    ∙ rw (by_conn_ids m k (λ j p le. h j p (omega arith)), h (suc k) (omega arith) (omega arith))
        (sym (map-append some (up_to k) (suc k ∷ [])))

own_ids :
    (f : ℕ → Conn) (k : ℕ)
    → ((j : ℕ) → 0 < j → j ≤ k → (f j).conn_id ≡ j)
    → map (λ j. (f j).conn_id) (up_to k) ≡ up_to k
own_ids f zero h = refl
own_ids f (suc k) h =
    map-append (λ j. (f j).conn_id) (up_to k) (suc k ∷ [])
    ∙ rw (own_ids f k (λ j p le. h j p (omega arith)), h (suc k) (omega arith) (omega arith)) refl

-- The manager after `InitConnectionList(n)`.
pub record Inits (n : ℕ) (m : ConnectionMgr) : Type 0 where
  pub frees : Frees m (up_to n)
  -- each has its number
  pub ids : map (λ j. (m.conns j).conn_id) (up_to n) ≡ up_to n
  pub by_id : map (get_connection_by_conn_id m) (up_to n) ≡ map some (up_to n)
  pub close_faults : close_all_connection m ≡ fault null_pointer
  pub check_faults : (tick : ℕ) → check_conntion_avalible tick m ≡ fault null_pointer

Made-Inits : (n : ℕ) (m : ConnectionMgr) → Made n n m → Inits n m
unfolding close_all_connection check_conntion_avalible
Made-Inits n m s = record {
  frees = record {
    list = s.list;
    distinct = up_to-IsDistinct n;
    ids = up_to-HaveIds m.conns n (λ j p le. (s.numbered j p le).1);
  };
  ids = own_ids m.conns n (λ j p le. (s.numbered j p le).1);
  by_id = by_conn_ids m n (λ j p le. by_conn_id m j (s.numbered j p le).0);
  close_faults = (first_null 0 m.conn_list m s.first).0;
  check_faults = λ tick. (first_null tick m.conn_list m s.first).1;
}

-- `InitConnectionList(n)` on a manager without free connections returns. The connections 1 to n are
-- then free, to be given in this order; each has its number, and `GetConnectionByConnID` finds it
-- under it. The number n + 1 of places fits into an UINT32. Since
-- place 0 of the list stays NULL, `CloseAllConnection` and `CheckConntionAvalible` then fault.
pub init_connection_list-Inits :
    (n : ℕ) (m : ConnectionMgr)
    → m.free_conn_root ≡ none
    → n + 1 < 2 ^ 32
    → Ensures (Inits n) (init_connection_list n m)
unfolding init_connection_list
init_connection_list-Inits n m e fits =
    let small : (n + 1) % 2 ^ 32 ≡ n + 1 = mod-eq_of_lt fits in
    let all_free : is_none m.free_conn_root ≡ true = ap is_none e in
    let rounds : n + 1 - 1 ≡ n = omega arith in
    let m' = record m { conn_list = replicate (n + 1) none } in
    rw (all_free, small, rounds)
      (Ensures-weaken (Made n n) (Inits n) _
        (add_conns-Made n n 0 1 m' (omega arith) refl (record {
          list = e;
          numbered = λ j p le. absurd (omega arith);
          first = let q : n + 1 ≡ suc n = omega arith in ap (λ z. get_elem? (replicate z none) 0) q;
          size = length-replicate (n + 1) none;
        }))
        (Made-Inits n))
