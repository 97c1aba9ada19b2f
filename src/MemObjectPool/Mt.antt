-- ===== src/MemObjectPool/Mt.antt =====
-- `MemObjectMTPool` of project/Common/Utility/MemObjectPool.h: the pool with a mutex, which each
-- operation holds from start to end. A lock of a mutex that is held, with no one to release it, is a
-- call that never ends.
use game_project.Base.{
  ℕ, zero, suc, ◌+◌, ◌*◌, Bool, true, false, Option, Bool-cases, inl, inr, none, some, ◌≡◌, refl,
  ap, ◌∙◌, Result, ok, fault, no_progress, ◌>>=◌, if◌then◌else◌,
}
use game_project.Links.{Links, set_next, set_prev, set_prev_if, push_front}
use game_project.MemObjectPool.{
  MemObjectPool, node_count, free_mem_object, take_object, ensure_free, create_mem_object, zeroed,
  add_node, add_nodes, alloc_node_buffer,
}

pub record MemObjectMtPool : Type 0 where
  pub pool : MemObjectPool
  pub locked : Bool

-- `m_pool_mutex.lock()` and `unlock()`
pub lock : MemObjectMtPool → Result MemObjectMtPool
lock p = if p.locked then fault no_progress else ok (record p { locked = true })

pub unlock : MemObjectMtPool → MemObjectMtPool
unlock p = record p { locked = false }

-- One round of the loop of `MemObjectMTPool::AllocNodeBuffer`.
abbrev pub add_node_mt : ℕ → MemObjectPool → MemObjectPool
add_node_mt a p = elim p.free_head [
  | none ↦ record p { free_head = some a }
  | some h ↦ record p { links = push_front a (some h) p.links; free_head = some a }
]

pub add_nodes_mt : ℕ → ℕ → MemObjectPool → MemObjectPool
add_nodes_mt zero a p = p
add_nodes_mt (suc n) a p = add_nodes_mt n (a + 1) (add_node_mt a p)

-- `MemObjectMTPool::AllocNodeBuffer`, which takes no lock of its own.
pub alloc_node_buffer_mt : (ℕ → Bool) → ℕ → MemObjectPool → MemObjectPool
unfolding add_nodes_mt
alloc_node_buffer_mt malloc n p =
    if malloc p.buffers
    then (let a = p.buffers * node_count in
        add_nodes_mt n a (record p { links = zeroed n a p.links; buffers = p.buffers + 1 }))
    else p

-- `MemObjectMTPool::FreeMemObject`
pub free_mem_object_mt : Option ℕ → MemObjectMtPool → Result MemObjectMtPool
unfolding lock unlock
free_mem_object_mt none p = ok p
free_mem_object_mt (some a) p = lock p >>= λ q.
    let r = q.pool in
    let first = set_next a r.free_head r.links in
    let linked = set_prev_if r.free_head (some a) first in
    ok
      (unlock (record q { pool = record r { links = set_prev a none linked; free_head = some a } }))

-- `MemObjectMTPool::CreateMemObject` under the lock, once the list of free objects is stocked; both
-- ways out unlock.
abbrev pub take_object_mt : MemObjectMtPool → Option ℕ × MemObjectMtPool
take_object_mt q =
    let r = q.pool in
    elim r.free_head [
      | none ↦ (none, record q { locked = false })
      | some a ↦
          let head = r.links.next a in
          let l = set_prev a none (set_next a none (set_prev_if head none r.links)) in
          (some a, record { pool = record r { links = l; free_head = head }; locked = false })
    ]

-- `if(m_pFreeHead == NULL) { AllocNodeBuffer(); }` in `MemObjectMTPool::CreateMemObject`.
pub ensure_free_mt : (ℕ → Bool) → ℕ → MemObjectPool → MemObjectPool
unfolding alloc_node_buffer_mt
ensure_free_mt malloc n p = elim p.free_head [ none ↦ alloc_node_buffer_mt malloc n p | some a ↦ p ]

-- `MemObjectMTPool::CreateMemObject`
pub create_mem_object_mt : (ℕ → Bool) → MemObjectMtPool → Result (Option ℕ × MemObjectMtPool)
unfolding lock unlock ensure_free_mt
create_mem_object_mt malloc p = lock p >>= λ q.
    ok (take_object_mt (record q { pool = ensure_free_mt malloc node_count q.pool }))

-- An operation's result and pool, with the mutex free.
abbrev pub with_unlocked : Option ℕ × MemObjectPool → Result (Option ℕ × MemObjectMtPool)
with_unlocked r = ok (r.0, record { pool = r.1; locked = false })

add_nodes_mt_lem : (n a : ℕ) (p : MemObjectPool) → add_nodes_mt n a p ≡ add_nodes n a p
unfolding add_nodes_mt add_nodes
add_nodes_mt_lem zero a p = refl
add_nodes_mt_lem (suc n) a p = add_nodes_mt_lem n (a + 1) (add_node a p)

alloc_node_buffer_mt_lem :
    (malloc : ℕ → Bool) (n : ℕ) (p : MemObjectPool)
    → alloc_node_buffer_mt malloc n p ≡ alloc_node_buffer malloc n p
unfolding alloc_node_buffer_mt alloc_node_buffer
alloc_node_buffer_mt_lem malloc n p = elim (Bool-cases (malloc p.buffers)) [
  | inl e ↦ rw e (add_nodes_mt_lem n (p.buffers * node_count) _)
  | inr e ↦ rw e refl
]

taken :
    (l : Links) (head : Option ℕ) (n : ℕ)
    → let p : MemObjectPool = record { links = l; free_head = head; buffers = n } in
      ok (take_object_mt (record { pool = p; locked = true })) ≡ with_unlocked (take_object p)
unfolding take_object
taken l none n = refl
taken l (some a) n = refl

stocked_lem :
    (malloc : ℕ → Bool) (size : ℕ) (l : Links) (head : Option ℕ) (n : ℕ)
    → let p : MemObjectPool = record { links = l; free_head = head; buffers = n } in
      ensure_free_mt malloc size p ≡ ensure_free malloc size p
unfolding ensure_free ensure_free_mt
stocked_lem malloc size l none n =
    alloc_node_buffer_mt_lem malloc size (record { links = l; free_head = none; buffers = n })
stocked_lem malloc size l (some a) n = refl

create_mem_object_mt-unlocked :
    (malloc : ℕ → Bool) (p : MemObjectPool)
    → create_mem_object_mt malloc (record { pool = p; locked = false })
      ≡ with_unlocked (create_mem_object malloc p)
unfolding create_mem_object_mt create_mem_object lock
create_mem_object_mt-unlocked malloc p =
    let q = ensure_free malloc node_count p in
    ap (λ z. ok (take_object_mt (record { pool = z; locked = true })))
      (stocked_lem malloc node_count p.links p.free_head p.buffers)
    ∙ taken q.links q.free_head q.buffers

free_mem_object_mt-unlocked :
    (o : Option ℕ) (p : MemObjectPool)
    → free_mem_object_mt o (record { pool = p; locked = false })
      ≡ ok (record { pool = free_mem_object o p; locked = false })
unfolding free_mem_object_mt free_mem_object lock unlock
free_mem_object_mt-unlocked none p = refl
free_mem_object_mt-unlocked (some a) p = refl

-- With the mutex free, each operation of the pool with a mutex returns, does what the operation of
-- the pool without one does, and leaves the mutex free.
pub mt_pool_refines :
    (malloc : ℕ → Bool) (o : Option ℕ) (p : MemObjectPool)
    → let q : MemObjectMtPool = record { pool = p; locked = false } in
      (create_mem_object_mt malloc q ≡ with_unlocked (create_mem_object malloc p))
      × (free_mem_object_mt o q ≡ ok (record { pool = free_mem_object o p; locked = false }))
mt_pool_refines malloc o p =
    (create_mem_object_mt-unlocked malloc p, free_mem_object_mt-unlocked o p)
