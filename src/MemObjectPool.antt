-- ===== src/MemObjectPool.antt =====
-- `MemObjectPool` and `MemObjectMTPool` of project/Common/Utility/MemObjectPool.h. The two differ by a
-- mutex that each operation of the second holds from start to end. The object of a node is its first
-- field, so object and node have one address.
-- `malloc n` says whether the n-th call of malloc succeeds; the n-th block starts at address
-- 1024 * n.
pub mod Free
pub mod Block
pub mod Mt
mod Tests
use game_project.Base.{
  ℕ, zero, suc, ◌+◌, ◌*◌, Bool, true, false, ◌&&◌, Option, none, some, List, [], ◌∷◌, if◌then◌else◌,
  ltb, leb,
}
use game_project.Links.{Links, set_next, set_prev, set_prev_if, push_front}

pub record MemObjectPool : Type 0 where
  pub links : Links
  pub free_head : Option ℕ
  -- how many blocks m_NodeBuff holds
  pub buffers : ℕ

abbrev pub node_count : ℕ
node_count = 1024

-- `FreeMemObject`
pub free_mem_object : Option ℕ → MemObjectPool → MemObjectPool
free_mem_object none p = p
free_mem_object (some a) p = record p {
  links = push_front a p.free_head p.links;
  free_head = some a;
}

-- One round of the loop of `AllocNodeBuffer`.
abbrev pub add_node : ℕ → MemObjectPool → MemObjectPool
add_node a p = elim p.free_head [
  | none ↦ record p { free_head = some a }
  | some h ↦ record p { links = push_front a (some h) p.links; free_head = some a }
]

-- The loop, over `n` nodes from address `a` on.
pub add_nodes : ℕ → ℕ → MemObjectPool → MemObjectPool
add_nodes zero a p = p
add_nodes (suc n) a p = add_nodes n (a + 1) (add_node a p)

-- `memset(pNode, 0, ...)` on `n` nodes from address `a` on.
abbrev pub zeroed : ℕ → ℕ → Links → Links
zeroed n a l = record {
  next = λ b. if leb a b && ltb b (a + n) then none else l.next b;
  prev = λ b. if leb a b && ltb b (a + n) then none else l.prev b;
}

-- `AllocNodeBuffer`
pub alloc_node_buffer : (ℕ → Bool) → ℕ → MemObjectPool → MemObjectPool
unfolding add_nodes
alloc_node_buffer malloc n p =
    if malloc p.buffers
    then (let a = p.buffers * node_count in
        add_nodes n a (record p { links = zeroed n a p.links; buffers = p.buffers + 1 }))
    else p

-- The rest of `CreateMemObject` once the free list is stocked.
pub take_object : MemObjectPool → Option ℕ × MemObjectPool
take_object p = elim p.free_head [
  | none ↦ (none, p)
  | some a ↦ (
    some a,
    record p {
      links = set_prev a none (set_next a none (set_prev_if (p.links.next a) none p.links));
      free_head = p.links.next a;
    },
  )
]

-- `if(m_pFreeHead == NULL) { AllocNodeBuffer(); }`
pub ensure_free : (ℕ → Bool) → ℕ → MemObjectPool → MemObjectPool
unfolding alloc_node_buffer
ensure_free malloc n p = elim p.free_head [ none ↦ alloc_node_buffer malloc n p | some a ↦ p ]

-- `CreateMemObject`
pub create_mem_object : (ℕ → Bool) → MemObjectPool → Option ℕ × MemObjectPool
unfolding take_object ensure_free
create_mem_object malloc p = take_object (ensure_free malloc node_count p)
