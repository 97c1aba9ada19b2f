-- ===== src/Avl/Container.antt =====
-- The public operations of `AVLTree` in project/Common/Utility/AVLTree.h: a tree, its free nodes and
-- its counter. `malloc n` says whether the n-th call of malloc succeeds, and `zero` is what zeroed
-- memory holds as a value.
pub mod Find
pub mod Refine
pub mod Drop
pub mod Init
use game_project.Base.{
  ℕ, zero, suc, ◌+◌, ◌*◌, Bool, true, false, Option, none, some, List, [], ◌∷◌, Result, ok, fault,
  null_pointer, ◌>>=◌, if◌then◌else◌,
}
use game_project.Avl.{Cell, Tree, nil, node, leaf, find_inner, to_list}
use game_project.Avl.Insert.{Inserted, insert_inner}
use game_project.Avl.Delete.{Slot, Deleted, free_node, delete_inner}

pub record AvlTree {ℓ} (A : Type ℓ) : Type ℓ where
  pub root : Tree A
  pub free : List (Slot A)
  pub count : ℕ
  -- how many blocks m_NodeBuff holds
  pub buffers : ℕ

abbrev pub block_size : ℕ
block_size = 1024

module _ {ℓ} {A : Type ℓ} where
  -- `m_pFreeHead->m_pLeft = NULL`, where the slots are those from m_pFreeHead on.
  abbrev pub clear_left : List (Slot A) → Result (Unit {0})
  clear_left [] = fault null_pointer
  clear_left (s ∷ fs) = ok tt

  -- The first free node is taken; m_pFreeHead, which is then the next one, is written through.
  pub take_node : AvlTree A → List (Slot A) → Result (Option (Slot A × AvlTree A))
  take_node t [] = ok none
  take_node t (s ∷ fs) = clear_left fs >>= λ _. ok (some (s, record t { free = fs }))

  -- The insertion of a node that `AllocNode` gave, with a key and a value.
  pub link_node : AvlTree A → Cell A → Tree A → Result (Bool × AvlTree A)
  unfolding insert_inner
  link_node t c nil = ok (true, record t { root = leaf c none; count = t.count + 1 })
  link_node t c (node d h l r) = insert_inner c t.count (node d h l r) >>= λ s.
      ok (s.done, record t { root = s.tree; count = s.count })

module _ {ℓ} {A : Type ℓ} (malloc : ℕ → Bool) (zero_item : A) where
  -- The loop of `AllocBufferNode`: `n` nodes from address `a` on, each before the ones so far.
  unfoldable pub push_nodes : ℕ → ℕ → List (Slot A) → List (Slot A)
  push_nodes zero a f = f
  push_nodes (suc n) a f = push_nodes n (a + 1) (record { addr = a; item = zero_item } ∷ f)

  unfoldable pub alloc_buffer_node : ℕ → AvlTree A → AvlTree A
  alloc_buffer_node n t =
      if malloc t.buffers
      then record t { free = push_nodes n (t.buffers * block_size) t.free; buffers = t.buffers + 1 }
      else t

  -- The constructor.
  unfoldable pub init : AvlTree A
  unfolding alloc_buffer_node
  init =
      record (alloc_buffer_node block_size
        (record { root = nil; free = []; count = 0; buffers = 0 })) { count = 0 }

  -- `AllocNode`
  pub alloc_node : AvlTree A → Result (Option (Slot A × AvlTree A))
  unfolding take_node alloc_buffer_node
  alloc_node t = elim t.free [
    | [] ↦ let t' = alloc_buffer_node block_size t in take_node t' t'.free
    | s ∷ fs ↦ take_node t (s ∷ fs)
  ]

  -- `Insert(Key, Value)`. A node whose key is there already is neither linked nor freed.
  pub insert : AvlTree A → ℕ → A → Result (Bool × AvlTree A)
  unfolding alloc_node link_node
  insert t k v = alloc_node t >>= λ o. elim o [
    | none ↦ ok (false, t)
    | some (s, t') ↦
        link_node t' (record { addr = s.addr; parent = none; key = k; item = v }) t'.root
  ]

  -- `InsertAlloc(Key)`, which tells whether the result is a node. The value is what the node's memory
  -- held before; a node whose key is there already is freed.
  pub insert_alloc : AvlTree A → ℕ → Result (Bool × AvlTree A)
  unfolding alloc_node link_node free_node
  insert_alloc t k = alloc_node t >>= λ o. elim o [
    | none ↦ ok (false, t)
    | some (s, t') ↦
        link_node t' (record { addr = s.addr; parent = none; key = k; item = s.item }) t'.root
        >>= λ (done, u).
            if done
            then ok (true, u)
            else (free_node s u.free >>= λ f. ok (false, record u { free = f }))
  ]

-- `GetByKey`, through `Find`
pub get_by_key {ℓ} : {A : Type ℓ} → AvlTree A → ℕ → Option A
unfolding find_inner
get_by_key t k = elim (find_inner t.root k) [ none ↦ none | some c ↦ some c.item ]

-- `Delete(Key)`
pub delete {ℓ} : {A : Type ℓ} → AvlTree A → ℕ → Result (Bool × AvlTree A)
unfolding delete_inner
delete t k = delete_inner k t.free t.count t.root >>= λ s.
    ok (s.done, record t { root = s.tree; free = s.free; count = s.count })

-- `Traversal` visits the entries in this order.
abbrev pub entries {ℓ} : {A : Type ℓ} → AvlTree A → List (ℕ × A)
entries t = to_list t.root
