-- ===== src/Avl.antt =====
-- The AVL tree of project/Common/Utility/AVLTree.h at 64-bit keys.
-- A node carries its address, so that the parent pointers and the free list can name it.
pub mod Order
pub mod Insert
pub mod Delete
pub mod Container
mod Tests
mod Rotate
pub mod Shape
use game_project.Base.{
  ℕ, ◌+◌, max, Option, none, some, List, [], ◌∷◌, ◌++◌, Result, ok, fault, null_pointer, ◌>>=◌, ltb,
  if◌then◌else◌,
}

-- The fields of `TreeNode` beside its height and its two links.
pub record Cell {ℓ} (A : Type ℓ) : Type ℓ where
  pub addr : ℕ
  pub parent : Option ℕ
  pub key : ℕ
  pub item : A

-- `node c h l r` has m_nHeight h.
pub data Tree {ℓ} (A : Type ℓ) : Type ℓ where
  nil : Tree A
  node : Cell A → ℕ → Tree A → Tree A → Tree A

module _ {ℓ} {A : Type ℓ} where
  -- One more than `GetHeight`, which is -1 at NULL.
  abbrev pub get_height : Tree A → ℕ
  get_height nil = 0
  get_height (node c h l r) = h + 1

  -- `m_nHeight = Max(GetHeight(m_pLeft), GetHeight(m_pRight)) + 1`, without the node's other fields.
  abbrev pub joint_height : Tree A → Tree A → ℕ
  joint_height l r = max (get_height l) (get_height r)

  -- `SingRotateLeft`: the left child comes up. The subtree that changes sides keeps its parent
  -- pointer.
  pub sing_rotate_left : Tree A → Result (Tree A)
  sing_rotate_left (node c h (node d g a x) r) =
      let h' = joint_height x r in
      let c' : Cell A = record c { parent = some d.addr } in
      let down : Tree A = node c' h' x r in
      ok (node (record d { parent = c.parent }) (joint_height a down) a down)
  sing_rotate_left _ = fault null_pointer

  -- `SingRotateRight`: the right child comes up.
  pub sing_rotate_right : Tree A → Result (Tree A)
  sing_rotate_right (node c h l (node d g x b)) =
      let h' = joint_height l x in
      let c' : Cell A = record c { parent = some d.addr } in
      let down : Tree A = node c' h' l x in
      ok (node (record d { parent = c.parent }) (joint_height b down) down b)
  sing_rotate_right _ = fault null_pointer

  -- `DoubleRotateLR`
  pub double_rotate_lr : Tree A → Result (Tree A)
  unfolding sing_rotate_left sing_rotate_right
  double_rotate_lr nil = fault null_pointer
  double_rotate_lr (node c h l r) = do l' ← sing_rotate_right l; sing_rotate_left (node c h l' r)

  -- `DoubleRotateRL`
  pub double_rotate_rl : Tree A → Result (Tree A)
  unfolding sing_rotate_left sing_rotate_right
  double_rotate_rl nil = fault null_pointer
  double_rotate_rl (node c h l r) = do r' ← sing_rotate_left r; sing_rotate_right (node c h l r')

  -- The last assignment of `InsertInner` and `DeleteInner`.
  pub update_height : Tree A → Tree A
  update_height nil = nil
  update_height (node c h l r) = node c (joint_height l r) l r

  -- Keys and values in the order of `Insubtree`.
  pub to_list : Tree A → List (ℕ × A)
  to_list nil = []
  to_list (node c h l r) = to_list l ++ ((c.key, c.item) ∷ to_list r)

  -- `FindInner`
  pub find_inner : Tree A → ℕ → Option (Cell A)
  find_inner nil k = none
  find_inner (node c h l r) k =
      if ltb k c.key then find_inner l k else if ltb c.key k then find_inner r k else some c

  -- A new node has no children and height 0, and `InsertInner` writes its parent.
  abbrev pub leaf : Cell A → Option ℕ → Tree A
  leaf c p = node (record c { parent = p }) 0 nil nil
