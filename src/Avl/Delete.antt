-- ===== src/Avl/Delete.antt =====
-- `DeleteInner` and `FreeNode` of project/Common/Utility/AVLTree.h.
pub mod Contents
pub mod RightHeavy
pub mod LeftHeavy
pub mod Balance
use game_project.Base.{
  ℕ, ◌+◌, ◌-◌, ◌<◌, ◌≡◌, refl, ◌⊎◌, inl, inr, Bool, true, false, ◌&&◌, Option, some, none, List, [],
  ◌∷◌, Result, ok, fault, null_pointer, ◌>>=◌, ltb, leb, if◌then◌else◌, arith, Bool-cases,
}
use game_project.Avl.{
  Cell, Tree, nil, node, get_height, joint_height, sing_rotate_left, sing_rotate_right,
  double_rotate_lr, double_rotate_rl, update_height,
}

-- A node on the free list: its address, and the value that its memory still holds.
pub record Slot {ℓ} (A : Type ℓ) : Type ℓ where
  pub addr : ℕ
  pub item : A

-- What `DeleteInner` leaves: its result, the subtree that its reference names, the free list and
-- m_nCount.
pub record Deleted {ℓ} (A : Type ℓ) : Type ℓ where
  pub done : Bool
  pub tree : Tree A
  pub free : List (Slot A)
  pub count : ℕ

module _ {ℓ} {A : Type ℓ} where
  -- `FreeNode` writes through m_pFreeHead.
  unfoldable pub free_node : Slot A → List (Slot A) → Result (List (Slot A))
  free_node s [] = fault null_pointer
  free_node s (f ∷ fs) = ok (s ∷ f ∷ fs)

  abbrev pub is_node : Tree A → Bool
  is_node nil = false
  is_node (node _ _ _ _) = true

  -- The loop `while(pTempNode->m_pLeft != NULL)`, started at the node with cell `c`.
  pub leftmost : Cell A → Tree A → Cell A
  leftmost c nil = c
  leftmost c (node d h l r) = leftmost d l

  -- The least cell of the right subtree. `c` is the root's own, for a subtree that is not there.
  pub successor : Cell A → Tree A → Cell A
  unfolding leftmost
  successor c nil = c
  successor c (node d h l r) = leftmost d l

  -- After a deletion on the left.
  pub fix_right_heavy : Tree A → Result (Tree A)
  unfolding sing_rotate_right double_rotate_rl
  fix_right_heavy (node c h l (node d g a b)) =
      if leb (get_height l + 2) (g + 1)
      then (if is_node a && ltb (get_height b) (get_height a)
          then double_rotate_rl (node c h l (node d g a b))
          else sing_rotate_right (node c h l (node d g a b)))
      else ok (node c h l (node d g a b))
  fix_right_heavy t = ok t

  -- After a deletion on the right.
  pub fix_left_heavy : Tree A → Result (Tree A)
  unfolding sing_rotate_left double_rotate_lr
  fix_left_heavy (node c h (node d g a b) r) =
      if leb (get_height r + 2) (g + 1)
      then (if is_node b && ltb (get_height a) (get_height b)
          then double_rotate_lr (node c h (node d g a b) r)
          else sing_rotate_left (node c h (node d g a b) r))
      else ok (node c h (node d g a b) r)
  fix_left_heavy t = ok t

  -- The rest of a call after the deletion in its left child. A child's FALSE is returned at once.
  pub delete_left : Cell A → ℕ → Tree A → Deleted A → Result (Deleted A)
  unfolding fix_right_heavy update_height
  delete_left c h r s =
      if s.done
      then (fix_right_heavy (node c h s.tree r) >>= λ t. ok (record s { tree = update_height t }))
      else ok (record s { tree = node c h s.tree r })

  -- The rest of a call after the deletion in its right child, also of the successor there.
  pub delete_right : Cell A → ℕ → Tree A → Deleted A → Result (Deleted A)
  unfolding fix_left_heavy update_height
  delete_right c h l s =
      if s.done
      then (fix_left_heavy (node c h l s.tree) >>= λ t. ok (record s { tree = update_height t }))
      else ok (record s { tree = node c h l s.tree })

  -- The only child takes the node's place and its parent; without one the result is FALSE.
  pub set_parent : Option ℕ → Tree A → Tree A
  set_parent p nil = nil
  set_parent p (node c h l r) = node (record c { parent = p }) h l r

  pub only_child : Tree A → Tree A → Tree A
  only_child nil r = r
  only_child (node c h a b) r = node c h a b

  pub unlink : Cell A → List (Slot A) → ℕ → Tree A → Tree A → Result (Deleted A)
  unfolding free_node set_parent only_child update_height
  unlink c f n l r =
      let t = only_child l r in
      free_node (record { addr = c.addr; item = c.item }) f >>= λ f'. ok (record {
        done = is_node t;
        tree = update_height (set_parent c.parent t);
        free = f';
        count = n - 1;
      })

  -- `DeleteInner`. The node keeps its address when it takes over its successor's key and value.
  unfoldable pub delete_inner : ℕ → List (Slot A) → ℕ → Tree A → Result (Deleted A)
  unfolding delete_left delete_right unlink successor
  delete_inner k f n nil = ok (record { done = false; tree = nil; free = f; count = n })
  delete_inner k f n (node c h l r) = elim (ltb k c.key) [
    | true ↦ delete_inner k f n l >>= delete_left c h r
    | false ↦ elim (ltb c.key k) [
      | true ↦ delete_inner k f n r >>= delete_right c h l
      | false ↦ elim (is_node l && is_node r) [
        | true ↦
            let s = successor c r in
            delete_inner s.key f n r >>= delete_right (record c { key = s.key; item = s.item }) h l
        | false ↦ unlink c f n l r
      ]
    ]
  ]

  delete_inner_cases {κ} :
      (P : Result (Deleted A) → Type κ) (k : ℕ) (f : List (Slot A)) (n : ℕ) (c : Cell A) (h : ℕ)
      (l r : Tree A)
      → (k < c.key → P (delete_inner k f n l >>= delete_left c h r))
      → (c.key < k → P (delete_inner k f n r >>= delete_right c h l))
      → (k ≡ c.key
          → is_node l && is_node r ≡ true
          → let s = successor c r in
            P (
              delete_inner s.key f n r
              >>= delete_right (record c { key = s.key; item = s.item }) h l))
      → (k ≡ c.key → is_node l && is_node r ≡ false → P (unlink c f n l r))
      → P (delete_inner k f n (node c h l r))
  unfolding delete_inner
  delete_inner_cases P k f n c h l r lt gt two one = elim (Bool-cases (ltb k c.key)) [
    | inl p ↦ rw (p, delete_inner) (lt (ground arith))
    | inr p ↦ elim (Bool-cases (ltb c.key k)) [
      | inl q ↦ rw (p, q, delete_inner) (gt (ground arith))
      | inr q ↦ elim (Bool-cases (is_node l && is_node r)) [
        | inl b ↦ rw (p, q, b, delete_inner) (two (ground arith) b)
        | inr b ↦ rw (p, q, b, delete_inner) (one (ground arith) b)
      ]
    ]
  ]
