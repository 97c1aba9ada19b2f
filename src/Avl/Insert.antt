-- ===== src/Avl/Insert.antt =====
-- `InsertInner` of project/Common/Utility/AVLTree.h. The recursive call on a child is made by
-- `insert_inner` itself, and what stands after it in the source by `insert_left` and `insert_right`.
pub mod Total
pub mod Contents
pub mod LeftSide
pub mod RightSide
pub mod Balance
use game_project.Base.{
  ◌<◌, ◌≡◌, refl, ◌≢◌, inl, inr, Bool-cases, arith, Ensures, ℕ, ◌+◌, Bool, true, false, some,
  Result, ok, ◌>>=◌, ltb, leb, if◌then◌else◌,
}
use game_project.Avl.{
  Cell, Tree, nil, node, leaf, get_height, sing_rotate_left, sing_rotate_right, double_rotate_lr,
  double_rotate_rl, update_height,
}

-- What `InsertInner` leaves: its result, the subtree that its reference names, and m_nCount.
pub record Inserted {ℓ} (A : Type ℓ) : Type ℓ where
  pub done : Bool
  pub tree : Tree A
  pub count : ℕ

module _ {ℓ} {A : Type ℓ} where
  -- After an insertion on the left, where that side may have become too high.
  pub fix_left_insert : ℕ → Tree A → Result (Tree A)
  unfolding sing_rotate_left double_rotate_lr
  fix_left_insert k (node c h (node d g a b) r) =
      if leb (get_height r + 2) (g + 1)
      then (if ltb k d.key
          then sing_rotate_left (node c h (node d g a b) r)
          else double_rotate_lr (node c h (node d g a b) r))
      else ok (node c h (node d g a b) r)
  fix_left_insert k t = ok t

  pub fix_right_insert : ℕ → Tree A → Result (Tree A)
  unfolding sing_rotate_right double_rotate_rl
  fix_right_insert k (node c h l (node d g a b)) =
      if leb (get_height l + 2) (g + 1)
      then (if ltb d.key k
          then sing_rotate_right (node c h l (node d g a b))
          else double_rotate_rl (node c h l (node d g a b)))
      else ok (node c h l (node d g a b))
  fix_right_insert k t = ok t

  -- A missing child is replaced by the new node; in a present one the insertion goes on.
  pub insert_child : Cell A → Cell A → ℕ → Tree A → Result (Inserted A) → Result (Inserted A)
  insert_child c new n nil deeper =
      ok (record { done = true; tree = leaf new (some c.addr); count = n + 1 })
  insert_child c new n (node _ _ _ _) deeper = deeper

  -- The rest of a call after the insertion into its left child.
  pub insert_left : Cell A → Cell A → ℕ → Tree A → Inserted A → Result (Inserted A)
  unfolding fix_left_insert update_height
  insert_left new c h r s =
      if s.done
      then (fix_left_insert new.key (node c h s.tree r) >>= λ t.
          ok (record s { tree = update_height t }))
      else ok (record s { tree = node c h s.tree r })

  pub insert_right : Cell A → Cell A → ℕ → Tree A → Inserted A → Result (Inserted A)
  unfolding fix_right_insert update_height
  insert_right new c h l s =
      if s.done
      then (fix_right_insert new.key (node c h l s.tree) >>= λ t.
          ok (record s { tree = update_height t }))
      else ok (record s { tree = node c h l s.tree })

  -- `InsertInner`
  unfoldable pub insert_inner : Cell A → ℕ → Tree A → Result (Inserted A)
  unfolding insert_left insert_right insert_child
  insert_inner new n nil = ok (record { done = false; tree = nil; count = n })
  insert_inner new n (node c h l r) = elim (ltb new.key c.key) [
    | true ↦ insert_child c new n l (insert_inner new n l) >>= insert_left new c h r
    | false ↦ elim (ltb c.key new.key) [
      | true ↦ insert_child c new n r (insert_inner new n r) >>= insert_right new c h l
      | false ↦ ok (record { done = false; tree = node c h l r; count = n })
    ]
  ]

  insert_inner_cases {κ} :
      (P : Result (Inserted A) → Type κ) (new c : Cell A) (n h : ℕ) (l r : Tree A)
      → (new.key < c.key
          → P (insert_child c new n l (insert_inner new n l) >>= insert_left new c h r))
      → (c.key < new.key
          → P (insert_child c new n r (insert_inner new n r) >>= insert_right new c h l))
      → (new.key ≡ c.key → P (ok (record { done = false; tree = node c h l r; count = n })))
      → P (insert_inner new n (node c h l r))
  unfolding insert_inner
  insert_inner_cases P new c n h l r lt gt eq = elim (Bool-cases (ltb new.key c.key)) [
    | inl p ↦ rw (p, insert_inner) (lt (ground arith))
    | inr p ↦ elim (Bool-cases (ltb c.key new.key)) [
      | inl q ↦ rw (p, q, insert_inner) (gt (ground arith))
      | inr q ↦ rw (p, q, insert_inner) (eq (ground arith))
    ]
  ]

  insert_child-Ensures {κ} :
      (P : Inserted A → Type κ) (c new : Cell A) (n : ℕ) (t : Tree A) (deeper : Result (Inserted A))
      → (t ≡ nil → P (record { done = true; tree = leaf new (some c.addr); count = n + 1 }))
      → (t ≢ nil → Ensures P deeper)
      → Ensures P (insert_child c new n t deeper)
  unfolding insert_child
  insert_child-Ensures P c new n nil deeper p q = p refl
  insert_child-Ensures P c new n (node _ _ _ _) deeper p q = q (λ e. cc)
