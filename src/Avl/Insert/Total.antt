-- ===== src/Avl/Insert/Total.antt =====
-- No rotation of an insertion goes through a null pointer, whatever the stored heights are.
use game_project.Base.{ℕ, ◌<◌, ◌≡◌, ◌⊎◌, inl, inr, true, Ensures, arith, Bool-cases, Ensures-bind}
use game_project.Avl.{Cell, Tree, nil, node, update_height}
use game_project.Avl.Insert.{
  Inserted, insert_inner, insert_left, insert_right, insert_inner_cases, insert_child-Ensures,
  fix_left_insert, fix_right_insert,
}

module _ {ℓ} {A : Type ℓ} where
  abbrev pub IsNode : Tree A → Type 0
  IsNode nil = ⊥
  IsNode (node _ _ _ _) = Unit {0}

  -- After `k` went in, the side of the root on which it lies is a node. It is the root itself only
  -- as a leaf or between two nodes.
  abbrev pub Placed : ℕ → Tree A → Type 0
  Placed k nil = ⊥
  Placed k (node c h l r) =
      (k < c.key → IsNode l)
      × (c.key < k → IsNode r)
      × (k ≡ c.key → (h ≡ 0) ⊎ (IsNode l × IsNode r))

  fix_left_insert-Placed :
      (k : ℕ) (c : Cell A) (h : ℕ) (l r : Tree A)
      → k < c.key
      → Placed k l
      → Ensures (λ t. Placed k (update_height t)) (fix_left_insert k (node c h l r))
  unfolding fix_left_insert update_height
  fix_left_insert-Placed k c h nil r lt p = elim p [ ]
  fix_left_insert-Placed k c h (node d g a nil) r lt p = ground arith
  fix_left_insert-Placed k c h (node d g a (node e f x y)) r lt p = ground arith

  fix_right_insert-Placed :
      (k : ℕ) (c : Cell A) (h : ℕ) (l r : Tree A)
      → c.key < k
      → Placed k r
      → Ensures (λ t. Placed k (update_height t)) (fix_right_insert k (node c h l r))
  unfolding fix_right_insert update_height
  fix_right_insert-Placed k c h l nil lt p = elim p [ ]
  fix_right_insert-Placed k c h l (node d g nil b) lt p = ground arith
  fix_right_insert-Placed k c h l (node d g (node e f x y) b) lt p = ground arith

  abbrev pub PlacedIn : ℕ → Inserted A → Type 0
  PlacedIn k s = s.done ≡ true → Placed k s.tree

  insert_left-Placed :
      (new c : Cell A) (h : ℕ) (r : Tree A) (s : Inserted A)
      → new.key < c.key
      → PlacedIn new.key s
      → Ensures (PlacedIn new.key) (insert_left new c h r s)
  unfolding insert_left
  insert_left-Placed new c h r s lt p = elim (Bool-cases s.done) [
    | inl d ↦ rw d (
        Ensures-bind (λ t. Placed new.key (update_height t)) _ _ _
          (fix_left_insert-Placed new.key c h s.tree r lt (p d)) (λ t q _. q))
    | inr d ↦ rw d (λ e. cc)
  ]

  insert_right-Placed :
      (new c : Cell A) (h : ℕ) (l : Tree A) (s : Inserted A)
      → c.key < new.key
      → PlacedIn new.key s
      → Ensures (PlacedIn new.key) (insert_right new c h l s)
  unfolding insert_right
  insert_right-Placed new c h l s lt p = elim (Bool-cases s.done) [
    | inl d ↦ rw d (
        Ensures-bind (λ t. Placed new.key (update_height t)) _ _ _
          (fix_right_insert-Placed new.key c h l s.tree lt (p d)) (λ t q _. q))
    | inr d ↦ rw d (λ e. cc)
  ]

  pub insert_inner-Placed :
      (new : Cell A) (n : ℕ) (t : Tree A) → Ensures (PlacedIn new.key) (insert_inner new n t)
  unfolding insert_inner
  insert_inner-Placed new n nil = λ e. cc
  insert_inner-Placed new n (node c h l r) =
      insert_inner_cases (Ensures (PlacedIn new.key)) new c n h l r
        (λ lt.
          Ensures-bind (PlacedIn new.key) _ _ _
            (insert_child-Ensures (PlacedIn new.key) c new n l _ (λ _ _. ground arith)
              (λ _. insert_inner-Placed new n l))
            (λ s q. insert_left-Placed new c h r s lt q))
        (λ gt.
          Ensures-bind (PlacedIn new.key) _ _ _
            (insert_child-Ensures (PlacedIn new.key) c new n r _ (λ _ _. ground arith)
              (λ _. insert_inner-Placed new n r))
            (λ s q. insert_right-Placed new c h l s gt q))
        (λ _ e. cc)
