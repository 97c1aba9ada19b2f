-- ===== src/Avl/Delete/Balance.antt =====
-- A deletion that reports TRUE keeps the balance of an AVL tree and its stored heights.
use game_project.Base.{
  Option, ℕ, ◌+◌, ◌≡◌, refl, ◌⊎◌, inl, inr, true, false, ◌&&◌, List, [], ◌∷◌, IfOk, IfOk-bind,
  Ensures, Ensures-both, Ensures-weaken, ◌≢◌, ◌∙◌, arith, Bool-cases,
}
use game_project.Avl.{Cell, Tree, nil, node, get_height, update_height, to_list}
use game_project.Avl.Order.{IsSorted}
use game_project.Avl.Delete.Contents.{Deletes, unlinks_inner, delete_inner-Deletes}
use game_project.Avl.Shape.{IsAvl, Shrank}
use game_project.Avl.Delete.{
  Slot, Deleted, delete_inner, delete_inner_cases, delete_left, delete_right, unlink, successor,
  free_node, is_node, only_child, set_parent,
}
use game_project.Avl.Delete.RightHeavy.{ThinLeft, fix_right_heavy-Shrank}
use game_project.Avl.Delete.LeftHeavy.{ThinRight, fix_left_heavy-Shrank}

module _ {ℓ} {A : Type ℓ} where
  abbrev ShrankIn : ℕ → Deleted A → Type 0
  ShrankIn old s = s.done ≡ true → Shrank old s.tree

  delete_left-Shrank :
      (c : Cell A) (old h : ℕ) (r : Tree A) (s : Deleted A)
      → (Shrank old s.tree → ThinLeft old c h s.tree r)
      → ShrankIn old s
      → IfOk (ShrankIn (h + 1)) (delete_left c h r s)
  unfolding delete_left
  delete_left-Shrank c old h r s pre g = elim (Bool-cases s.done) [
    | inl d ↦ rw d (
        IfOk-bind (λ t. Shrank (h + 1) (update_height t)) _ _ _
          (fix_right_heavy-Shrank old c h s.tree r (pre (g d))) (λ t q _. q))
    | inr d ↦ rw d (λ e. cc)
  ]

  delete_right-Shrank :
      (c : Cell A) (old h : ℕ) (l : Tree A) (s : Deleted A)
      → (Shrank old s.tree → ThinRight old c h l s.tree)
      → ShrankIn old s
      → IfOk (ShrankIn (h + 1)) (delete_right c h l s)
  unfolding delete_right
  delete_right-Shrank c old h l s pre g = elim (Bool-cases s.done) [
    | inl d ↦ rw d (
        IfOk-bind (λ t. Shrank (h + 1) (update_height t)) _ _ _
          (fix_left_heavy-Shrank old c h l s.tree (pre (g d))) (λ t q _. q))
    | inr d ↦ rw d (λ e. cc)
  ]

  only_child-Shrank :
      (p : Option ℕ) (c : Cell A) (h : ℕ) (l r : Tree A)
      → IsAvl (node c h l r)
      → is_node l && is_node r ≡ false
      → let t = only_child l r in is_node t ≡ true → Shrank (h + 1) (update_height (set_parent p t))
  unfolding only_child set_parent update_height
  only_child-Shrank p c h nil nil a b e = cc
  only_child-Shrank p c h nil (node d g x y) (al, (ax, ay, eg, gx, gy), eh, hl, hr) b e =
      ((ax, ay, refl, gx, gy), inr (omega arith))
  only_child-Shrank p c h (node d g x y) nil ((ax, ay, eg, gx, gy), ar, eh, hl, hr) b e =
      ((ax, ay, refl, gx, gy), inr (omega arith))
  only_child-Shrank p c h (node d g x y) (node _ _ _ _) a b e = cc

  unlink-Shrank :
      (c : Cell A) (f : List (Slot A)) (n h : ℕ) (l r : Tree A)
      → IsAvl (node c h l r)
      → is_node l && is_node r ≡ false
      → IfOk (ShrankIn (h + 1)) (unlink c f n l r)
  unfolding unlink free_node
  unlink-Shrank c [] n h l r a b = tt
  unlink-Shrank c (x ∷ f) n h l r a b = only_child-Shrank c.parent c h l r a b

  delete_inner-ShrankIn :
      (k : ℕ) (f : List (Slot A)) (n : ℕ) (t : Tree A)
      → IsAvl t
      → IfOk (ShrankIn (get_height t)) (delete_inner k f n t)
  unfolding delete_inner
  delete_inner-ShrankIn k f n nil a = λ e. cc
  delete_inner-ShrankIn k f n (node c h l r) (al, ar, eh, hl, hr) =
      delete_inner_cases (IfOk (ShrankIn (h + 1))) k f n c h l r
        (λ lt. IfOk-bind (ShrankIn (get_height l)) _ _ _ (delete_inner-ShrankIn k f n l al) (λ s.
          delete_left-Shrank c (get_height l) h r s
            (λ g. record { other = ar; low = hl; high = hr; exact = eh; shrank = g })))
        (λ gt. IfOk-bind (ShrankIn (get_height r)) _ _ _ (delete_inner-ShrankIn k f n r ar) (λ s.
          delete_right-Shrank c (get_height r) h l s
            (λ g. record { other = al; low = hr; high = hl; exact = eh; shrank = g })))
        (λ e b.
          let m = successor c r in
          let c' : Cell A = record c { key = m.key; item = m.item } in
          IfOk-bind (ShrankIn (get_height r)) _ _ _ (delete_inner-ShrankIn m.key f n r ar) (λ s.
            delete_right-Shrank c' (get_height r) h l s
              (λ g. record { other = al; low = hr; high = hl; exact = eh; shrank = g })))
        (λ e b. unlink-Shrank c f n h l r (al, ar, eh, hl, hr) b)

  -- Where the node that leaves an AVL search tree has a child, and a node is on the free list, the
  -- deletion returns and leaves an AVL tree that is as high as before or one lower.
  pub delete_inner-IsAvl :
      (k : ℕ) (f : List (Slot A)) (n : ℕ) (t : Tree A)
      → f ≢ []
      → IsSorted (to_list t)
      → IsAvl t
      → unlinks_inner k t ≡ true
      → Ensures
          (λ s.
            IsAvl s.tree
            × ((get_height s.tree ≡ get_height t) ⊎ (get_height s.tree + 1 ≡ get_height t)))
          (delete_inner k f n t)
  delete_inner-IsAvl k f n t ne o a u =
      Ensures-weaken (λ s. Deletes k f n t s × ShrankIn (get_height t) s) _ _
        (Ensures-both (Deletes k f n t) (ShrankIn (get_height t)) _
          (delete_inner-Deletes k f n t ne o) (delete_inner-ShrankIn k f n t a))
        (λ s p. p.1 (p.0.reported ∙ u))
