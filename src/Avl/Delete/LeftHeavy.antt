-- ===== src/Avl/Delete/LeftHeavy.antt =====
-- Deletion from the right subtree of an AVL tree: a rotation, or none, restores the balance.
use game_project.Base.{
  ℕ, ◌+◌, ◌≤◌, ◌<◌, ◌≡◌, refl, inl, inr, true, false, ◌&&◌, IfOk, arith, dec_lt, max, ltb, leb,
  Bool-cases, leb→le, leb→gt,
}
use game_project.Avl.{
  Cell, Tree, nil, node, get_height, sing_rotate_left, double_rotate_lr, update_height,
}
use game_project.Avl.Shape.{IsAvl, Shrank}
use game_project.Avl.Delete.{fix_left_heavy, is_node}

module _ {ℓ} {A : Type ℓ} where
  -- The test of the two inner subtrees.
  lower :
      (a b : Tree A)
      → is_node a && ltb (get_height b) (get_height a) ≡ true
      → get_height b < get_height a
  lower nil b e = cc
  lower (node d g x y) b e = ground arith

  higher :
      (a b : Tree A)
      → is_node a && ltb (get_height b) (get_height a) ≡ false
      → get_height a ≤ get_height b
  higher nil b e = omega arith
  higher (node d g x y) b e = ground arith

  -- The right subtree, once `old` high, lost a node.
  module _ (old : ℕ) (c : Cell A) (h : ℕ) where
    pub record ThinRight (l r : Tree A) : Type 0 where
      pub other : IsAvl l
      pub low : old ≤ get_height l + 1
      pub high : get_height l ≤ old + 1
      pub exact : h ≡ max (get_height l) old
      pub shrank : Shrank old r

    keep :
        (l r : Tree A)
        → ThinRight l r
        → get_height l ≤ get_height r + 1
        → Shrank (h + 1) (update_height (node c h l r))
    unfolding update_height
    keep l r w le = (
      (
        w.other,
        w.shrank.0,
        refl,
        le,
        elim w.shrank.1 [ inl e ↦ omega arith | inr e ↦ omega arith ],
      ),
      elim w.shrank.1 [
        | inl e ↦ inl (omega arith)
        | inr e ↦ elim (dec_lt (get_height l) old) [
          | yes lt ↦ inr (omega arith)
          | no ge ↦ inl (omega arith)
        ]
      ],
    )

    -- A rotation is due only where the right side shrank, to two less than the left.
    due :
        (l r : Tree A)
        → ThinRight l r
        → get_height r + 2 ≤ get_height l
        → (get_height l ≡ h) × (h ≡ get_height r + 2)
    due l r w le = elim w.shrank.1 [
      | inl e ↦ absurd (omega (arith, w.high))
      | inr e ↦ (omega (arith, w.high, w.exact), omega (arith, w.high, w.exact))
    ]

    single :
        (d : Cell A) (g : ℕ) (a b r : Tree A)
        → ThinRight (node d g a b) r
        → get_height r + 2 ≤ g + 1
        → get_height b ≤ get_height a
        → IfOk
            (λ t. Shrank (h + 1) (update_height t))
            (sing_rotate_left (node c h (node d g a b) r))
    unfolding sing_rotate_left update_height
    single d g a b r w le ab =
        let (rh, hl) = due (node d g a b) r w le in
        let (aa, bb, eg, p, q) = w.other in
        (
          (
            aa,
            (bb, w.shrank.0, refl, omega arith, omega arith),
            ground arith,
            omega arith,
            omega arith,
          ),
          elim (dec_lt (get_height b) (get_height a)) [
            | yes lt ↦ inr (omega arith)
            | no ge ↦ inl (omega arith)
          ],
        )

    double :
        (d : Cell A) (g : ℕ) (a b r : Tree A)
        → ThinRight (node d g a b) r
        → get_height r + 2 ≤ g + 1
        → get_height a < get_height b
        → IfOk
            (λ t. Shrank (h + 1) (update_height t))
            (double_rotate_lr (node c h (node d g a b) r))
    unfolding double_rotate_lr update_height
    double d g a nil r w le ba = tt
    double d g a (node f j x y) r w le ba =
        let (rh, hl) = due (node d g a (node f j x y)) r w le in
        let (aa, (bx, by, ej, p, q), eg, u, v) = w.other in
        (
          (
            (aa, bx, refl, omega arith, omega arith),
            (by, w.shrank.0, refl, omega arith, omega arith),
            ground arith,
            omega arith,
            omega arith,
          ),
          inr (omega arith),
        )

  pub fix_left_heavy-Shrank :
      (old : ℕ) (c : Cell A) (h : ℕ) (l r : Tree A)
      → ThinRight old c h l r
      → IfOk (λ t. Shrank (h + 1) (update_height t)) (fix_left_heavy (node c h l r))
  unfolding fix_left_heavy
  fix_left_heavy-Shrank old c h nil r w = keep old c h nil r w (omega arith)
  fix_left_heavy-Shrank old c h (node d g a b) r w =
      elim (Bool-cases (leb (get_height r + 2) (g + 1))) [
        | inl p ↦ elim (Bool-cases (is_node b && ltb (get_height a) (get_height b))) [
          | inl q ↦ rw (p, q) (double old c h d g a b r w (leb→le _ _ p) (lower b a q))
          | inr q ↦ rw (p, q) (single old c h d g a b r w (leb→le _ _ p) (higher b a q))
        ]
        | inr p ↦ rw p (keep old c h (node d g a b) r w (omega (arith, leb→gt _ _ p)))
      ]
