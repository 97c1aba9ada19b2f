-- ===== src/Avl/Delete/RightHeavy.antt =====
-- Deletion from the left subtree of an AVL tree: a rotation, or none, restores the balance.
use game_project.Base.{
  ℕ, ◌+◌, ◌≤◌, ◌<◌, ◌≡◌, refl, inl, inr, true, false, ◌&&◌, IfOk, arith, dec_lt, max, ltb, leb,
  Bool-cases, leb→le, leb→gt,
}
use game_project.Avl.{
  Cell, Tree, nil, node, get_height, sing_rotate_right, double_rotate_rl, update_height,
}
use game_project.Avl.Shape.{IsAvl, Shrank}
use game_project.Avl.Delete.{fix_right_heavy, is_node}

module _ {ℓ} {A : Type ℓ} where
  -- The test of the two inner subtrees.
  lower :
      (a b : Tree A)
      → is_node a && ltb (get_height b) (get_height a) ≡ true
      → get_height b < get_height a
  lower nil b e = cc
  lower (node d g x y) b e = ground arith

  higher :
      (a b : Tree A)
      → is_node a && ltb (get_height b) (get_height a) ≡ false
      → get_height a ≤ get_height b
  higher nil b e = omega arith
  higher (node d g x y) b e = ground arith

  -- The left subtree, once `old` high, lost a node.
  module _ (old : ℕ) (c : Cell A) (h : ℕ) where
    pub record ThinLeft (l r : Tree A) : Type 0 where
      pub other : IsAvl r
      pub low : old ≤ get_height r + 1
      pub high : get_height r ≤ old + 1
      pub exact : h ≡ max old (get_height r)
      pub shrank : Shrank old l

    keep :
        (l r : Tree A)
        → ThinLeft l r
        → get_height r ≤ get_height l + 1
        → Shrank (h + 1) (update_height (node c h l r))
    unfolding update_height
    keep l r w le = (
      (
        w.shrank.0,
        w.other,
        refl,
        elim w.shrank.1 [ inl e ↦ omega arith | inr e ↦ omega arith ],
        le,
      ),
      elim w.shrank.1 [
        | inl e ↦ inl (omega arith)
        | inr e ↦ elim (dec_lt (get_height r) old) [
          | yes lt ↦ inr (omega arith)
          | no ge ↦ inl (omega arith)
        ]
      ],
    )

    -- A rotation is due only where the left side shrank, to two less than the right.
    due :
        (l r : Tree A)
        → ThinLeft l r
        → get_height l + 2 ≤ get_height r
        → (get_height r ≡ h) × (h ≡ get_height l + 2)
    due l r w le = elim w.shrank.1 [
      | inl e ↦ absurd (omega (arith, w.high))
      | inr e ↦ (omega (arith, w.high, w.exact), omega (arith, w.high, w.exact))
    ]

    single :
        (d : Cell A) (g : ℕ) (l a b : Tree A)
        → ThinLeft l (node d g a b)
        → get_height l + 2 ≤ g + 1
        → get_height a ≤ get_height b
        → IfOk
            (λ t. Shrank (h + 1) (update_height t))
            (sing_rotate_right (node c h l (node d g a b)))
    unfolding sing_rotate_right update_height
    single d g l a b w le ab =
        let (rh, hl) = due l (node d g a b) w le in
        let (aa, bb, eg, p, q) = w.other in
        (
          (
            (w.shrank.0, aa, refl, omega arith, omega arith),
            bb,
            ground arith,
            omega arith,
            omega arith,
          ),
          elim (dec_lt (get_height a) (get_height b)) [
            | yes lt ↦ inr (omega arith)
            | no ge ↦ inl (omega arith)
          ],
        )

    double :
        (d : Cell A) (g : ℕ) (l a b : Tree A)
        → ThinLeft l (node d g a b)
        → get_height l + 2 ≤ g + 1
        → get_height b < get_height a
        → IfOk
            (λ t. Shrank (h + 1) (update_height t))
            (double_rotate_rl (node c h l (node d g a b)))
    unfolding double_rotate_rl update_height
    double d g l nil b w le ba = tt
    double d g l (node f j x y) b w le ba =
        let (rh, hl) = due l (node d g (node f j x y) b) w le in
        let ((ax, ay, ej, p, q), bb, eg, u, v) = w.other in
        (
          (
            (w.shrank.0, ax, refl, omega arith, omega arith),
            (ay, bb, refl, omega arith, omega arith),
            ground arith,
            omega arith,
            omega arith,
          ),
          inr (omega arith),
        )

  pub fix_right_heavy-Shrank :
      (old : ℕ) (c : Cell A) (h : ℕ) (l r : Tree A)
      → ThinLeft old c h l r
      → IfOk (λ t. Shrank (h + 1) (update_height t)) (fix_right_heavy (node c h l r))
  unfolding fix_right_heavy
  fix_right_heavy-Shrank old c h l nil w = keep old c h l nil w (omega arith)
  fix_right_heavy-Shrank old c h l (node d g a b) w =
      elim (Bool-cases (leb (get_height l + 2) (g + 1))) [
        | inl p ↦ elim (Bool-cases (is_node a && ltb (get_height b) (get_height a))) [
          | inl q ↦ rw (p, q) (double old c h d g l a b w (leb→le _ _ p) (lower a b q))
          | inr q ↦ rw (p, q) (single old c h d g l a b w (leb→le _ _ p) (higher a b q))
        ]
        | inr p ↦ rw p (keep old c h l (node d g a b) w (omega (arith, leb→gt _ _ p)))
      ]
