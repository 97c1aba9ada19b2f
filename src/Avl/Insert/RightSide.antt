-- ===== src/Avl/Insert/RightSide.antt =====
-- Insertion into the right subtree of an AVL tree: a rotation, or none, restores the balance.
use game_project.Base.{
  ℕ, ◌+◌, ◌≤◌, ◌<◌, ◌≡◌, refl, inl, inr, IfOk, arith, ltb, leb, max, Bool-cases, dec_lt,
}
use game_project.Avl.{
  Cell, Tree, nil, node, get_height, sing_rotate_right, double_rotate_rl, update_height,
}
use game_project.Avl.Insert.{fix_right_insert}
use game_project.Avl.Shape.{IsAvl, Leans, Grew}

module _ {ℓ} {A : Type ℓ} where
  module _ (k old : ℕ) (c : Cell A) (h : ℕ) where
    -- The premises on the two sides of a root whose right subtree, once `old` high, received `k`.
    pub record BeforeRight (l r : Tree A) : Type 0 where
      pub side : c.key < k
      pub other : IsAvl l
      pub low : old ≤ get_height l + 1
      pub high : get_height l ≤ old + 1
      pub exact : h ≡ max (get_height l) old
      pub grew : Grew k old r

    keep_right :
        (l r : Tree A)
        → BeforeRight l r
        → get_height r ≤ get_height l + 1
        → Grew k (h + 1) (update_height (node c h l r))
    unfolding update_height
    keep_right l r b le = (
      (b.other, b.grew.0, refl, elim b.grew.1 [ inl e ↦ omega arith | inr e ↦ omega arith ], le),
      elim b.grew.1 [
        | inl e ↦ inl (omega arith)
        | inr e ↦ elim (dec_lt old (get_height l)) [
          | yes lt ↦ inl (omega arith)
          | no ge ↦ inr (
            omega arith,
            (λ gt. absurd (omega arith), λ _. omega arith, λ eq. absurd (omega arith)),
          )
        ]
      ],
    )

    single_right :
        (d : Cell A) (i : ℕ) (l a b : Tree A)
        → BeforeRight l (node d i a b)
        → get_height l + 2 ≤ i + 1
        → d.key < k
        → IfOk
            (λ t. Grew k (h + 1) (update_height t))
            (sing_rotate_right (node c h l (node d i a b)))
    unfolding sing_rotate_right update_height
    single_right d i l a b w le lt = elim w.grew.1 [ inl e ↦ ground arith | inr e ↦ ground arith ]

    due_right :
        (d : Cell A) (i : ℕ) (l a b : Tree A)
        → BeforeRight l (node d i a b)
        → get_height l + 2 ≤ i + 1
        → (i ≡ h) × (h ≡ get_height l + 1) × Leans k (node d i a b)
    due_right d i l a b w le = elim w.grew.1 [
      | inl e ↦ absurd (omega (arith, w.low))
      | inr e ↦ (omega (arith, w.low), omega (arith, w.low), e.1)
    ]

    double_right :
        (d : Cell A) (i : ℕ) (l a b : Tree A)
        → BeforeRight l (node d i a b)
        → get_height l + 2 ≤ i + 1
        → k ≤ d.key
        → IfOk
            (λ t. Grew k (h + 1) (update_height t))
            (double_rotate_rl (node c h l (node d i a b)))
    unfolding double_rotate_rl update_height
    double_right d i l nil b w le lt = tt
    double_right d i l (node f j x y) b w le lt =
        let (ih, hr, (leans, _, top)) = due_right d i l (node f j x y) b w le in
        let (((ax, ay, eb, bl, br), ab, ed, dl, dr), g) = w.grew in
        let jump : j ≡ get_height b = elim (dec_lt k d.key) [
          | yes q ↦ omega (arith, leans q)
          | no q ↦ omega (arith, top (omega arith))
        ] in
        (
          (
            (w.other, ax, refl, omega arith, omega arith),
            (ay, ab, refl, omega arith, omega arith),
            ground arith,
            omega arith,
            omega arith,
          ),
          inl (omega arith),
        )

  pub fix_right_insert-Grew :
      (k old : ℕ) (c : Cell A) (h : ℕ) (l r : Tree A)
      → BeforeRight k old c h l r
      → IfOk (λ t. Grew k (h + 1) (update_height t)) (fix_right_insert k (node c h l r))
  unfolding fix_right_insert
  fix_right_insert-Grew k old c h l nil b = keep_right k old c h l nil b (omega arith)
  fix_right_insert-Grew k old c h l (node d i x y) b =
      elim (Bool-cases (leb (get_height l + 2) (i + 1))) [
        | inl p ↦ elim (Bool-cases (ltb d.key k)) [
          | inl q ↦ rw (p, q) (single_right k old c h d i l x y b (ground arith) (ground arith))
          | inr q ↦ rw (p, q) (double_right k old c h d i l x y b (ground arith) (ground arith))
        ]
        | inr p ↦ rw p (keep_right k old c h l (node d i x y) b (ground arith))
      ]
