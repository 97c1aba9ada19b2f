-- ===== src/Avl/Insert/LeftSide.antt =====
-- Insertion into the left subtree of an AVL tree: a rotation, or none, restores the balance.
use game_project.Base.{
  ℕ, ◌+◌, ◌≤◌, ◌<◌, ◌≡◌, refl, inl, inr, IfOk, arith, ltb, leb, max, Bool-cases, dec_lt,
}
use game_project.Avl.{
  Cell, Tree, nil, node, get_height, sing_rotate_left, double_rotate_lr, update_height,
}
use game_project.Avl.Insert.{fix_left_insert}
use game_project.Avl.Shape.{IsAvl, Leans, Grew}

module _ {ℓ} {A : Type ℓ} where
  module _ (k old : ℕ) (c : Cell A) (h : ℕ) where
    -- The premises on the two sides of a root whose left subtree, once `old` high, received `k`.
    pub record Before (l r : Tree A) : Type 0 where
      pub side : k < c.key
      pub other : IsAvl r
      pub low : old ≤ get_height r + 1
      pub high : get_height r ≤ old + 1
      pub exact : h ≡ max old (get_height r)
      pub grew : Grew k old l

    keep_left :
        (l r : Tree A)
        → Before l r
        → get_height l ≤ get_height r + 1
        → Grew k (h + 1) (update_height (node c h l r))
    unfolding update_height
    keep_left l r b le = (
      (b.grew.0, b.other, refl, le, elim b.grew.1 [ inl e ↦ omega arith | inr e ↦ omega arith ]),
      elim b.grew.1 [
        | inl e ↦ inl (omega arith)
        | inr e ↦ elim (dec_lt old (get_height r)) [
          | yes lt ↦ inl (omega arith)
          | no ge ↦ inr (
            omega arith,
            (λ _. omega arith, λ gt. absurd (omega arith), λ eq. absurd (omega arith)),
          )
        ]
      ],
    )

    single_left :
        (d : Cell A) (i : ℕ) (a b r : Tree A)
        → Before (node d i a b) r
        → get_height r + 2 ≤ i + 1
        → k < d.key
        → IfOk
            (λ t. Grew k (h + 1) (update_height t))
            (sing_rotate_left (node c h (node d i a b) r))
    unfolding sing_rotate_left update_height
    single_left d i a b r w le lt = elim w.grew.1 [ inl e ↦ ground arith | inr e ↦ ground arith ]

    -- A rotation is due only where the left side grew, to two more than the right.
    due :
        (d : Cell A) (i : ℕ) (a b r : Tree A)
        → Before (node d i a b) r
        → get_height r + 2 ≤ i + 1
        → (i ≡ h) × (h ≡ get_height r + 1) × Leans k (node d i a b)
    due d i a b r w le = elim w.grew.1 [
      | inl e ↦ absurd (omega (arith, w.low))
      | inr e ↦ (omega (arith, w.low), omega (arith, w.low), e.1)
    ]

    double_left :
        (d : Cell A) (i : ℕ) (a b r : Tree A)
        → Before (node d i a b) r
        → get_height r + 2 ≤ i + 1
        → d.key ≤ k
        → IfOk
            (λ t. Grew k (h + 1) (update_height t))
            (double_rotate_lr (node c h (node d i a b) r))
    unfolding double_rotate_lr update_height
    double_left d i a nil r w le lt = tt
    double_left d i a (node f j x y) r w le lt =
        let (ih, hr, (_, leans, top)) = due d i a (node f j x y) r w le in
        let ((ad, (ax, ay, eb, bl, br), ed, dl, dr), g) = w.grew in
        let jump : j ≡ get_height a = elim (dec_lt d.key k) [
          | yes q ↦ omega (arith, leans q)
          | no q ↦ omega (arith, top (omega arith))
        ] in
        (
          (
            (ad, ax, refl, omega arith, omega arith),
            (ay, w.other, refl, omega arith, omega arith),
            refl,
            omega arith,
            omega arith,
          ),
          inl (omega arith),
        )

  pub fix_left_insert-Grew :
      (k old : ℕ) (c : Cell A) (h : ℕ) (l r : Tree A)
      → Before k old c h l r
      → IfOk (λ t. Grew k (h + 1) (update_height t)) (fix_left_insert k (node c h l r))
  unfolding fix_left_insert
  fix_left_insert-Grew k old c h nil r b = keep_left k old c h nil r b (omega arith)
  fix_left_insert-Grew k old c h (node d i x y) r b =
      elim (Bool-cases (leb (get_height r + 2) (i + 1))) [
        | inl p ↦ elim (Bool-cases (ltb k d.key)) [
          | inl q ↦ rw (p, q) (single_left k old c h d i x y r b (ground arith) (ground arith))
          | inr q ↦ rw (p, q) (double_left k old c h d i x y r b (ground arith) (ground arith))
        ]
        | inr p ↦ rw p (keep_left k old c h (node d i x y) r b (ground arith))
      ]
