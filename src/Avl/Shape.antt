-- ===== src/Avl/Shape.antt =====
-- The balance of an AVL tree, with the heights that the nodes store.
use game_project.Base.{ℕ, ◌+◌, ◌≤◌, ◌<◌, ◌≡◌, ◌⊎◌, max}
use game_project.Avl.{Tree, nil, node, get_height}

-- At each node the stored height is exact, and the subtrees differ in height by one at most.
abbrev pub IsAvl {ℓ} : {A : Type ℓ} → Tree A → Type 0
IsAvl nil = Unit {0}
IsAvl (node c h l r) =
    IsAvl l
    × IsAvl r
    × (h ≡ max (get_height l) (get_height r))
    × (get_height l ≤ get_height r + 1)
    × (get_height r ≤ get_height l + 1)

module _ {ℓ} {A : Type ℓ} where
  -- A subtree that grew is higher on the side of the new key, or is the new leaf.
  abbrev pub Leans : ℕ → Tree A → Type 0
  Leans k nil = ⊥
  Leans k (node c h l r) =
      (k < c.key → get_height l ≡ get_height r + 1)
      × (c.key < k → get_height r ≡ get_height l + 1)
      × (k ≡ c.key → h ≡ 0)

  -- Where a subtree of height `old` stood, an AVL tree stands that is as high, or one higher.
  abbrev pub Grew : ℕ → ℕ → Tree A → Type 0
  Grew k old t = IsAvl t × ((get_height t ≡ old) ⊎ ((get_height t ≡ old + 1) × Leans k t))

  -- Where a subtree of height `old` stood, an AVL tree stands that is as high, or one lower.
  abbrev pub Shrank : ℕ → Tree A → Type 0
  Shrank old t = IsAvl t × ((get_height t ≡ old) ⊎ (get_height t + 1 ≡ old))
