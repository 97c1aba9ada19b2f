-- ===== src/Avl/Insert/Balance.antt =====
-- An insertion keeps the balance of an AVL tree and its stored heights.
use game_project.Base.{ℕ, ◌≡◌, false}
use game_project.Avl.{get_height}
use game_project.Avl.Insert.{Inserted}
use game_project.Avl.Shape.{Grew}

module _ {ℓ} {A : Type ℓ} where
  -- What a call leaves of an AVL tree.
  abbrev GrewIn : ℕ → ℕ → Inserted A → Type 0
  GrewIn k old s = (s.done ≡ false → get_height s.tree ≡ old) × Grew k old s.tree
