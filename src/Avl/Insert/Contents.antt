-- ===== src/Avl/Insert/Contents.antt =====
-- An insertion puts one entry in its place in the sorted list of entries.
use game_project.Base.{ℕ, ◌+◌, ◌≡◌, if◌then◌else◌, is_none}
use game_project.Avl.{Cell, Tree, to_list}
use game_project.Avl.Order
use game_project.Avl.Order.{lookup}
use game_project.Avl.Insert.{Inserted}

module _ {ℓ} {A : Type ℓ} where
  -- What one call does to the entries of its subtree, to its result and to m_nCount.
  pub record Inserts (new : Cell A) (n : ℕ) (t : Tree A) (s : Inserted A) : Type ℓ where
    pub entries : to_list s.tree ≡ Order.insert new.key new.item (to_list t)
    pub fresh : s.done ≡ is_none (lookup new.key (to_list t))
    pub counted : s.count ≡ (if s.done then n + 1 else n)
