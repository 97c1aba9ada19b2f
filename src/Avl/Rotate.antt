-- ===== src/Avl/Rotate.antt =====
-- Rotations move subtrees and keep the order of the entries.
use mathlib.Core.List.{append_assoc}
use game_project.Base.{ℕ, List, Result, ◌≡◌, refl, IfOk}
use game_project.Avl.{
  Tree, nil, node, sing_rotate_left, sing_rotate_right, double_rotate_lr, double_rotate_rl,
  update_height, to_list,
}

module _ {ℓ} {A : Type ℓ} where
  -- The call returns a tree with these entries, if it returns.
  abbrev pub Lists : List (ℕ × A) → Result (Tree A) → Type ℓ
  Lists xs m = IfOk (λ t. to_list t ≡ xs) m

  pub to_list-sing_rotate_left : (t : Tree A) → Lists (to_list t) (sing_rotate_left t)
  unfolding sing_rotate_left to_list
  to_list-sing_rotate_left nil = tt
  to_list-sing_rotate_left (node c h nil r) = tt
  to_list-sing_rotate_left (node c h (node d g a x) r) = simp append_assoc

  pub to_list-sing_rotate_right : (t : Tree A) → Lists (to_list t) (sing_rotate_right t)
  unfolding sing_rotate_right to_list
  to_list-sing_rotate_right nil = tt
  to_list-sing_rotate_right (node c h l nil) = tt
  to_list-sing_rotate_right (node c h l (node d g x b)) = simp append_assoc

  pub to_list-double_rotate_lr : (t : Tree A) → Lists (to_list t) (double_rotate_lr t)
  unfolding double_rotate_lr to_list
  to_list-double_rotate_lr nil = tt
  to_list-double_rotate_lr (node c h nil r) = tt
  to_list-double_rotate_lr (node c h (node d g a nil) r) = tt
  to_list-double_rotate_lr (node c h (node d g a (node e f x y)) r) = simp append_assoc

  pub to_list-double_rotate_rl : (t : Tree A) → Lists (to_list t) (double_rotate_rl t)
  unfolding double_rotate_rl to_list
  to_list-double_rotate_rl nil = tt
  to_list-double_rotate_rl (node c h l nil) = tt
  to_list-double_rotate_rl (node c h l (node d g nil b)) = tt
  to_list-double_rotate_rl (node c h l (node d g (node e f x y) b)) = simp append_assoc

  pub to_list-update_height : (t : Tree A) → to_list (update_height t) ≡ to_list t
  unfolding update_height to_list
  to_list-update_height nil = refl
  to_list-update_height (node c h l r) = refl
