-- ===== src/Avl/Container/Init.antt =====
-- A new container is empty, and all its nodes are free.
use game_project.Base.{ℕ, zero, suc, ◌+◌, ◌≡◌, refl, ap, Bool, true, List, [], ◌∷◌, arith, length}
use game_project.Avl.{to_list}
use game_project.Avl.Delete.{Slot}
use game_project.Avl.Container.{entries, init, push_nodes, alloc_buffer_node}
use game_project.Avl.Container.Refine.{IsValid, IsStocked}

module _ {ℓ} {A : Type ℓ} (malloc : ℕ → Bool) (zero_item : A) where
  length-push_nodes :
      (n a : ℕ) (f : List (Slot A)) → length (push_nodes malloc zero_item n a f) ≡ n + length f
  unfolding push_nodes
  length-push_nodes zero a f = omega arith
  length-push_nodes (suc n) a f =
      omega (arith, length-push_nodes n (a + 1) (record { addr = a; item = zero_item } ∷ f))

  -- If its first block can be allocated, the constructor makes a valid empty container, whose 1024
  -- nodes are all free.
  pub init_refines :
      malloc 0 ≡ true
      → IsValid (init malloc zero_item)
        × IsStocked (init malloc zero_item)
        × (entries (init malloc zero_item) ≡ [])
        × (length (init malloc zero_item).free ≡ 1024)
  unfolding init alloc_buffer_node to_list
  init_refines e =
      let len = length-push_nodes 1024 0 [] in
      rw e (
        record { ordered = tt; counted = refl; spare = λ q. absurd (omega (arith, ap length q)) },
        omega arith,
        refl,
        omega arith,
      )
