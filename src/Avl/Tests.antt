-- ===== src/Avl/Tests.antt =====
-- The AVL tree at concrete inputs.
use game_project.Base.{
  ℕ, ◌+◌, ◌*◌, arith, ◌≡◌, ◌≢◌, refl, ◌⊎◌, Bool, true, none, some, List, [], ◌∷◌, ok, Ensures,
  replicate,
}
use game_project.Avl.{Cell, Tree, nil, node, get_height, to_list}
use game_project.Avl.Shape.{IsAvl}
use game_project.Avl.Order.{IsSorted, lookup}
use game_project.Avl.Insert.{insert_inner}
use game_project.Avl.Delete.{Slot, delete_inner}
use game_project.Avl.Delete.Contents.{Deletes, unlinks_inner, delete_inner-Deletes}
use game_project.Avl.Delete.Balance.{delete_inner-IsAvl}
use game_project.Avl.Container.{AvlTree, entries, delete, get_by_key}
use game_project.Avl.Container.Find.{get_by_key-lookup}
use game_project.Avl.Container.Refine.{IsValid}
use game_project.Avl.Container.Drop.{Drops, delete_refines}

abbrev cell : ℕ → ℕ → Cell ℕ
cell a k = record { addr = a; parent = none; key = k; item = k * 10 }

-- 4 over 2 and 6, with 1 below 2.
abbrev four : Tree ℕ
four =
    node (cell 0 4) 2 (node (cell 1 2) 1 (node (cell 2 1) 0 nil nil) nil)
      (node (cell 3 6) 0 nil nil)

abbrev slots : List (Slot ℕ)
slots = record { addr = 7; item = 0 } ∷ record { addr = 8; item = 0 } ∷ []

abbrev box : AvlTree ℕ
box = record { root = four; free = slots; count = 4; buffers = 1 }

four-IsSorted : IsSorted (to_list four)
unfolding to_list
four-IsSorted = ground arith

four-IsAvl : IsAvl four
four-IsAvl = ground arith

slots-ne : slots ≢ []
slots-ne e = cc

box-IsValid : IsValid box
box-IsValid = record { ordered = four-IsSorted; counted = unfold to_list in refl; spare = slots-ne }

-- An insertion of 0 rotates.
insert_inner-rotates :
    insert_inner (cell 9 0) 4 four
    ≡ ok (record {
      done = true;
      tree =
          node
            (cell 0 4)
            2
            (node
              (record (cell 2 1) { parent = none })
              1
              (node (record (cell 9 0) { parent = some 2 }) 0 nil nil)
              (node (record (cell 1 2) { parent = some 2 }) 0 nil nil))
            (node (cell 3 6) 0 nil nil);
      count = 5;
    })
unfolding insert_inner
insert_inner-rotates = refl

delete_inner-Deletes_example : Ensures (Deletes 4 slots 4 four) (delete_inner 4 slots 4 four)
delete_inner-Deletes_example = delete_inner-Deletes 4 slots 4 four slots-ne four-IsSorted

delete_inner-IsAvl_example :
    Ensures
      (λ s. IsAvl s.tree × ((get_height s.tree ≡ 3) ⊎ (get_height s.tree + 1 ≡ 3)))
      (delete_inner 2 slots 4 four)
delete_inner-IsAvl_example =
    delete_inner-IsAvl 2 slots 4 four slots-ne four-IsSorted four-IsAvl
      (unfold unlinks_inner in refl)

get_by_key-lookup_example : get_by_key box 2 ≡ lookup 2 (entries box)
get_by_key-lookup_example = get_by_key-lookup box 2 four-IsSorted

abbrev plenty : ℕ → Bool
plenty n = true

delete_refines_example : Ensures (Drops box 4) (delete box 4)
delete_refines_example = delete_refines box 4 box-IsValid

abbrev zero_item : ℕ
zero_item = 0

-- A stocked container: 1020 free nodes beside the four.
abbrev stocked_box : AvlTree ℕ
stocked_box = record box {
  free = record { addr = 7; item = 0 } ∷ replicate 1019 (record { addr = 8; item = 0 });
}
