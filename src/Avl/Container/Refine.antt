-- ===== src/Avl/Container/Refine.antt =====
-- The container is a finite map: each operation does to the entries what the sorted list does.
use game_project.Base.{
  ℕ, ◌+◌, ◌*◌, ◌≡◌, ◌≢◌, Bool, none, List, [], ◌∷◌, if◌then◌else◌, is_none, length,
}
use game_project.Avl.{Cell}
use game_project.Avl.Order
use game_project.Avl.Order.{IsSorted, remove-IsSorted, lookup, length-remove, insert-present}
use game_project.Avl.Delete.{Slot}
use game_project.Avl.Container.{AvlTree, entries, block_size, insert}

module _ {ℓ} {A : Type ℓ} where
  -- A search tree with its exact count, and a free node left for `FreeNode` to write through.
  pub record IsValid (t : AvlTree A) : Type ℓ where
    pub ordered : IsSorted (entries t)
    pub counted : t.count ≡ length (entries t)
    pub spare : t.free ≢ []

  -- Every node of the blocks is linked or free.
  abbrev pub IsStocked : AvlTree A → Type 0
  IsStocked t = length t.free + length (entries t) ≡ t.buffers * block_size

  -- What the linking of a node leaves of the rest of the container.
  record Links (t : AvlTree A) (c : Cell A) (r : Bool × AvlTree A) : Type ℓ where
    fresh : r.0 ≡ is_none (lookup c.key (entries t))
    list : entries r.1 ≡ Order.insert c.key c.item (entries t)
    count : r.1.count ≡ (if r.0 then t.count + 1 else t.count)
    free : r.1.free ≡ t.free
    buffers : r.1.buffers ≡ t.buffers

  -- An insertion of `v` under `k`, as a client sees it.
  pub record Puts (t : AvlTree A) (k : ℕ) (v : A) (r : Bool × AvlTree A) : Type ℓ where
    pub fresh : r.0 ≡ is_none (lookup k (entries t))
    pub list : entries r.1 ≡ Order.insert k v (entries t)
    pub valid : IsValid r.1
    pub buffers : r.1.buffers ≡ t.buffers

  module _ (malloc : ℕ → Bool) (zero_item : A) (t : AvlTree A) (k : ℕ) (w : IsValid t)
      {s x : Slot A} {fs : List (Slot A)} (two : t.free ≡ s ∷ x ∷ fs) where
    taken : AvlTree A
    taken = record t { free = x ∷ fs }

    cell : A → Cell A
    cell v = record { addr = s.addr; parent = none; key = k; item = v }
