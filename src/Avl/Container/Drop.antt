-- ===== src/Avl/Container/Drop.antt =====
-- A deletion takes one entry out of the map.
use game_project.Base.{
  ℕ, ◌+◌, ◌-◌, ◌≡◌, ◌≢◌, refl, sym, ap, ◌∙◌, Bool, true, false, List, [], Ensures, Ensures-bind,
  arith, if◌then◌else◌, is_none, length,
}
use game_project.Avl.Order
use game_project.Avl.Order.{
  IsSorted, insert-IsSorted, remove-IsSorted, lookup, length-insert, length-remove, insert-present,
}
use game_project.Avl.Delete.{Slot}
use game_project.Avl.Delete.Contents.{Deletes, Freed, delete_inner-Deletes, unlinks_inner}
use game_project.Avl.Container.{AvlTree, entries, delete}
use game_project.Avl.Container.Refine.{IsValid}

-- The counter and the stock of nodes after a deletion of a key that is absent or not.
count_after :
    (b : Bool) (c n m r : ℕ)
    → c ≡ (if b then n else n - 1)
    → n ≡ m
    → (if b then r else r + 1) ≡ m
    → c ≡ r
count_after true c n m r p q e = omega arith
count_after false c n m r p q e = omega arith

stock_after :
    (b : Bool) (f g m r total : ℕ)
    → g ≡ (if b then f else f + 1)
    → (if b then r else r + 1) ≡ m
    → f + m ≡ total
    → g + r ≡ total
stock_after true f g m r total p e q = omega arith
stock_after false f g m r total p e q = omega arith

module _ {ℓ} {A : Type ℓ} where
  -- What a deletion does, as a client sees it.
  pub record Drops (t : AvlTree A) (k : ℕ) (r : Bool × AvlTree A) : Type ℓ where
    pub reported : r.0 ≡ unlinks_inner k t.root
    pub list : entries r.1 ≡ Order.remove k (entries t)
    pub valid : IsValid r.1
    pub stock : length r.1.free + length (entries r.1) ≡ length t.free + length (entries t)
    pub buffers : r.1.buffers ≡ t.buffers

  Freed-length :
      (b : Bool) (f g : List (Slot A))
      → Freed b f g
      → f ≢ []
      → (g ≢ []) × (length g ≡ (if b then length f else length f + 1))
  Freed-length true f g e ne = (rw e ne, ap length e)
  Freed-length false f g (s, e) ne = (rw e (λ q. cc), rw e (omega arith))

  -- `Delete(Key)` on a valid container returns. The entries are then those of the sorted list without
  -- the key, the container is valid again, and no node is lost: as many as before are linked or free.
  -- The result is TRUE exactly if the node that left the tree had a child.
  pub delete_refines : (t : AvlTree A) (k : ℕ) → IsValid t → Ensures (Drops t k) (delete t k)
  unfolding delete
  delete_refines t k w =
      Ensures-bind (Deletes k t.free t.count t.root) _ _ _
        (delete_inner-Deletes k t.free t.count t.root w.spare w.ordered)
        (λ s d.
          let (ne, len) =
            Freed-length (is_none (lookup k (entries t))) t.free s.free d.freed w.spare in
          let absent = is_none (lookup k (entries t)) in
          let rest = length-remove k (entries t) in
          record {
            reported = d.reported;
            list = d.entries;
            valid = record {
              ordered = rw d.entries (remove-IsSorted k (entries t) w.ordered);
              counted =
                  count_after absent _ _ _ _ d.counted w.counted rest ∙ ap length (sym d.entries);
              spare = ne;
            };
            stock = rw d.entries (stock_after absent _ _ _ _ _ len rest refl);
            buffers = refl;
          })
