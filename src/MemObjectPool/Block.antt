-- ===== src/MemObjectPool/Block.antt =====
-- `AllocNodeBuffer` makes a block of free objects.
use mathlib.Core.Path.{subst}
use mathlib.Core.List.{append-nil}
use game_project.Base.{
  ℕ, zero, suc, ◌+◌, ◌*◌, ◌<◌, ◌≤◌, ◌≡◌, ◌≢◌, refl, sym, ap, ◌∙◌, inl, inr, Bool, true, false,
  Option, none, some, List, [], ◌∷◌, ◌++◌, arith, Option-cases,
}
use game_project.Links.{Links}
use game_project.Links.Chain.{IsDistinct, IsChain, push_front-IsChain, push_front-outside}
use game_project.MemObjectPool.{
  MemObjectPool, node_count, add_node, add_nodes, zeroed, alloc_node_buffer, take_object,
  ensure_free, create_mem_object,
}
use game_project.MemObjectPool.Free.{Frees, Gives, take_object-Gives}
use game_project.Links.Bound.{IsBelow, IsBelow-Absent, IsBelow-mono}

-- The addresses from `a + n - 1` down to `a`.
abbrev pub down_from : ℕ → ℕ → List ℕ
down_from zero a = []
down_from (suc n) a = (a + n) ∷ down_from n a

-- The state in the loop of `AllocNodeBuffer`.
record Adding (p : MemObjectPool) (xs : List ℕ) (a n : ℕ) : Type 0 where
  chain : IsChain p.links none p.free_head xs
  distinct : IsDistinct xs
  below : IsBelow a xs
  fresh : (b : ℕ) → a ≤ b → b < a + n → (p.links.next b ≡ none) × (p.links.prev b ≡ none)

head-below :
    (l : Links) (head : Option ℕ) (a b : ℕ) (xs : List ℕ)
    → IsChain l none head xs
    → IsBelow a xs
    → a ≤ b
    → head ≢ some b
head-below l head a b [] c h le e = let q : none ≡ some b = sym c ∙ e in cc
head-below l head a b (x ∷ xs) c h le e =
    let q : some x ≡ some b = sym c.0 ∙ e in let r : x ≡ b = cc in omega arith

add_first :
    (p : MemObjectPool) (xs : List ℕ) (a n : ℕ)
    → Adding p xs a (suc n)
    → p.free_head ≡ none
    → Adding (record p { free_head = some a }) (a ∷ xs) (a + 1) n
add_first p [] a n s e = record {
  chain = let z = s.fresh a (omega arith) (omega arith) in (refl, z.1, z.0);
  distinct = (tt, tt);
  below = (omega arith, tt);
  fresh = λ b ge lt. s.fresh b (omega arith) (omega arith);
}
add_first p (x ∷ xs) a n s e = let q : some x ≡ none = sym s.chain.0 ∙ e in cc

add_node-Adding :
    (p : MemObjectPool) (xs : List ℕ) (a n : ℕ)
    → Adding p xs a (suc n)
    → Adding (add_node a p) (a ∷ xs) (a + 1) n
add_node-Adding p xs a n s = elim (Option-cases p.free_head) [
  | inl e ↦ rw e (add_first p xs a n s e)
  | inr (h, e) ↦ rw e (record {
    chain =
        push_front-IsChain p.links a none (some h) xs (IsBelow-Absent a xs s.below) s.distinct
          (subst (λ z. IsChain p.links none z xs) e s.chain);
    distinct = (IsBelow-Absent a xs s.below, s.distinct);
    below = (omega arith, IsBelow-mono a (a + 1) xs (omega arith) s.below);
    fresh = λ b ge lt.
        let o =
          push_front-outside p.links a b (some h) (omega arith)
            (λ q. head-below p.links p.free_head a b xs s.chain s.below (omega arith) (e ∙ q)) in
        let z = s.fresh b (omega arith) (omega arith) in (o.0 ∙ z.0, o.1 ∙ z.1);
  })
]

down_from-snoc :
    (n a : ℕ) (xs : List ℕ) → down_from n (a + 1) ++ (a ∷ xs) ≡ down_from (suc n) a ++ xs
down_from-snoc zero a xs = let e : a ≡ a + 0 = omega arith in ap (λ z. z ∷ xs) e
down_from-snoc (suc n) a xs =
    let e : a + 1 + n ≡ a + suc n = omega arith in rw (down_from-snoc n a xs, e) refl

add_node-buffers : (p : MemObjectPool) (a : ℕ) → (add_node a p).buffers ≡ p.buffers
add_node-buffers p a = elim (Option-cases p.free_head) [
  | inl e ↦ rw e refl
  | inr (h, e) ↦ rw e refl
]

add_nodes-Adding :
    (n : ℕ) (p : MemObjectPool) (xs : List ℕ) (a : ℕ)
    → Adding p xs a n
    → Adding (add_nodes n a p) (down_from n a ++ xs) (a + n) 0
      × ((add_nodes n a p).buffers ≡ p.buffers)
unfolding add_nodes
add_nodes-Adding zero p xs a s = let e : a + 0 ≡ a = omega arith in rw e (s, refl)
add_nodes-Adding (suc n) p xs a s =
    let r = add_nodes-Adding n (add_node a p) (a ∷ xs) (a + 1) (add_node-Adding p xs a n s) in
    let e : a + 1 + n ≡ a + suc n = omega arith in
    let q = add_nodes n (a + 1) (add_node a p) in
    (
      subst (λ z. Adding q (down_from (suc n) a ++ xs) z 0) e
          (subst (λ z. Adding q z (a + 1 + n) 0) (down_from-snoc n a xs) r.0),
      r.1 ∙ add_node-buffers p a,
    )

-- When the free list is empty and malloc succeeds, `AllocNodeBuffer` leaves the nodes of the new
-- block on it, the last one first.
alloc_node_buffer-Frees :
    (malloc : ℕ → Bool) (n : ℕ) (p : MemObjectPool)
    → n ≤ node_count
    → malloc p.buffers ≡ true
    → Frees p []
    → Frees (alloc_node_buffer malloc n p) (down_from n (p.buffers * node_count))
unfolding alloc_node_buffer
alloc_node_buffer-Frees malloc n p le ok f =
    let a = p.buffers * node_count in
    let q : MemObjectPool = record p { links = zeroed n a p.links; buffers = p.buffers + 1 } in
    let r = add_nodes-Adding n q [] a (record {
      chain = f.chain;
      distinct = tt;
      below = tt;
      fresh = λ b ge lt. (ground arith, ground arith);
    }) in
    let e = append-nil (down_from n a) in
    rw ok (record {
      chain = rw e at r.0.chain;
      distinct = rw e at r.0.distinct;
      allocated =
          rw r.1 (IsBelow-mono (a + n) _ (down_from n a) (omega (arith, le)) (rw e at r.0.below));
    })

take-grown :
    (malloc : ℕ → Bool) (m n : ℕ) (p : MemObjectPool)
    → m ≡ suc n
    → m ≤ node_count
    → malloc p.buffers ≡ true
    → Frees p []
    → let q = alloc_node_buffer malloc m p in
      Gives q (down_from m (p.buffers * node_count)) (take_object q)
take-grown malloc m n p e le ok f =
    let q = alloc_node_buffer malloc m p in
    let g = alloc_node_buffer-Frees malloc m p le ok f in
    let d = ap (λ z. down_from z (p.buffers * node_count)) e in
    subst (λ z. Gives q z (take_object q)) (sym d)
      (take_object-Gives q (p.buffers * node_count + n) (down_from n (p.buffers * node_count))
        (subst (Frees q) d g))

ensure_free-none :
    (malloc : ℕ → Bool) (n : ℕ) (p : MemObjectPool)
    → p.free_head ≡ none
    → ensure_free malloc n p ≡ alloc_node_buffer malloc n p
unfolding ensure_free
ensure_free-none malloc n p e = rw e refl

refuse_block :
    (malloc : ℕ → Bool) (n : ℕ) (p : MemObjectPool)
    → malloc p.buffers ≡ false
    → alloc_node_buffer malloc n p ≡ p
unfolding alloc_node_buffer
refuse_block malloc n p e = rw e refl

take_object-none : (p : MemObjectPool) → p.free_head ≡ none → take_object p ≡ (none, p)
unfolding take_object
take_object-none p e = rw e refl

create_mem_object-none :
    (malloc : ℕ → Bool) (p : MemObjectPool)
    → p.free_head ≡ none
    → create_mem_object malloc p ≡ take_object (alloc_node_buffer malloc node_count p)
unfolding create_mem_object
create_mem_object-none malloc p e = ap take_object (ensure_free-none malloc node_count p e)

-- A pool without a free object that can allocate a block gives out its last object, and keeps the
-- other 1023 of the block.
pub create_mem_object-grows :
    (malloc : ℕ → Bool) (p : MemObjectPool)
    → malloc p.buffers ≡ true
    → Frees p []
    → let q = alloc_node_buffer malloc node_count p in
      Gives q (down_from node_count (p.buffers * node_count)) (create_mem_object malloc p)
create_mem_object-grows malloc p ok f =
    let q = alloc_node_buffer malloc node_count p in
    subst (Gives q (down_from node_count (p.buffers * node_count)))
      (sym (create_mem_object-none malloc p f.chain))
      (take-grown malloc node_count 1023 p refl (omega arith) ok f)

-- Without memory there is no object, and the pool stays as it is.
pub create_mem_object-fails :
    (malloc : ℕ → Bool) (p : MemObjectPool)
    → malloc p.buffers ≡ false
    → Frees p []
    → create_mem_object malloc p ≡ (none, p)
create_mem_object-fails malloc p e f =
    create_mem_object-none malloc p f.chain
    ∙ ap take_object (refuse_block malloc node_count p e)
    ∙ take_object-none p f.chain
