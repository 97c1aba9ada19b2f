-- ===== src/MemObjectPool/Free.antt =====
-- The free list of a pool holds each free object once.
use mathlib.Core.Path.{subst}
use game_project.Base.{
  ℕ, ◌*◌, ◌<◌, ◌≡◌, refl, sym, ap, ◌∙◌, Bool, Option, none, some, List, [], ◌∷◌,
}
use game_project.Links.{set_prev_if}
use game_project.Links.Chain.{
  Absent, IsDistinct, IsChain, push_front-IsChain, pop-IsChain, put-here,
}
use game_project.Links.Bound.{IsBelow}
use game_project.MemObjectPool.{
  MemObjectPool, node_count, free_mem_object, take_object, ensure_free, create_mem_object,
}

-- The pool's free objects, in the order in which they will be given out.
pub record Frees (p : MemObjectPool) (xs : List ℕ) : Type 0 where
  pub chain : IsChain p.links none p.free_head xs
  pub distinct : IsDistinct xs
  pub allocated : IsBelow (p.buffers * node_count) xs

-- An object that is given back is the next to be given out.
pub free_mem_object-Frees :
    (p : MemObjectPool) (a : ℕ) (xs : List ℕ)
    → Frees p xs
    → Absent a xs
    → a < p.buffers * node_count
    → Frees (free_mem_object (some a) p) (a ∷ xs)
unfolding free_mem_object
free_mem_object-Frees p a xs f o b = record {
  chain = push_front-IsChain p.links a none p.free_head xs o f.distinct f.chain;
  distinct = (o, f.distinct);
  allocated = (b, f.allocated);
}

-- What `CreateMemObject` gives out of the objects `xs`.
pub record Gives (p : MemObjectPool) (xs : List ℕ) (r : Option ℕ × MemObjectPool) : Type 0 where
  pub rest : List ℕ
  pub object : ℕ
  pub given : r.0 ≡ some object
  pub order : xs ≡ object ∷ rest
  pub frees : Frees r.1 rest
  pub unlinked : (r.1.links.next object ≡ none) × (r.1.links.prev object ≡ none)
  pub buffers : r.1.buffers ≡ p.buffers

pub take_object-Gives :
    (p : MemObjectPool) (x : ℕ) (xs : List ℕ) → Frees p (x ∷ xs) → Gives p (x ∷ xs) (take_object p)
unfolding take_object
take_object-Gives p x xs f =
    let c : IsChain p.links none (some x) (x ∷ xs) = (refl, f.chain.1, f.chain.2) in
    rw f.chain.0 (record {
      rest = xs;
      object = x;
      given = refl;
      order = refl;
      frees = record {
        chain = pop-IsChain p.links x xs f.distinct c;
        distinct = f.distinct.1;
        allocated = f.allocated.1;
      };
      unlinked = (
        put-here x none (set_prev_if (p.links.next x) none p.links).next,
        put-here x none (set_prev_if (p.links.next x) none p.links).prev,
      );
      buffers = refl;
    })

free_head-none : (p : MemObjectPool) (xs : List ℕ) → Frees p xs → p.free_head ≡ none → xs ≡ []
free_head-none p [] f e = refl
free_head-none p (x ∷ xs) f e = let q : some x ≡ none = sym f.chain.0 ∙ e in cc

ensure_free-some :
    (malloc : ℕ → Bool) (n : ℕ) (p : MemObjectPool) (x : ℕ)
    → p.free_head ≡ some x
    → ensure_free malloc n p ≡ p
unfolding ensure_free
ensure_free-some malloc n p x e = rw e refl

create_mem_object-some :
    (malloc : ℕ → Bool) (p : MemObjectPool) (x : ℕ)
    → p.free_head ≡ some x
    → create_mem_object malloc p ≡ take_object p
unfolding create_mem_object
create_mem_object-some malloc p x e = ap take_object (ensure_free-some malloc node_count p x e)

-- A pool with a free object gives out the first one, unlinked, and keeps the others.
pub create_mem_object-Gives :
    (malloc : ℕ → Bool) (p : MemObjectPool) (x : ℕ) (xs : List ℕ)
    → Frees p (x ∷ xs)
    → Gives p (x ∷ xs) (create_mem_object malloc p)
create_mem_object-Gives malloc p x xs f =
    subst (Gives p (x ∷ xs)) (sym (create_mem_object-some malloc p x f.chain.0))
      (take_object-Gives p x xs f)
