-- ===== src/Links/Parts.antt =====
-- What is known of a list is known of its parts.
use game_project.Base.{
  ℕ, ◌<◌, ◌≡◌, ◌≢◌, refl, sym, ap, ◌⊎◌, inl, inr, false, Option, none, some, List, [], ◌∷◌, ◌++◌,
  ◌==◌, arith,
}
use game_project.Links.{Links}
use game_project.Links.Chain.{Absent, IsDistinct, IsChain}
use game_project.Links.Bound.{IsBelow}
use game_project.Links.Unlink.{Absent-middle, Absent-append}

-- Lists without a node.
pub parts :
    (a : ℕ) (ys zs : List ℕ)
    → IsDistinct (ys ++ (a ∷ zs))
    → IsDistinct (ys ++ zs) × Absent a (ys ++ zs)
parts a [] zs d = (d.1, d.0)
parts a (y ∷ ys) zs d =
    let r = parts a ys zs d.1 in
    let m = Absent-middle y a ys zs d.0 in
    ((Absent-append y ys zs m.0 m.2, r.0), ((λ e. m.1 (sym e)), r.1))

pub IsBelow-parts :
    (n a : ℕ) (ys zs : List ℕ) → IsBelow n (ys ++ (a ∷ zs)) → IsBelow n (ys ++ zs) × (a < n)
IsBelow-parts n a [] zs b = (b.1, b.0)
IsBelow-parts n a (y ∷ ys) zs b = let r = IsBelow-parts n a ys zs b.1 in ((b.0, r.0), r.1)

-- The first of a list is not one behind it.
pub not_first :
    (l : Links) (head : Option ℕ) (a p : ℕ) (ys zs : List ℕ)
    → IsDistinct (ys ++ (p ∷ a ∷ zs))
    → IsChain l none head (ys ++ (p ∷ a ∷ zs))
    → (h : ℕ) × (head ≡ some h) × ((h == a) ≡ false)
not_first l head a p [] zs d c = let ne = d.0.0 in (p, c.0, ground arith)
not_first l head a p (y ∷ ys) zs d c =
    let ne = (Absent-middle y p ys (a ∷ zs) d.0).2.0 in (y, c.0, ground arith)

pub after-distinct : (a p : ℕ) (ys zs : List ℕ) → IsDistinct (ys ++ (p ∷ a ∷ zs)) → p ≢ a
after-distinct a p [] zs d = d.0.0
after-distinct a p (y ∷ ys) zs d = after-distinct a p ys zs d.1

-- A list is empty or has a last node.
pub last_node : (ys : List ℕ) → (ys ≡ []) ⊎ ((xs : List ℕ) × (p : ℕ) × (ys ≡ xs ++ (p ∷ [])))
last_node [] = inl refl
last_node (y ∷ ys) = inr (elim (last_node ys) [
  | inl e ↦ ([], y, ap (λ z. y ∷ z) e)
  | inr (xs, p, e) ↦ (y ∷ xs, p, ap (λ z. y ∷ z) e)
])
