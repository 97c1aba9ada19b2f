-- ===== src/Cells/Local.antt =====
-- A change of some links leaves a list alone that has none of their nodes.
use mathlib.Core.Path.{subst}
use game_project.Base.{
  ℕ, ◌≡◌, ◌≢◌, sym, ap, ◌∙◌, Option, some, List, [], ◌∷◌, if◌then◌else◌, ◌==◌, arith,
}
use game_project.Links.{Links}
use game_project.Links.Chain.{Absent, IsChain}

-- The nodes of the list have the same links in both.
abbrev pub Agrees : Links → Links → List ℕ → Type 0
Agrees l l' [] = Unit {0}
Agrees l l' (x ∷ xs) = (l'.next x ≡ l.next x) × (l'.prev x ≡ l.prev x) × Agrees l l' xs

-- All nodes outside of the list have.
abbrev pub IsLocal : Links → Links → List ℕ → Type 0
IsLocal l l' ys = (x : ℕ) → Absent x ys → (l'.next x ≡ l.next x) × (l'.prev x ≡ l.prev x)

pub IsChain-Agrees :
    (l l' : Links) (before head : Option ℕ) (xs : List ℕ)
    → Agrees l l' xs
    → IsChain l before head xs
    → IsChain l' before head xs
IsChain-Agrees l l' before head [] g c = c
IsChain-Agrees l l' before head (x ∷ xs) g c = (
  c.0,
  g.1 ∙ c.1,
  subst (λ h. IsChain l' (some x) h xs) (sym g.0)
      (IsChain-Agrees l l' (some x) (l.next x) xs g.2 c.2),
)

-- Each node of the list has the mark `i`.
abbrev pub AllAt : (ℕ → ℕ) → ℕ → List ℕ → Type 0
AllAt cell i [] = Unit {0}
AllAt cell i (x ∷ xs) = (cell x ≡ i) × AllAt cell i xs

pub AllAt-Absent :
    (cell : ℕ → ℕ) (j x : ℕ) (ys : List ℕ) → AllAt cell j ys → cell x ≢ j → Absent x ys
AllAt-Absent cell j x [] a ne = tt
AllAt-Absent cell j x (y ∷ ys) a ne = ((λ e. ne (ap cell e ∙ a.0)), AllAt-Absent cell j x ys a.1 ne)

pub Agrees-IsLocal :
    (cell : ℕ → ℕ) (l l' : Links) (i j : ℕ) (xs ys : List ℕ)
    → IsLocal l l' ys
    → AllAt cell i xs
    → AllAt cell j ys
    → i ≢ j
    → Agrees l l' xs
Agrees-IsLocal cell l l' i j [] ys loc a b ne = tt
Agrees-IsLocal cell l l' i j (x ∷ xs) ys loc a b ne =
    let r = loc x (AllAt-Absent cell j x ys b (λ e. ne (sym a.0 ∙ e))) in
    (r.0, r.1, Agrees-IsLocal cell l l' i j xs ys loc a.1 b ne)

-- One node gets another mark.
abbrev pub mark : ℕ → ℕ → (ℕ → ℕ) → ℕ → ℕ
mark a j cell b = if b == a then j else cell b

pub AllAt-mark :
    (cell : ℕ → ℕ) (a j i : ℕ) (xs : List ℕ)
    → Absent a xs
    → AllAt cell i xs
    → AllAt (mark a j cell) i xs
AllAt-mark cell a j i [] o h = tt
AllAt-mark cell a j i (x ∷ xs) o h =
    let ne = o.0 in let e = h.0 in (ground arith, AllAt-mark cell a j i xs o.1 h.1)

pub Agrees-outside :
    (l l' : Links) (a : ℕ) (xs : List ℕ) → IsLocal l l' (a ∷ []) → Absent a xs → Agrees l l' xs
Agrees-outside l l' a [] loc o = tt
Agrees-outside l l' a (x ∷ xs) loc o =
    let r = loc x ((λ e. o.0 (sym e)), tt) in (r.0, r.1, Agrees-outside l l' a xs loc o.1)
