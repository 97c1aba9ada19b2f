-- ===== src/Cells/Stand.antt =====
-- The objects of all cells: each cell has a list of its own, and the cell of an object is its mark.
use mathlib.Core.Path.{subst}
use game_project.Base.{
  ℕ, zero, suc, ◌+◌, ◌<◌, ◌≡◌, ◌≢◌, refl, Option, none, some, List, Never, [], ◌∷◌, get_elem?, set,
  arith,
}
use game_project.Links.{Links}
use game_project.Links.Chain.{Absent, IsDistinct, IsChain}
use game_project.Cells.Local.{
  IsLocal, IsChain-Agrees, AllAt, AllAt-Absent, Agrees-outside, Agrees-IsLocal, mark, AllAt-mark,
}

-- A cell holds the objects `xs`, which have its mark.
abbrev pub IsCell : Links → (ℕ → ℕ) → ℕ → Option ℕ → List ℕ → Type 0
IsCell l cell i h xs = IsChain l none h xs × IsDistinct xs × AllAt cell i xs

-- The cells from number `i` on hold the lists.
abbrev pub AreCells : Links → (ℕ → ℕ) → ℕ → List (Option ℕ) → List (List ℕ) → Type 0
AreCells l cell i [] [] = Unit {0}
AreCells l cell i [] (xs ∷ xss) = Never
AreCells l cell i (h ∷ hs) [] = Never
AreCells l cell i (h ∷ hs) (xs ∷ xss) = IsCell l cell i h xs × AreCells l cell (i + 1) hs xss

-- No cell has the object.
abbrev pub AbsentAll : ℕ → List (List ℕ) → Type 0
AbsentAll a [] = Unit {0}
AbsentAll a (xs ∷ xss) = Absent a xs × AbsentAll a xss

pub AreCells-get :
    (l : Links) (cell : ℕ → ℕ) (i n k : ℕ) (hs : List (Option ℕ)) (xss : List (List ℕ))
    (xs : List ℕ)
    → i + n ≡ k
    → AreCells l cell i hs xss
    → get_elem? xss n ≡ some xs
    → (h : Option ℕ) × (get_elem? hs n ≡ some h) × IsCell l cell k h xs
AreCells-get l cell i n k [] [] xs e c g = cc
AreCells-get l cell i n k [] (ys ∷ xss) xs e c g = elim c [ ]
AreCells-get l cell i n k (h ∷ hs) [] xs e c g = elim c [ ]
AreCells-get l cell i zero k (h ∷ hs) (ys ∷ xss) xs e c g =
    let same : ys ≡ xs = cc in
    let at : i ≡ k = omega arith in
    (h, refl, subst (λ z. IsCell l cell z h xs) at (subst (λ z. IsCell l cell i h z) same c.0))
AreCells-get l cell i (suc n) k (h ∷ hs) (ys ∷ xss) xs e c g =
    AreCells-get l cell (i + 1) n k hs xss xs (omega arith) c.1 g

IsCell-IsLocal :
    (l l' : Links) (cell : ℕ → ℕ) (i k : ℕ) (h : Option ℕ) (xs ys : List ℕ)
    → IsLocal l l' ys
    → AllAt cell k ys
    → i ≢ k
    → IsCell l cell i h xs
    → IsCell l' cell i h xs
IsCell-IsLocal l l' cell i k h xs ys loc b ne c =
    (IsChain-Agrees l l' none h xs (Agrees-IsLocal cell l l' i k xs ys loc c.2 b ne) c.0, c.1, c.2)

-- The cells from `i` on keep their objects where only the links of another cell change.
AreCells-IsLocal :
    (l l' : Links) (cell : ℕ → ℕ) (i k : ℕ) (hs : List (Option ℕ)) (xss : List (List ℕ))
    (ys : List ℕ)
    → IsLocal l l' ys
    → AllAt cell k ys
    → k < i
    → AreCells l cell i hs xss
    → AreCells l' cell i hs xss
AreCells-IsLocal l l' cell i k [] [] ys loc b lt c = tt
AreCells-IsLocal l l' cell i k [] (xs ∷ xss) ys loc b lt c = elim c [ ]
AreCells-IsLocal l l' cell i k (h ∷ hs) [] ys loc b lt c = elim c [ ]
AreCells-IsLocal l l' cell i k (h ∷ hs) (xs ∷ xss) ys loc b lt c = (
  IsCell-IsLocal l l' cell i k h xs ys loc b (λ e. absurd (omega arith)) c.0,
  AreCells-IsLocal l l' cell (i + 1) k hs xss ys loc b (omega arith) c.1,
)

-- One cell gets other objects, and the others keep theirs.
pub AreCells-set :
    (l l' : Links) (cell : ℕ → ℕ) (i n k : ℕ) (hs : List (Option ℕ)) (xss : List (List ℕ))
    (ys xs : List ℕ) (h : Option ℕ)
    → i + n ≡ k
    → IsLocal l l' ys
    → AllAt cell k ys
    → IsCell l' cell k h xs
    → AreCells l cell i hs xss
    → AreCells l' cell i (set hs n h) (set xss n xs)
AreCells-set l l' cell i n k [] [] ys xs h e loc b new c = tt
AreCells-set l l' cell i n k [] (zs ∷ xss) ys xs h e loc b new c = elim c [ ]
AreCells-set l l' cell i n k (g ∷ hs) [] ys xs h e loc b new c = elim c [ ]
AreCells-set l l' cell i zero k (g ∷ hs) (zs ∷ xss) ys xs h e loc b new c =
    let at : k ≡ i = omega arith in
    (
      subst (λ z. IsCell l' cell z h xs) at new,
      AreCells-IsLocal l l' cell (i + 1) k hs xss ys loc b (omega arith) c.1,
    )
AreCells-set l l' cell i (suc n) k (g ∷ hs) (zs ∷ xss) ys xs h e loc b new c = (
  IsCell-IsLocal l l' cell i k g zs ys loc b (λ q. absurd (omega arith)) c.0,
  AreCells-set l l' cell (i + 1) n k hs xss ys xs h (omega arith) loc b new c.1,
)

pub AreCells-mark :
    (l : Links) (cell : ℕ → ℕ) (a j i : ℕ) (hs : List (Option ℕ)) (xss : List (List ℕ))
    → AbsentAll a xss
    → AreCells l cell i hs xss
    → AreCells l (mark a j cell) i hs xss
AreCells-mark l cell a j i [] [] o c = tt
AreCells-mark l cell a j i [] (xs ∷ xss) o c = elim c [ ]
AreCells-mark l cell a j i (h ∷ hs) [] o c = elim c [ ]
AreCells-mark l cell a j i (h ∷ hs) (xs ∷ xss) o c = (
  (c.0.0, c.0.1, AllAt-mark cell a j i xs o.0 c.0.2),
  AreCells-mark l cell a j (i + 1) hs xss o.1 c.1,
)

-- The cells from `i` on have no object of a cell before them.
pub AreCells-Absent :
    (l : Links) (cell : ℕ → ℕ) (a i : ℕ) (hs : List (Option ℕ)) (xss : List (List ℕ))
    → cell a < i
    → AreCells l cell i hs xss
    → AbsentAll a xss
AreCells-Absent l cell a i [] [] lt c = tt
AreCells-Absent l cell a i [] (xs ∷ xss) lt c = elim c [ ]
AreCells-Absent l cell a i (h ∷ hs) [] lt c = elim c [ ]
AreCells-Absent l cell a i (h ∷ hs) (xs ∷ xss) lt c = (
  AllAt-Absent cell i a xs c.0.2 (λ e. absurd (omega arith)),
  AreCells-Absent l cell a (i + 1) hs xss (omega arith) c.1,
)

-- A change of links outside of all cells leaves them alone.
pub AreCells-outside :
    (l l' : Links) (cell : ℕ → ℕ) (a i : ℕ) (hs : List (Option ℕ)) (xss : List (List ℕ))
    → IsLocal l l' (a ∷ [])
    → AbsentAll a xss
    → AreCells l cell i hs xss
    → AreCells l' cell i hs xss
AreCells-outside l l' cell a i [] [] loc o c = tt
AreCells-outside l l' cell a i [] (xs ∷ xss) loc o c = elim c [ ]
AreCells-outside l l' cell a i (h ∷ hs) [] loc o c = elim c [ ]
AreCells-outside l l' cell a i (h ∷ hs) (xs ∷ xss) loc o c = (
  (IsChain-Agrees l l' none h xs (Agrees-outside l l' a xs loc o.0) c.0.0, c.0.1, c.0.2),
  AreCells-outside l l' cell a (i + 1) hs xss loc o.1 c.1,
)
