-- ===== src/Links/Bound.antt =====
-- A list of distinct addresses below a bound is no longer than the bound.
use game_project.Base.{
  ℕ, zero, suc, ◌+◌, ◌<◌, ◌≤◌, ◌≡◌, inl, inr, List, [], ◌∷◌, length, if◌then◌else◌, ◌==◌, arith,
  Bool-cases,
}
use game_project.Links.Chain.{Absent, IsDistinct}

-- Every address of the list is below `n`.
abbrev pub IsBelow : ℕ → List ℕ → Type 0
IsBelow n [] = Unit {0}
IsBelow n (x ∷ xs) = (x < n) × IsBelow n xs

pub IsBelow-Absent : (a : ℕ) (xs : List ℕ) → IsBelow a xs → Absent a xs
IsBelow-Absent a [] h = tt
IsBelow-Absent a (x ∷ xs) h = (omega arith, IsBelow-Absent a xs h.1)

pub IsBelow-mono : (a b : ℕ) (xs : List ℕ) → a ≤ b → IsBelow a xs → IsBelow b xs
IsBelow-mono a b [] le h = tt
IsBelow-mono a b (x ∷ xs) le h = (omega arith, IsBelow-mono a b xs le h.1)

-- A list without the first `a`.
erase : ℕ → List ℕ → List ℕ
erase a [] = []
erase a (x ∷ xs) = if a == x then xs else x ∷ erase a xs

length-erase : (a : ℕ) (xs : List ℕ) → length xs ≤ length (erase a xs) + 1
unfolding erase
length-erase a [] = omega arith
length-erase a (x ∷ xs) = ground (arith, length-erase a xs)

erase-Absent : (a b : ℕ) (xs : List ℕ) → Absent b xs → Absent b (erase a xs)
unfolding erase
erase-Absent a b [] o = tt
erase-Absent a b (x ∷ xs) o = elim (Bool-cases (a == x)) [
  | inl p ↦ rw p o.1
  | inr p ↦ rw p (o.0, erase-Absent a b xs o.1)
]

erase-IsDistinct : (a : ℕ) (xs : List ℕ) → IsDistinct xs → IsDistinct (erase a xs)
unfolding erase
erase-IsDistinct a [] d = tt
erase-IsDistinct a (x ∷ xs) d = elim (Bool-cases (a == x)) [
  | inl p ↦ rw p d.1
  | inr p ↦ rw p (erase-Absent a x xs d.0, erase-IsDistinct a xs d.1)
]

drop_top : (n : ℕ) (xs : List ℕ) → IsBelow (n + 1) xs → Absent n xs → IsBelow n xs
drop_top n [] m o = tt
drop_top n (x ∷ xs) m o = (omega (arith, m.0, o.0), drop_top n xs m.1 o.1)

erase-IsBelow : (n : ℕ) (xs : List ℕ) → IsBelow (n + 1) xs → IsDistinct xs → IsBelow n (erase n xs)
unfolding erase
erase-IsBelow n [] m d = tt
erase-IsBelow n (x ∷ xs) m d = elim (Bool-cases (n == x)) [
  | inl p ↦ let e : n ≡ x = ground arith in rw p (drop_top n xs m.1 (rw e d.0))
  | inr p ↦ rw p (ground arith, erase-IsBelow n xs m.1 d.1)
]

pub length_of_IsBelow : (n : ℕ) (xs : List ℕ) → IsBelow n xs → IsDistinct xs → length xs ≤ n
length_of_IsBelow zero [] m d = omega arith
length_of_IsBelow zero (x ∷ xs) m d = absurd (omega (arith, m.0))
length_of_IsBelow (suc n) xs m d =
    let e : suc n ≡ n + 1 = omega arith in
    let r =
      length_of_IsBelow n (erase n xs) (erase-IsBelow n xs (rw e at m) d)
        (erase-IsDistinct n xs d) in
    omega (arith, r, length-erase n xs)
