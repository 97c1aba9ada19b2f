-- ===== src/Grid/Merge.antt =====
-- The merge of two rising arrays of indices computes their differences and their intersection.
use mathlib.Core.Path.{subst}
use game_project.Base.{
  dec_lt, ℕ, ◌<◌, ◌≡◌, refl, sym, ap, Bool, true, false, ◌||◌, List, [], ◌∷◌, ◌++◌, map, ok,
  if◌then◌else◌, ◌==◌, arith,
}
use game_project.Base.Int.{ℤ, pos}
use game_project.Grid.{GridDiff, Choice, choose, merge_grids, end}

-- Membership, difference and intersection of lists of indices.
abbrev pub member : ℕ → List ℕ → Bool
member k [] = false
member k (x ∷ xs) = k == x || member k xs

-- The entries of the second list that are not in the first.
abbrev pub without : List ℕ → List ℕ → List ℕ
without xs [] = []
without xs (y ∷ ys) = if member y xs then without xs ys else y ∷ without xs ys

-- The entries of the second list that are in the first.
abbrev pub within : List ℕ → List ℕ → List ℕ
within xs [] = []
within xs (y ∷ ys) = if member y xs then y ∷ within xs ys else within xs ys

abbrev pub Over : ℕ → List ℕ → Type 0
Over k [] = Unit {0}
Over k (x ∷ xs) = (k < x) × Over k xs

abbrev pub IsRising : List ℕ → Type 0
IsRising [] = Unit {0}
IsRising (x ∷ xs) = Over x xs × IsRising xs

Over-mono : (j k : ℕ) (xs : List ℕ) → j < k → Over k xs → Over j xs
Over-mono j k [] h o = tt
Over-mono j k (x ∷ xs) h o = (omega arith, Over-mono j k xs h o.1)

member-Over : (k : ℕ) (xs : List ℕ) → Over k xs → member k xs ≡ false
member-Over k [] o = refl
member-Over k (x ∷ xs) o = ground (arith, member-Over k xs o.1)

-- An index below all of a list does not change what is left of it.
without-cons : (x : ℕ) (xs ys : List ℕ) → Over x ys → without (x ∷ xs) ys ≡ without xs ys
without-cons x xs [] o = refl
without-cons x xs (y ∷ ys) o = ground (arith, without-cons x xs ys o.1)

within-cons : (x : ℕ) (xs ys : List ℕ) → Over x ys → within (x ∷ xs) ys ≡ within xs ys
within-cons x xs [] o = refl
within-cons x xs (y ∷ ys) o = ground (arith, within-cons x xs ys o.1)

abbrev pub diff_of : List ℕ → List ℕ → GridDiff
diff_of xs ys = record {
  inc = map pos (without xs ys);
  dec = map pos (without ys xs);
  stay = map pos (within ys xs);
}

-- An array of indices with its end mark, and whatever stands behind it.
abbrev pub array : List ℕ → List ℤ → List ℤ
array xs rest = map pos xs ++ (end ∷ rest)

choose-lt : (x y : ℕ) → x < y → choose (pos x) (pos y) ≡ Choice.take_dec
unfolding choose
choose-lt x y h = ground arith

choose-gt : (x y : ℕ) → y < x → choose (pos x) (pos y) ≡ Choice.take_inc
unfolding choose
choose-gt x y h = ground arith

choose-eq : (x : ℕ) → choose (pos x) (pos x) ≡ Choice.take_both
unfolding choose
choose-eq x = ground arith

diff_of-both :
    (x : ℕ) (xs ys : List ℕ)
    → Over x xs
    → Over x ys
    → diff_of (x ∷ xs) (x ∷ ys) ≡ record (diff_of xs ys) { stay = pos x ∷ map pos (within ys xs) }
diff_of-both x xs ys o p =
    let here : (x == x) ≡ true = ground arith in
    rw (here, without-cons x xs ys p, without-cons x ys xs o, within-cons x ys xs o)

diff_of-dec :
    (x : ℕ) (xs ys : List ℕ)
    → Over x ys
    → diff_of (x ∷ xs) ys ≡ record (diff_of xs ys) { dec = pos x ∷ map pos (without ys xs) }
diff_of-dec x xs ys p = rw (member-Over x ys p, without-cons x xs ys p)

diff_of-inc :
    (y : ℕ) (xs ys : List ℕ)
    → Over y xs
    → diff_of xs (y ∷ ys) ≡ record (diff_of xs ys) { inc = pos y ∷ map pos (without xs ys) }
diff_of-inc y xs ys o = rw (member-Over y xs o, without-cons y ys xs o, within-cons y ys xs o)

-- On two rising arrays the first loop of `CalDiffGrids` ends, with the entries that are only in the
-- destination, those only in the source, and those in both, each in their order.
pub merge_grids_lem :
    (xs ys : List ℕ) (p q : List ℤ)
    → IsRising xs
    → IsRising ys
    → merge_grids (array xs p) (array ys q) ≡ ok (diff_of xs ys)
unfolding merge_grids
merge_grids_lem [] [] p q rx ry = refl
merge_grids_lem [] (y ∷ ys) p q rx ry = rw (merge_grids_lem [] ys p q rx ry.1) refl
merge_grids_lem (x ∷ xs) [] p q rx ry = rw (merge_grids_lem xs [] p q rx.1 ry) refl
merge_grids_lem (x ∷ xs) (y ∷ ys) p q rx ry = elim (dec_lt x y) [
  | yes lt ↦
      rw (choose-lt x y lt, merge_grids)
        (rw (merge_grids_lem xs (y ∷ ys) p q rx.1 ry)
          (ap ok (sym (diff_of-dec x xs (y ∷ ys) (lt, Over-mono x y ys lt ry.0)))))
  | no ge ↦ elim (dec_lt y x) [
    | yes gt ↦
        rw (choose-gt x y gt, merge_grids)
          (rw (merge_grids_lem (x ∷ xs) ys p q rx ry.1)
            (ap ok (sym (diff_of-inc y (x ∷ xs) ys (gt, Over-mono y x xs gt rx.0)))))
    | no le ↦
        let e : x ≡ y = omega arith in
        let same : merge_grids (array (x ∷ xs) p) (array (x ∷ ys) q)
            ≡ ok (diff_of (x ∷ xs) (x ∷ ys)) =
          rw (choose-eq x, merge_grids)
            (rw (merge_grids_lem xs ys p q rx.1 ry.1)
              (ap ok (sym (diff_of-both x xs ys rx.0 (rw e ry.0))))) in
        subst
          (λ z. merge_grids (array (x ∷ xs) p) (array (z ∷ ys) q) ≡ ok (diff_of (x ∷ xs) (z ∷ ys)))
          e same
  ]
]
