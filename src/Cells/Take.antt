-- ===== src/Cells/Take.antt =====
-- An object is taken out of a cell of the manager.
use game_project.Base.{
  ℕ, zero, suc, ◌+◌, ◌≡◌, refl, true, Option, some, List, [], ◌∷◌, ◌++◌, ok, ◌>>=◌, Ensures,
  Ensures-weaken, Ensures-bind, length, length-append, length-set, get_elem?, set, arith,
}
use game_project.Base.Int.{pos}
use game_project.Links.{Links}
use game_project.Links.Chain.{Absent}
use game_project.Links.Parts.{parts}
use game_project.Cells.{Cells, remove_object, get_grid_by_index, put_grid, remove_object_from_grid}
use game_project.Links.Bound.{IsBelow, length_of_IsBelow}
use game_project.Cells.Local.{IsLocal, AllAt, AllAt-Absent}
use game_project.Cells.Remove.{Removed, remove_object-Removed}
use game_project.Cells.Stand.{AreCells, AreCells-get, AreCells-set, AbsentAll, AreCells-Absent}
use game_project.Cells.Add.{IsFree}

-- An object that is out of its cell is in no other.
AbsentAll-set :
    (l : Links) (cell : ℕ → ℕ) (a i n k : ℕ) (hs : List (Option ℕ)) (xss : List (List ℕ))
    (xs : List ℕ)
    → i + n ≡ k
    → cell a ≡ k
    → Absent a xs
    → AreCells l cell i hs xss
    → AbsentAll a (set xss n xs)
AbsentAll-set l cell a i n k [] [] xs e m o c = tt
AbsentAll-set l cell a i n k [] (zs ∷ xss) xs e m o c = elim c [ ]
AbsentAll-set l cell a i n k (g ∷ hs) [] xs e m o c = tt
AbsentAll-set l cell a i zero k (g ∷ hs) (zs ∷ xss) xs e m o c =
    (o, AreCells-Absent l cell a (i + 1) hs xss (omega arith) c.1)
AbsentAll-set l cell a i (suc n) k (g ∷ hs) (zs ∷ xss) xs e m o c = (
  AllAt-Absent cell i a zs c.0.2 (λ q. absurd (omega arith)),
  AbsentAll-set l cell a (i + 1) n k hs xss xs (omega arith) m o c.1,
)

pub AllAt-middle :
    (cell : ℕ → ℕ) (k a : ℕ) (ys zs : List ℕ)
    → AllAt cell k (ys ++ (a ∷ zs))
    → (cell a ≡ k) × AllAt cell k (ys ++ zs)
AllAt-middle cell k a [] zs h = h
AllAt-middle cell k a (y ∷ ys) zs h = let r = AllAt-middle cell k a ys zs h.1 in (r.0, (h.0, r.1))

remove_object_from_grid-at :
    (a n : ℕ) (h : Option ℕ) (c : Cells)
    → get_elem? c.heads n ≡ some h
    → remove_object_from_grid a (pos n) c
      ≡ (remove_object (c.made + 1) a h c.links >>= λ r. ok (true, put_grid n r c))
unfolding remove_object_from_grid get_grid_by_index
remove_object_from_grid-at a n h c e = rw (e, get_grid_by_index) refl

-- The cells `u` once the object is out of the cell `n`, where it stood between `ys` and `zs`: the list
-- keeps its other objects in their order, all other lists stay as they are, and the object is in no
-- list and has links that are NULL.
pub record Taken (cell : ℕ → ℕ) (a n : ℕ) (c : Cells) (xss : List (List ℕ)) (ys zs : List ℕ)
    (u : Cells) : Type 0 where
  pub cells : AreCells u.links cell 0 u.heads (set xss n (ys ++ zs))
  pub absent : AbsentAll a (set xss n (ys ++ zs))
  pub free : IsFree a u.links
  pub local : IsLocal c.links u.links (ys ++ (a ∷ zs))
  pub made : u.made ≡ c.made
  pub heads : length u.heads ≡ length c.heads

-- `RemoveObject` does so in the cell, whose m_pHead is `h`.
pub remove_object-Taken :
    (cell : ℕ → ℕ) (a n : ℕ) (c : Cells) (xss : List (List ℕ)) (ys zs : List ℕ)
    → AreCells c.links cell 0 c.heads xss
    → get_elem? xss n ≡ some (ys ++ (a ∷ zs))
    → IsBelow c.made (ys ++ (a ∷ zs))
    → (h : Option ℕ) × (get_elem? c.heads n ≡ some h)
      × Ensures
          (λ r. Taken cell a n c xss ys zs (put_grid n r c))
          (remove_object (c.made + 1) a h c.links)
remove_object-Taken cell a n c xss ys zs s g below =
    let old = ys ++ (a ∷ zs) in
    let (h, e, d) = AreCells-get c.links cell 0 n n c.heads xss old (omega arith) s g in
    let len = length_of_IsBelow c.made old below d.1 in
    let m = AllAt-middle cell n a ys zs d.2 in
    let p = parts a ys zs d.1 in
    (
      h,
      e,
      Ensures-weaken (Removed a c.links old (ys ++ zs)) _ (remove_object (c.made + 1) a h c.links)
          (remove_object-Removed (c.made + 1) a c.links h ys zs
            (omega (arith, length-append ys (a ∷ zs))) d.1 d.0)
          (λ r q. record {
            cells =
                AreCells-set c.links r.1 cell 0 n n c.heads xss old (ys ++ zs) r.0 (omega arith)
                  q.local d.2 (q.chain, p.0, m.1) s;
            absent =
                AbsentAll-set c.links cell a 0 n n c.heads xss (ys ++ zs) (omega arith) m.0 p.1 s;
            free = q.free;
            local = q.local;
            made = refl;
            heads = length-set c.heads n r.0;
          }),
    )

-- `RemoveObjectFromGrid` for an object of the cell, wherever it stands in the cell's list, returns
-- TRUE, and no ASSERT fails. The list keeps its other objects in their order, all other lists stay
-- as they are, and the object is in no list and has links that are NULL.
pub remove_object_from_grid-Taken :
    (cell : ℕ → ℕ) (a n : ℕ) (c : Cells) (xss : List (List ℕ)) (ys zs : List ℕ)
    → AreCells c.links cell 0 c.heads xss
    → get_elem? xss n ≡ some (ys ++ (a ∷ zs))
    → IsBelow c.made (ys ++ (a ∷ zs))
    → Ensures
        (λ (b, u). (b ≡ true) × Taken cell a n c xss ys zs u)
        (remove_object_from_grid a (pos n) c)
remove_object_from_grid-Taken cell a n c xss ys zs s g below =
    let (h, e, p) = remove_object-Taken cell a n c xss ys zs s g below in
    rw (remove_object_from_grid-at a n h c e) (
      Ensures-bind _ _ (remove_object (c.made + 1) a h c.links) (λ r. ok (true, put_grid n r c)) p
        (λ r q. (refl, q)))
