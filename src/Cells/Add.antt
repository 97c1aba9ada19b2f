-- ===== src/Cells/Add.antt =====
-- An object that is added to a cell is the first of its list.
use mathlib.Core.Path.{subst}
use game_project.Base.{
  ℕ, zero, suc, true, ◌≡◌, refl, sym, ap, ◌∙◌, Option, none, some, List, [], ◌∷◌, ok, Ensures,
  length, length-set, get_elem?, set, arith,
}
use game_project.Base.Int.{pos}
use game_project.Links.{Links, set_next, set_prev, set_prev_if}
use game_project.Links.Chain.{Absent, IsChain, put-there, next-set_prev_if}
use game_project.Links.Unlink.{head-Absent, prev-set_prev_if, push_told-IsChain}
use game_project.Cells.{Cells, add_object, get_grid_by_index, put_grid, add_object_to_grid}
use game_project.Cells.Local.{IsLocal, mark, AllAt-mark}
use game_project.Cells.Stand.{AreCells, AbsentAll, AreCells-get, AreCells-set, AreCells-mark}

abbrev pub pushed : ℕ → Option ℕ → Links → Links
pushed a head l = set_prev_if head (some a) (set_prev a none (set_next a head l))

-- The object's two links are NULL before.
abbrev pub IsFree : ℕ → Links → Type 0
IsFree a l = (l.next a ≡ none) × (l.prev a ≡ none)

pub add_object-pushed :
    (a : ℕ) (head : Option ℕ) (l : Links)
    → IsFree a l
    → add_object a head l ≡ ok (some a, pushed a head l)
unfolding add_object
add_object-pushed a none l f = rw (f.0, f.1) refl
add_object-pushed a (some h) l f = rw (f.0, f.1) refl

pushed-IsLocal :
    (a : ℕ) (head : Option ℕ) (l : Links) (xs : List ℕ)
    → IsChain l none head xs
    → IsLocal l (pushed a head l) (a ∷ xs)
pushed-IsLocal a head l xs c x o =
    let l' = set_prev a none (set_next a head l) in
    (
      ap (λ f. f x) (next-set_prev_if l' head (some a))
          ∙ put-there a x head l.next (λ e. o.0 (sym e)),
      prev-set_prev_if l' head (some a) x (head-Absent l none head x xs c o.1)
          ∙ put-there a x none l.prev (λ e. o.0 (sym e)),
    )

pub AbsentAll-get :
    (a n : ℕ) (xss : List (List ℕ)) (xs : List ℕ)
    → AbsentAll a xss
    → get_elem? xss n ≡ some xs
    → Absent a xs
AbsentAll-get a n [] xs o g = cc
AbsentAll-get a zero (ys ∷ xss) xs o g = let e : ys ≡ xs = cc in subst (Absent a) e o.0
AbsentAll-get a (suc n) (ys ∷ xss) xs o g = AbsentAll-get a n xss xs o.1 g

add_object_to_grid-pushed :
    (a n : ℕ) (h : Option ℕ) (c : Cells)
    → get_elem? c.heads n ≡ some h
    → IsFree a c.links
    → add_object_to_grid a (pos n) c ≡ ok (true, put_grid n (some a, pushed a h c.links) c)
unfolding add_object_to_grid get_grid_by_index
add_object_to_grid-pushed a n h c e f =
    rw (e, get_grid_by_index) (rw (add_object-pushed a h c.links f) refl)

-- The cells `u` once the object is put into the cell `n`, which held `xs`: it is the first there, and
-- all other lists stay as they are.
pub record Put (cell : ℕ → ℕ) (a n : ℕ) (c : Cells) (xss : List (List ℕ)) (xs : List ℕ) (u : Cells)
    : Type 0 where
  pub cells : AreCells u.links (mark a n cell) 0 u.heads (set xss n (a ∷ xs))
  pub local : IsLocal c.links u.links (a ∷ xs)
  pub made : u.made ≡ c.made
  pub heads : length u.heads ≡ length c.heads

-- `AddObject` does so in a cell whose m_pHead is `h`, if no cell has the object.
pub pushed-Put :
    (cell : ℕ → ℕ) (a n : ℕ) (c : Cells) (xss : List (List ℕ)) (xs : List ℕ)
    → AreCells c.links cell 0 c.heads xss
    → get_elem? xss n ≡ some xs
    → AbsentAll a xss
    → (h : Option ℕ) × (get_elem? c.heads n ≡ some h)
      × Put cell a n c xss xs (put_grid n (some a, pushed a h c.links) c)
pushed-Put cell a n c xss xs s g o =
    let (h, e, d) = AreCells-get c.links cell 0 n n c.heads xss xs (omega arith) s g in
    let ab = AbsentAll-get a n xss xs o g in
    let loc = pushed-IsLocal a h c.links xs d.0 in
    let m = AllAt-mark cell a n n xs ab d.2 in
    let here : mark a n cell a ≡ n = ground arith in
    (
      h,
      e,
      record {
        cells =
            AreCells-set c.links (pushed a h c.links) (mark a n cell) 0 n n c.heads xss (a ∷ xs)
              (a ∷ xs) (some a) (omega arith) loc (here, m)
              (push_told-IsChain c.links a h xs ab d.1 d.0, (ab, d.1), (here, m))
              (AreCells-mark c.links cell a n 0 c.heads xss o s);
        local = loc;
        made = refl;
        heads = length-set c.heads n (some a);
      },
    )

-- `AddObjectToGrid` for an object that no cell has and whose links are NULL returns TRUE, and no
-- ASSERT fails. The object is then the first of its cell, and all other lists stay as they are.
pub add_object_to_grid-Put :
    (cell : ℕ → ℕ) (a n : ℕ) (c : Cells) (xss : List (List ℕ)) (xs : List ℕ)
    → AreCells c.links cell 0 c.heads xss
    → get_elem? xss n ≡ some xs
    → IsFree a c.links
    → AbsentAll a xss
    → Ensures (λ (b, u). (b ≡ true) × Put cell a n c xss xs u) (add_object_to_grid a (pos n) c)
add_object_to_grid-Put cell a n c xss xs s g f o =
    let (h, e, p) = pushed-Put cell a n c xss xs s g o in
    rw (add_object_to_grid-pushed a n h c e f) (refl, p)
