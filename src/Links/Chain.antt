-- ===== src/Links/Chain.antt =====
-- A doubly linked list holds a sequence of nodes, each once.
use mathlib.Core.Path.{subst}
use game_project.Base.{ℕ, ◌≡◌, ◌≢◌, refl, sym, ap, ◌∙◌, Option, none, some, List, [], ◌∷◌, arith}
use game_project.Links.{Links, put, set_next, set_prev, set_prev_if, push_front}

-- `a` is not in the list.
abbrev pub Absent : ℕ → List ℕ → Type 0
Absent a [] = Unit {0}
Absent a (x ∷ xs) = (a ≢ x) × Absent a xs

abbrev pub IsDistinct : List ℕ → Type 0
IsDistinct [] = Unit {0}
IsDistinct (x ∷ xs) = Absent x xs × IsDistinct xs

-- From `head` on the links go through the list, and each node points back at the one before it.
abbrev pub IsChain : Links → Option ℕ → Option ℕ → List ℕ → Type 0
IsChain l before head [] = head ≡ none
IsChain l before head (x ∷ xs) =
    (head ≡ some x) × (l.prev x ≡ before) × IsChain l (some x) (l.next x) xs

pub put-here : (a : ℕ) (v : Option ℕ) (f : ℕ → Option ℕ) → put a v f a ≡ v
put-here a v f = ground arith

pub put-there : (a b : ℕ) (v : Option ℕ) (f : ℕ → Option ℕ) → a ≢ b → put a v f b ≡ f b
put-there a b v f ne = ground arith

-- A write to a node outside a list leaves the list alone.
pub IsChain-set_next :
    (l : Links) (a : ℕ) (v before head : Option ℕ) (xs : List ℕ)
    → Absent a xs
    → IsChain l before head xs
    → IsChain (set_next a v l) before head xs
IsChain-set_next l a v before head [] o c = c
IsChain-set_next l a v before head (x ∷ xs) o c = (
  c.0,
  c.1,
  rw (put-there a x v l.next o.0) (IsChain-set_next l a v (some x) (l.next x) xs o.1 c.2),
)

pub IsChain-set_prev :
    (l : Links) (a : ℕ) (v before head : Option ℕ) (xs : List ℕ)
    → Absent a xs
    → IsChain l before head xs
    → IsChain (set_prev a v l) before head xs
IsChain-set_prev l a v before head [] o c = c
IsChain-set_prev l a v before head (x ∷ xs) o c =
    (c.0, put-there a x v l.prev o.0 ∙ c.1, IsChain-set_prev l a v (some x) (l.next x) xs o.1 c.2)

-- The head of a list gets another predecessor.
pub IsChain-set_prev_if :
    (l : Links) (v before head : Option ℕ) (xs : List ℕ)
    → IsDistinct xs
    → IsChain l before head xs
    → IsChain (set_prev_if head v l) v head xs
IsChain-set_prev_if l v before head [] d c = rw c refl
IsChain-set_prev_if l v before head (x ∷ xs) d c =
    subst (λ h. IsChain (set_prev_if h v l) v h (x ∷ xs)) (sym c.0)
      (refl, put-here x v l.prev, IsChain-set_prev l x v (some x) (l.next x) xs d.0 c.2)

pub next-set_prev_if : (l : Links) (head v : Option ℕ) → (set_prev_if head v l).next ≡ l.next
next-set_prev_if l none v = refl
next-set_prev_if l (some a) v = refl

next-push_front : (l : Links) (a : ℕ) (head : Option ℕ) → (push_front a head l).next a ≡ head
next-push_front l a head =
    rw (next-set_prev_if (set_next a head l) head (some a)) (put-here a head l.next)

-- A push writes to the node and to the head alone.
pub push_front-outside :
    (l : Links) (a b : ℕ) (head : Option ℕ)
    → a ≢ b
    → head ≢ some b
    → ((push_front a head l).next b ≡ l.next b) × ((push_front a head l).prev b ≡ l.prev b)
push_front-outside l a b none ne nh = (put-there a b none l.next ne, put-there a b none l.prev ne)
push_front-outside l a b (some h) ne nh = (
  put-there a b (some h) l.next ne,
  put-there a b none (put h (some a) l.prev) ne
      ∙ put-there h b (some a) l.prev (λ e. nh (ap some e)),
)

-- A node that is pushed on a list stands at its head.
pub push_front-IsChain :
    (l : Links) (a : ℕ) (before head : Option ℕ) (xs : List ℕ)
    → Absent a xs
    → IsDistinct xs
    → IsChain l before head xs
    → IsChain (push_front a head l) none (some a) (a ∷ xs)
push_front-IsChain l a before head xs o d c =
    let l' = set_prev_if head (some a) (set_next a head l) in
    (
      refl,
      put-here a none l'.prev,
      rw (next-push_front l a head) (
          IsChain-set_prev l' a none (some a) head xs o (
            IsChain-set_prev_if (set_next a head l) (some a) before head xs d
              (IsChain-set_next l a head before head xs o c))),
    )

-- What is left of a list when its first node is taken off.
pub pop-IsChain :
    (l : Links) (x : ℕ) (xs : List ℕ)
    → IsDistinct (x ∷ xs)
    → IsChain l none (some x) (x ∷ xs)
    → IsChain (set_prev x none (set_next x none (set_prev_if (l.next x) none l))) none (l.next x) xs
pop-IsChain l x xs d c = IsChain-set_prev _ x none none (l.next x) xs d.0 (
    IsChain-set_next _ x none none (l.next x) xs d.0
      (IsChain-set_prev_if l none (some x) (l.next x) xs d.1 c.2))

-- A pointer is NULL or points outside of the list.
abbrev pub IsApart : Option ℕ → List ℕ → Type 0
IsApart none xs = Unit {0}
IsApart (some f) xs = Absent f xs

pub IsChain-set_prev_apart :
    (l : Links) (free v before head : Option ℕ) (xs : List ℕ)
    → IsApart free xs
    → IsChain l before head xs
    → IsChain (set_prev_if free v l) before head xs
IsChain-set_prev_apart l none v before head xs a c = c
IsChain-set_prev_apart l (some f) v before head xs a c = IsChain-set_prev l f v before head xs a c
