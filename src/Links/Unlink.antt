-- ===== src/Links/Unlink.antt =====
-- A node is taken out of the middle of a doubly linked list.
use mathlib.Core.Path.{subst}
use game_project.Base.{ℕ, ◌≡◌, ◌≢◌, refl, sym, ap, ◌∙◌, Option, none, some, List, [], ◌∷◌, ◌++◌}
use game_project.Links.{Links, put, set_next, set_prev, set_prev_if, unlink_from}
use game_project.Links.Chain.{
  Absent, IsDistinct, IsChain, IsChain-set_next, IsChain-set_prev, IsChain-set_prev_if, put-here,
  put-there, next-set_prev_if,
}

-- What is not in a list is not in its parts.
pub Absent-middle :
    (x a : ℕ) (ys zs : List ℕ) → Absent x (ys ++ (a ∷ zs)) → Absent x ys × (x ≢ a) × Absent x zs
Absent-middle x a [] zs o = (tt, o.0, o.1)
Absent-middle x a (y ∷ ys) zs o = let r = Absent-middle x a ys zs o.1 in ((o.0, r.0), r.1, r.2)

pub Absent-append : (x : ℕ) (ys zs : List ℕ) → Absent x ys → Absent x zs → Absent x (ys ++ zs)
Absent-append x [] zs o p = p
Absent-append x (y ∷ ys) zs o p = (o.0, Absent-append x ys zs o.1 p)

pub prev-set_prev_if :
    (l : Links) (h v : Option ℕ) (x : ℕ) → h ≢ some x → (set_prev_if h v l).prev x ≡ l.prev x
prev-set_prev_if l none v x ne = refl
prev-set_prev_if l (some h) v x ne = put-there h x v l.prev (λ e. ne (ap some e))

pub head-Absent :
    (l : Links) (before head : Option ℕ) (x : ℕ) (zs : List ℕ)
    → IsChain l before head zs
    → Absent x zs
    → head ≢ some x
head-Absent l before head x [] c o e = let q : none ≡ some x = sym c ∙ e in cc
head-Absent l before head x (z ∷ zs) c o e =
    let q : some z ≡ some x = sym c.0 ∙ e in o.0 (let r : x ≡ z = cc in r)

-- The chain behind a node of a list.
pub IsChain-after :
    (l : Links) (a : ℕ) (zs : List ℕ) (b : ℕ) (before head : Option ℕ) (ys : List ℕ)
    → IsChain l before head (ys ++ (b ∷ a ∷ zs))
    → IsChain l (some a) (l.next a) zs
IsChain-after l a zs b before head [] c = c.2.2
IsChain-after l a zs b before head (y ∷ ys) c = IsChain-after l a zs b (some y) (l.next y) ys c.2

module _ (l : Links) (b a : ℕ) (zs : List ℕ) where
  abbrev bridged : Links
  bridged = set_prev_if (l.next a) (some b) (set_next b (l.next a) l)

  next-bridged : (x : ℕ) → bridged.next x ≡ put b (l.next a) l.next x
  next-bridged x = ap (λ f. f x) (next-set_prev_if (set_next b (l.next a) l) (l.next a) (some b))

  bridged-IsChain :
      (before head : Option ℕ) (ys : List ℕ)
      → IsDistinct (ys ++ (b ∷ a ∷ zs))
      → IsChain l before head (ys ++ (b ∷ a ∷ zs))
      → (l.prev a ≡ some b) × (b ≢ a) × IsChain bridged before head (ys ++ (b ∷ zs))
  bridged-IsChain before head [] d c =
      let behind = c.2.2 in
      let gone : Absent b zs = d.0.1 in
      (
        c.2.1,
        d.0.0,
        (
          c.0,
          (prev-set_prev_if (set_next b (l.next a) l) (l.next a) (some b) b
                (head-Absent l (some a) (l.next a) b zs behind gone))
              ∙ c.1,
          subst (λ z. IsChain bridged (some b) z zs)
              (sym (next-bridged b ∙ put-here b (l.next a) l.next))
              (IsChain-set_prev_if (set_next b (l.next a) l) (some b) (some a) (l.next a) zs d.1.1
                (IsChain-set_next l b (l.next a) (some a) (l.next a) zs gone behind)),
        ),
      )
  bridged-IsChain before head (x ∷ ys) d c =
      let m = Absent-middle x b ys (a ∷ zs) d.0 in
      let r = bridged-IsChain (some x) (l.next x) ys d.1 c.2 in
      let behind = IsChain-after l a zs b (some x) (l.next x) ys c.2 in
      let n = next-bridged x ∙ put-there b x (l.next a) l.next (λ e. m.1 (sym e)) in
      (
        r.0,
        r.1,
        (
          c.0,
          prev-set_prev_if (set_next b (l.next a) l) (l.next a) (some b) x
                (head-Absent l (some a) (l.next a) x zs behind m.2.1)
              ∙ c.1,
          subst (λ z. IsChain bridged (some x) z (ys ++ (b ∷ zs))) (sym n) r.2,
        ),
      )

  -- In a list of distinct nodes, the code's unlinking takes the node out and keeps the others.
  pub unlink_from-IsChain :
      (before head : Option ℕ) (ys : List ℕ)
      → IsDistinct (ys ++ (b ∷ a ∷ zs))
      → IsChain l before head (ys ++ (b ∷ a ∷ zs))
      → (l.prev a ≡ some b) × IsChain (unlink_from b a l) before head (ys ++ (b ∷ zs))
  unlink_from-IsChain before head ys d c =
      let r = bridged-IsChain before head ys d c in
      (
        r.0,
        subst (λ z. IsChain z before head (ys ++ (b ∷ zs)))
            (ap (λ z. set_prev_if z (some b) (set_next b (l.next a) l))
                (sym (put-there b a (l.next a) l.next r.1))
              ∙ ap (λ z. set_prev_if (put b (l.next a) l.next a) z (set_next b (l.next a) l))
                  (sym r.0))
            r.2,
      )

-- A node is put before the head of a list, which is told of it last.
pub push_told-IsChain :
    (l : Links) (a : ℕ) (head : Option ℕ) (xs : List ℕ)
    → Absent a xs
    → IsDistinct xs
    → IsChain l none head xs
    → IsChain
        (set_prev_if head (some a) (set_prev a none (set_next a head l)))
        none
        (some a)
        (a ∷ xs)
push_told-IsChain l a head xs o d c =
    let l' = set_prev a none (set_next a head l) in
    let n = ap (λ f. f a) (next-set_prev_if l' head (some a)) ∙ put-here a head l.next in
    (
      refl,
      prev-set_prev_if l' head (some a) a (head-Absent l none head a xs c o)
          ∙ put-here a none l.prev,
      subst (λ z. IsChain (set_prev_if head (some a) l') (some a) z xs) (sym n)
          (IsChain-set_prev_if l' (some a) none head xs d (
            IsChain-set_prev (set_next a head l) a none none head xs o
              (IsChain-set_next l a head none head xs o c))),
    )
