-- ===== src/Cells/Remove.antt =====
-- An object that is removed from a cell, wherever it stands in the list.
use mathlib.Core.Path.{subst}
use mathlib.Core.List.{append_assoc}
use game_project.Base.{
  ℕ, zero, suc, ◌+◌, ◌<◌, ◌≡◌, ◌≢◌, refl, sym, ap, ◌∙◌, inl, inr, true, false, Option, none, some,
  List, [], ◌∷◌, ◌++◌, ok, ◌>>=◌, Ensures, ◌==◌, length, length-append, arith,
}
use game_project.Links.{Links, set_next, set_prev, set_prev_if, unlink_from}
use game_project.Links.Chain.{
  Absent, IsDistinct, IsChain, put-here, put-there, next-set_prev_if, pop-IsChain, IsChain-set_next,
  IsChain-set_prev,
}
use game_project.Links.Unlink.{
  Absent-append, Absent-middle, head-Absent, prev-set_prev_if, IsChain-after, unlink_from-IsChain,
}
use game_project.Links.Parts.{not_first, after-distinct, last_node}
use game_project.Cells.{
  bridge_over, check_next, walk_back, remove_first, remove_behind, remove_object,
}
use game_project.Cells.Local.{IsLocal}
use game_project.Cells.Add.{IsFree}

next-before :
    (l : Links) (a p : ℕ) (before head : Option ℕ) (ys zs : List ℕ)
    → IsChain l before head (ys ++ (p ∷ a ∷ zs))
    → (l.next p ≡ some a) × (l.prev a ≡ some p)
next-before l a p before head [] zs c = (c.2.0, c.2.1)
next-before l a p before head (y ∷ ys) zs c = next-before l a p (some y) (l.next y) ys zs c.2

-- The walk back ends at the first object, and takes no more rounds than objects stand before.
walk_back-first :
    (fuel a : ℕ) (l : Links) (head : Option ℕ) (ys zs : List ℕ)
    → length ys < fuel
    → IsChain l none head (ys ++ (a ∷ zs))
    → (t : ℕ) × (walk_back fuel a l ≡ ok t) × (head ≡ some t)
unfolding walk_back
walk_back-first zero a l head ys zs lt c = absurd (omega arith)
walk_back-first (suc fuel) a l head ys zs lt c = elim (last_node ys) [
  | inl e ↦
      let d = subst (λ z. IsChain l none head (z ++ (a ∷ zs))) e c in
      (a, rw (d.1, walk_back) refl, d.0)
  | inr (xs, p, e) ↦
      let d : IsChain l none head (xs ++ (p ∷ a ∷ zs)) =
        subst (IsChain l none head) (append_assoc xs (p ∷ []) (a ∷ zs))
          (subst (λ z. IsChain l none head (z ++ (a ∷ zs))) e c) in
      let n = next-before l a p none head xs zs d in
      let (t, w, h) =
        walk_back-first fuel p l head xs (a ∷ zs)
          (omega (arith, ap length e, length-append xs (p ∷ []))) d in
      (t, rw (n.1, walk_back) w, h)
]

-- What a removal leaves: the list `new` in place of `old`, and the object's links NULL.
pub record Removed (a : ℕ) (l : Links) (old new : List ℕ) (r : Option ℕ × Links) : Type 0 where
  pub chain : IsChain r.1 none r.0 new
  pub local : IsLocal l r.1 old
  pub free : IsFree a r.1

-- The last two writes of `RemoveObject`.
abbrev cleared : ℕ → Links → Links
cleared a l = set_prev a none (set_next a none l)

cleared-there :
    (a x : ℕ) (l : Links)
    → a ≢ x
    → ((cleared a l).next x ≡ l.next x) × ((cleared a l).prev x ≡ l.prev x)
cleared-there a x l ne = (put-there a x none l.next ne, put-there a x none l.prev ne)

cleared-IsFree : (a : ℕ) (l : Links) → IsFree a (cleared a l)
cleared-IsFree a l = (put-here a none l.next, put-here a none l.prev)

check_next-ok :
    (a : ℕ) (l : Links) (head : Option ℕ) (zs : List ℕ)
    → IsChain l (some a) head zs
    → check_next a head l ≡ ok tt
check_next-ok a l head [] c = rw c refl
check_next-ok a l head (z ∷ zs) c =
    let same : (a == a) ≡ true = ground arith in rw c.0 (rw c.1 (rw same refl))

Removed-first :
    (a : ℕ) (l : Links) (zs : List ℕ)
    → IsDistinct (a ∷ zs)
    → IsChain l none (some a) (a ∷ zs)
    → Removed a l (a ∷ zs) zs (l.next a, cleared a (set_prev_if (l.next a) none l))
Removed-first a l zs d c = record {
  chain = pop-IsChain l a zs d c;
  local = λ x o.
      let l' = set_prev_if (l.next a) none l in
      let t = cleared-there a x l' (λ e. o.0 (sym e)) in
      (
        t.0 ∙ ap (λ f. f x) (next-set_prev_if l (l.next a) none),
        t.1 ∙ prev-set_prev_if l (l.next a) none x (head-Absent l (some a) (l.next a) x zs c.2 o.1),
      );
  free = cleared-IsFree a (set_prev_if (l.next a) none l);
}

unlink_from-IsLocal :
    (p a x : ℕ) (l : Links) (before head : Option ℕ) (xs zs : List ℕ)
    → p ≢ a
    → IsChain l before head (xs ++ (p ∷ a ∷ zs))
    → Absent x (xs ++ (p ∷ a ∷ zs))
    → ((unlink_from p a l).next x ≡ l.next x) × ((unlink_from p a l).prev x ≡ l.prev x)
unlink_from-IsLocal p a x l before head xs zs ne c o =
    let m = Absent-middle x p xs (a ∷ zs) o in
    let l' = set_next p (l.next a) l in
    let same = put-there p a (l.next a) l.next ne in
    let behind = IsChain-after l a zs p before head xs c in
    (
      ap (λ f. f x) (next-set_prev_if l' (l'.next a) (l'.prev a))
          ∙ put-there p x (l.next a) l.next (λ e. m.1 (sym e)),
      prev-set_prev_if l' (l'.next a) (l'.prev a) x
          (λ e. head-Absent l (some a) (l.next a) x zs behind m.2.1 (sym same ∙ e)),
    )

apart-behind :
    (a p : ℕ) (xs zs : List ℕ)
    → IsDistinct (xs ++ (p ∷ a ∷ zs))
    → Absent a (xs ++ (p ∷ zs)) × IsDistinct (xs ++ (p ∷ zs))
apart-behind a p [] zs d = (((λ e. d.0.0 (sym e)), d.1.0), (d.0.1, d.1.1))
apart-behind a p (x ∷ xs) zs d =
    let m = Absent-middle x p xs (a ∷ zs) d.0 in
    let r = apart-behind a p xs zs d.1 in
    (((λ e. m.2.0 (sym e)), r.0), (Absent-append x xs (p ∷ zs) m.0 (m.1, m.2.1), r.1))

Removed-behind :
    (a p : ℕ) (l : Links) (head : Option ℕ) (xs zs : List ℕ)
    → IsDistinct (xs ++ (p ∷ a ∷ zs))
    → IsChain l none head (xs ++ (p ∷ a ∷ zs))
    → IsChain (cleared a (unlink_from p a l)) none head (xs ++ (p ∷ zs))
      × IsLocal l (cleared a (unlink_from p a l)) (xs ++ (p ∷ a ∷ zs))
Removed-behind a p l head xs zs d c =
    let u = unlink_from-IsChain l p a zs none head xs d c in
    let ab = (apart-behind a p xs zs d).0 in
    (
      IsChain-set_prev _ a none none head (xs ++ (p ∷ zs)) ab
          (IsChain-set_next _ a none none head (xs ++ (p ∷ zs)) ab u.1),
      λ x o.
          let m = Absent-middle x p xs (a ∷ zs) o in
          let t = cleared-there a x (unlink_from p a l) (λ e. m.2.0 (sym e)) in
          let r = unlink_from-IsLocal p a x l none head xs zs (after-distinct a p xs zs d) c o in
          (t.0 ∙ r.0, t.1 ∙ r.1),
    )

remove_object-first :
    (fuel a : ℕ) (l : Links) (zs : List ℕ)
    → IsChain l none (some a) (a ∷ zs)
    → remove_object fuel a (some a) l ≡ ok (l.next a, cleared a (set_prev_if (l.next a) none l))
unfolding remove_object remove_first
remove_object-first fuel a l zs c =
    let same : (a == a) ≡ true = ground arith in
    rw same (rw (check_next-ok a l (l.next a) zs c.2) refl)

remove_object-behind :
    (fuel a p h : ℕ) (l : Links)
    → (h == a) ≡ false
    → walk_back fuel a l ≡ ok h
    → l.prev a ≡ some p
    → l.next p ≡ some a
    → remove_object fuel a (some h) l ≡ ok (some h, cleared a (unlink_from p a l))
unfolding remove_object remove_behind
remove_object-behind fuel a p h l ne w e f =
    let same : (a == a) ≡ true = ground arith in
    let top : (h == h) ≡ true = ground arith in
    let b : bridge_over a (some h) l (l.prev a) ≡ ok (some h, unlink_from p a l) =
      ap (bridge_over a (some h) l) e ∙ rw f (rw same refl) in
    rw ne (rw (w, top) (ap (λ z. z >>= λ (h', l'). ok (h', cleared a l')) b))

Removes-first :
    (fuel a : ℕ) (l : Links) (head : Option ℕ) (zs : List ℕ)
    → IsDistinct (a ∷ zs)
    → IsChain l none head (a ∷ zs)
    → Ensures (Removed a l (a ∷ zs) zs) (remove_object fuel a head l)
Removes-first fuel a l head zs d c =
    let k : IsChain l none (some a) (a ∷ zs) = (refl, c.1, c.2) in
    subst (λ h. Ensures (Removed a l (a ∷ zs) zs) (remove_object fuel a h l)) (sym c.0)
      (subst (Ensures (Removed a l (a ∷ zs) zs)) (sym (remove_object-first fuel a l zs k))
        (Removed-first a l zs d k))

Removes-later :
    (fuel a p : ℕ) (l : Links) (head : Option ℕ) (xs zs : List ℕ)
    → length xs + 1 < fuel
    → IsDistinct (xs ++ (p ∷ a ∷ zs))
    → IsChain l none head (xs ++ (p ∷ a ∷ zs))
    → Ensures (Removed a l (xs ++ (p ∷ a ∷ zs)) (xs ++ (p ∷ zs))) (remove_object fuel a head l)
Removes-later fuel a p l head xs zs lt d c =
    let P = Removed a l (xs ++ (p ∷ a ∷ zs)) (xs ++ (p ∷ zs)) in
    let (h, e, ne) = not_first l head a p xs zs d c in
    let n = next-before l a p none head xs zs c in
    let swap = append_assoc xs (p ∷ []) (a ∷ zs) in
    let (t, w, q) =
      walk_back-first fuel a l head (xs ++ (p ∷ [])) zs (omega (arith, length-append xs (p ∷ [])))
        (subst (IsChain l none head) (sym swap) c) in
    let same : t ≡ h = let r : some t ≡ some h = sym q ∙ e in cc in
    let r = Removed-behind a p l head xs zs d c in
    subst (λ z. Ensures P (remove_object fuel a z l)) (sym e)
      (subst (Ensures P) (sym (remove_object-behind fuel a p h l ne (w ∙ ap ok same) n.1 n.0))
        (record {
          chain =
              subst (λ z. IsChain (cleared a (unlink_from p a l)) none z (xs ++ (p ∷ zs))) e r.0;
          local = r.1;
          free = cleared-IsFree a (unlink_from p a l);
        }))

pub remove_object-Removed :
    (fuel a : ℕ) (l : Links) (head : Option ℕ) (ys zs : List ℕ)
    → length ys < fuel
    → IsDistinct (ys ++ (a ∷ zs))
    → IsChain l none head (ys ++ (a ∷ zs))
    → Ensures (Removed a l (ys ++ (a ∷ zs)) (ys ++ zs)) (remove_object fuel a head l)
remove_object-Removed fuel a l head ys zs lt d c =
    let Goal = λ (old new : List ℕ). Ensures (Removed a l old new) (remove_object fuel a head l) in
    elim (last_node ys) [
      | inl e ↦
          subst (λ z. Goal (z ++ (a ∷ zs)) (z ++ zs)) (sym e)
            (Removes-first fuel a l head zs (subst (λ z. IsDistinct (z ++ (a ∷ zs))) e d)
              (subst (λ z. IsChain l none head (z ++ (a ∷ zs))) e c))
      | inr (xs, p, e) ↦
          let old : ys ++ (a ∷ zs) ≡ xs ++ (p ∷ a ∷ zs) =
            ap (λ z. z ++ (a ∷ zs)) e ∙ append_assoc xs (p ∷ []) (a ∷ zs) in
          let new : ys ++ zs ≡ xs ++ (p ∷ zs) = ap (λ z. z ++ zs) e ∙ append_assoc xs (p ∷ []) zs in
          subst (λ z. Goal z (ys ++ zs)) (sym old)
            (subst (Goal (xs ++ (p ∷ a ∷ zs))) (sym new) (
              Removes-later fuel a p l head xs zs
                (omega (arith, ap length e, length-append xs (p ∷ []))) (subst IsDistinct old d)
                (subst (IsChain l none head) old c)))
    ]
