-- ===== src/Scene/Cell.antt =====
-- Which cell has an object.
use mathlib.Core.Path.{subst}
use game_project.Base.{
  ℕ, zero, suc, ◌<◌, ◌≤◌, ◌≡◌, ◌≢◌, refl, sym, ap, ◌∙◌, inl, inr, true, false, ◌||◌, some, List, [],
  ◌∷◌, ◌++◌, ◌==◌, Bool-cases, length, get_elem?, set, get_elem?-set_self, get_elem?-set_ne,
  ℕ_discrete, arith,
}
use game_project.Links.Chain.{Absent}
use game_project.Links.Bound.{IsBelow, IsBelow-mono}
use game_project.Grid.Merge.{member}

pub member-Absent : (a : ℕ) (xs : List ℕ) → Absent a xs → member a xs ≡ false
member-Absent a [] o = refl
member-Absent a (x ∷ xs) o = let ne = o.0 in ground (arith, member-Absent a xs o.1)

pub member-middle : (a : ℕ) (ys zs : List ℕ) → member a (ys ++ (a ∷ zs)) ≡ true
member-middle a [] zs = ground arith
member-middle a (y ∷ ys) zs = ground (arith, member-middle a ys zs)

pub member-without :
    (a b : ℕ) (ys zs : List ℕ) → b ≢ a → member b (ys ++ (a ∷ zs)) ≡ member b (ys ++ zs)
member-without a b [] zs ne = ground arith
member-without a b (y ∷ ys) zs ne = ap (λ z. b == y || z) (member-without a b ys zs ne)

-- A list that has an object is cut at it.
pub record Split (a : ℕ) (xs : List ℕ) : Type 0 where
  pub before : List ℕ
  pub behind : List ℕ
  pub whole : xs ≡ before ++ (a ∷ behind)

pub split : (a : ℕ) (xs : List ℕ) → member a xs ≡ true → Split a xs
split a [] h = cc
split a (x ∷ xs) h = elim (Bool-cases (a == x)) [
  | inl e ↦
      let q : x ≡ a = ground arith in
      record { before = []; behind = xs; whole = ap (λ z. z ∷ xs) q }
  | inr e ↦
      let r = split a xs (ap (λ z. z || member a xs) (sym e) ∙ h) in
      record { before = x ∷ r.before; behind = r.behind; whole = ap (λ z. x ∷ z) r.whole }
]

-- Some cell has the object.
pub record InMap (a : ℕ) (xss : List (List ℕ)) : Type 0 where
  pub cell : ℕ
  pub objects : List ℕ
  pub at : get_elem? xss cell ≡ some objects
  pub has : member a objects ≡ true

pub get_elem?-lt {ℓ} :
    {A : Type ℓ} (xs : List A) (n : ℕ) {x : A} → get_elem? xs n ≡ some x → n < length xs
get_elem?-lt [] n h = cc
get_elem?-lt (y ∷ xs) zero h = omega arith
get_elem?-lt (y ∷ xs) (suc n) h = omega (arith, get_elem?-lt xs n h)

-- A cell gets another list that has the object too, if it had it.
pub InMap-set :
    (b n : ℕ) (xss : List (List ℕ)) (xs ys : List ℕ)
    → get_elem? xss n ≡ some xs
    → (member b xs ≡ true → member b ys ≡ true)
    → InMap b xss
    → InMap b (set xss n ys)
InMap-set b n xss xs ys g keep m = elim (ℕ_discrete n m.cell) [
  | yes e ↦ record {
    cell = n;
    objects = ys;
    at = get_elem?-set_self xss n ys (get_elem?-lt xss n g);
    has =
        let q : some m.objects ≡ some xs = sym m.at ∙ ap (get_elem? xss) (sym e) ∙ g in
        let same : m.objects ≡ xs = cc in keep (ap (member b) (sym same) ∙ m.has);
  }
  | no ne ↦ record {
    cell = m.cell;
    objects = m.objects;
    at = get_elem?-set_ne xss ys ne ∙ m.at;
    has = m.has;
  }
]

-- Every object of the cells is one that was made.
abbrev pub AllBelow : ℕ → List (List ℕ) → Type 0
AllBelow n [] = Unit {0}
AllBelow n (xs ∷ xss) = IsBelow n xs × AllBelow n xss

pub AllBelow-get :
    (k n : ℕ) (xss : List (List ℕ)) (xs : List ℕ)
    → AllBelow k xss
    → get_elem? xss n ≡ some xs
    → IsBelow k xs
AllBelow-get k n [] xs b g = cc
AllBelow-get k zero (ys ∷ xss) xs b g = let e : ys ≡ xs = cc in subst (IsBelow k) e b.0
AllBelow-get k (suc n) (ys ∷ xss) xs b g = AllBelow-get k n xss xs b.1 g

pub AllBelow-set :
    (k n : ℕ) (xss : List (List ℕ)) (xs : List ℕ)
    → IsBelow k xs
    → AllBelow k xss
    → AllBelow k (set xss n xs)
AllBelow-set k n [] xs h b = tt
AllBelow-set k zero (ys ∷ xss) xs h b = (h, b.1)
AllBelow-set k (suc n) (ys ∷ xss) xs h b = (b.0, AllBelow-set k n xss xs h b.1)

pub AllBelow-mono : (k m : ℕ) (xss : List (List ℕ)) → k ≤ m → AllBelow k xss → AllBelow m xss
AllBelow-mono k m [] le b = tt
AllBelow-mono k m (xs ∷ xss) le b = (IsBelow-mono k m xs le b.0, AllBelow-mono k m xss le b.1)
