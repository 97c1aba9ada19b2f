-- ===== src/DataBuffer/Lists.antt =====
-- Each buffer is in use or free, and stands once in the list of its kind.
use game_project.Base.{ℕ, sym, Option, none, List, [], ◌∷◌, ◌++◌}
use game_project.Links.{Links}
use game_project.Links.Chain.{Absent, IsDistinct, IsChain, IsApart}
use game_project.Links.Bound.{IsBelow}
use game_project.DataBuffer.{BufferManager}

-- No buffer stands in both lists.
abbrev pub AreApart : List ℕ → List ℕ → Type 0
AreApart [] fs = Unit {0}
AreApart (u ∷ us) fs = Absent u fs × AreApart us fs

pub record Buffers (m : BufferManager) (us fs : List ℕ) : Type 0 where
  pub used : IsChain m.links none m.used_list us
  pub free : IsChain m.links none m.free_list fs
  pub distinct_used : IsDistinct us
  pub distinct_free : IsDistinct fs
  pub apart : AreApart us fs
  pub made_used : IsBelow m.made us
  pub made_free : IsBelow m.made fs

pub AreApart-middle :
    (a : ℕ) (ys zs fs : List ℕ)
    → AreApart (ys ++ (a ∷ zs)) fs
    → AreApart ys fs × Absent a fs × AreApart zs fs
AreApart-middle a [] zs fs o = (tt, o.0, o.1)
AreApart-middle a (y ∷ ys) zs fs o =
    let r = AreApart-middle a ys zs fs o.1 in ((o.0, r.0), r.1, r.2)

pub head-IsApart :
    (l : Links) (before head : Option ℕ) (xs fs : List ℕ)
    → IsChain l before head xs
    → AreApart xs fs
    → IsApart head fs
head-IsApart l before head [] fs c o = rw c tt
head-IsApart l before head (x ∷ xs) fs c o = rw c.0 o.0

pub AreApart-head : (f : ℕ) (us fs : List ℕ) → AreApart us (f ∷ fs) → Absent f us × AreApart us fs
AreApart-head f [] fs o = (tt, tt)
AreApart-head f (u ∷ us) fs o =
    let r = AreApart-head f us fs o.1 in ((λ e. o.0.0 (sym e), r.0), (o.0.1, r.1))

pub free-IsApart :
    (l : Links) (before head : Option ℕ) (us fs : List ℕ)
    → IsChain l before head fs
    → AreApart us fs
    → IsApart head us
free-IsApart l before head us [] c o = rw c tt
free-IsApart l before head us (f ∷ fs) c o = rw c.0 (AreApart-head f us fs o).0

pub AreApart-nil : (us : List ℕ) → AreApart us []
AreApart-nil [] = tt
AreApart-nil (u ∷ us) = (tt, AreApart-nil us)

pub AreApart-cons : (a : ℕ) (us fs : List ℕ) → Absent a us → AreApart us fs → AreApart us (a ∷ fs)
AreApart-cons a [] fs o p = tt
AreApart-cons a (u ∷ us) fs o p = ((λ e. o.0 (sym e), p.0), AreApart-cons a us fs o.1 p.1)
