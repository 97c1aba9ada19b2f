-- ===== src/DataBuffer/Release.antt =====
-- `Release` of a buffer that is used once puts it on the list of the free ones.
use mathlib.Core.Path.{subst}
use mathlib.Core.List.{append_assoc}
use game_project.Base.{
  ℕ, ◌≡◌, refl, sym, ap, ◌∙◌, inl, inr, true, false, none, some, List, [], ◌∷◌, ◌++◌, ok,
  if◌then◌else◌, ◌==◌, arith, Ensures, Ensures-bind,
}
use game_project.Base.Int.{pos, ◌-ℤ◌}
use game_project.Links.{set_next, set_prev, unlink_from}
use game_project.Links.Chain.{
  IsChain, IsChain-set_next, IsChain-set_prev, IsChain-set_prev_if, IsApart, IsChain-set_prev_apart,
  put-there,
}
use game_project.Links.Bound.{IsBelow}
use game_project.Links.Unlink.{unlink_from-IsChain, IsChain-after, push_told-IsChain}
use game_project.Links.Parts.{parts, IsBelow-parts, not_first, after-distinct, last_node}
use game_project.DataBuffer.{
  BufferManager, put_count, is_first, unlink_first, unlink_behind, unlink_used, link_free,
  release_to, release,
}
use game_project.DataBuffer.Lists.{
  Buffers, AreApart, AreApart-middle, AreApart-cons, free-IsApart, head-IsApart,
}

AreApart-parts : (a : ℕ) (ys zs fs : List ℕ) → AreApart (ys ++ (a ∷ zs)) fs → AreApart (ys ++ zs) fs
AreApart-parts a [] zs fs o = o.1
AreApart-parts a (y ∷ ys) zs fs o = (o.0, AreApart-parts a ys zs fs o.1)

-- The two lists once the buffer is out of the first one, with what was not touched.
record Unlinked (a : ℕ) (m : BufferManager) (us fs : List ℕ) (u : BufferManager) : Type 0 where
  used : IsChain u.links none u.used_list us
  free : IsChain u.links none u.free_list fs
  made : u.made ≡ m.made

unlink_used-head :
    (a : ℕ) (m : BufferManager) → m.used_list ≡ some a → unlink_used a m ≡ unlink_first a m
unfolding unlink_used
unlink_used-head a m e =
    let other = unlink_behind a m (m.links.prev a) in
    let same : (a == a) ≡ true = ground arith in
    ap (λ z. if is_first a z then unlink_first a m else other) e
    ∙ ap (λ z. if z then unlink_first a m else other) same

unlink_used-first :
    (a : ℕ) (m : BufferManager) (zs fs : List ℕ)
    → Buffers m (a ∷ zs) fs
    → Ensures (Unlinked a m zs fs) (unlink_used a m)
unlink_used-first a m zs fs b =
    subst (Ensures (Unlinked a m zs fs)) (sym (unlink_used-head a m b.used.0)) (record {
      used =
          IsChain-set_prev_if m.links none (some a) (m.links.next a) zs b.distinct_used.1 b.used.2;
      free =
          IsChain-set_prev_apart m.links (m.links.next a) none none m.free_list fs
            (head-IsApart m.links (some a) (m.links.next a) zs fs b.used.2 b.apart.1) b.free;
      made = refl;
    })

unlink_used-middle :
    (a h p : ℕ) (m : BufferManager)
    → m.used_list ≡ some h
    → (h == a) ≡ false
    → m.links.prev a ≡ some p
    → unlink_used a m ≡ ok (record m { links = unlink_from p a m.links })
unfolding unlink_used
unlink_used-middle a h p m e f q =
    let other = unlink_behind a m (m.links.prev a) in
    ap (λ z. if is_first a z then unlink_first a m else other) e
    ∙ ap (λ z. if z then unlink_first a m else other) f
    ∙ ap (unlink_behind a m) q

unlink_used-later :
    (a p : ℕ) (m : BufferManager) (ys zs fs : List ℕ)
    → Buffers m (ys ++ (p ∷ a ∷ zs)) fs
    → Ensures (Unlinked a m (ys ++ (p ∷ zs)) fs) (unlink_used a m)
unlink_used-later a p m ys zs fs b =
    let l = m.links in
    let (h, e, f) = not_first l m.used_list a p ys zs b.distinct_used b.used in
    let (q, c) = unlink_from-IsChain l p a zs none m.used_list ys b.distinct_used b.used in
    let o = AreApart-middle p ys (a ∷ zs) fs b.apart in
    let n = put-there p a (l.next a) l.next (after-distinct a p ys zs b.distinct_used) in
    let behind = IsChain-after l a zs p none m.used_list ys b.used in
    let l' = set_next p (l.next a) l in
    subst (Ensures (Unlinked a m (ys ++ (p ∷ zs)) fs)) (sym (unlink_used-middle a h p m e f q))
      (record {
        used = c;
        free =
            IsChain-set_prev_apart l' (l'.next a) (l'.prev a) none m.free_list fs
              (subst (λ z. IsApart z fs) (sym n)
                (head-IsApart l (some a) (l.next a) zs fs behind o.2.1))
              (IsChain-set_next l p (l.next a) none m.free_list fs o.1 b.free);
        made = refl;
      })

unlink_used-Unlinked :
    (a : ℕ) (m : BufferManager) (ys zs fs : List ℕ)
    → Buffers m (ys ++ (a ∷ zs)) fs
    → Ensures (Unlinked a m (ys ++ zs) fs) (unlink_used a m)
unlink_used-Unlinked a m ys zs fs b = elim (last_node ys) [
  | inl e ↦
      subst (λ z. Ensures (Unlinked a m (z ++ zs) fs) (unlink_used a m)) (sym e)
        (unlink_used-first a m zs fs (subst (λ z. Buffers m (z ++ (a ∷ zs)) fs) e b))
  | inr (xs, p, e) ↦
      let whole = ap (λ z. z ++ (a ∷ zs)) e ∙ append_assoc xs (p ∷ []) (a ∷ zs) in
      let rest = ap (λ z. z ++ zs) e ∙ append_assoc xs (p ∷ []) zs in
      subst (λ z. Ensures (Unlinked a m z fs) (unlink_used a m)) (sym rest)
        (unlink_used-later a p m xs zs fs (subst (λ z. Buffers m z fs) whole b))
]

link_free-Buffers :
    (a : ℕ) (m u : BufferManager) (ys zs fs : List ℕ)
    → Buffers m (ys ++ (a ∷ zs)) fs
    → Unlinked a m (ys ++ zs) fs u
    → Buffers (link_free a u) (ys ++ zs) (a ∷ fs)
link_free-Buffers a m u ys zs fs b k =
    let (d, gone) = parts a ys zs b.distinct_used in
    let (below, mine) = IsBelow-parts m.made a ys zs b.made_used in
    let o = AreApart-middle a ys zs fs b.apart in
    let apart = AreApart-parts a ys zs fs b.apart in
    let l = set_next a u.free_list u.links in
    let l' = set_prev a none l in
    record {
      used =
          IsChain-set_prev_apart l' u.free_list (some a) none u.used_list (ys ++ zs)
            (free-IsApart u.links none u.free_list (ys ++ zs) fs k.free apart)
            (IsChain-set_prev l a none none u.used_list (ys ++ zs) gone
              (IsChain-set_next u.links a u.free_list none u.used_list (ys ++ zs) gone k.used));
      free = push_told-IsChain u.links a u.free_list fs o.1 b.distinct_free k.free;
      distinct_used = d;
      distinct_free = (o.1, b.distinct_free);
      apart = AreApart-cons a (ys ++ zs) fs gone apart;
      made_used = subst (λ z. IsBelow z (ys ++ zs)) (sym k.made) below;
      made_free = subst (λ z. IsBelow z (a ∷ fs)) (sym k.made) (mine, b.made_free);
    }

release_to-Buffers :
    (a : ℕ) (m : BufferManager) (ys zs fs : List ℕ)
    → Buffers m (ys ++ (a ∷ zs)) fs
    → Ensures (λ u. Buffers u (ys ++ zs) (a ∷ fs)) (release_to (pos 0) a m)
unfolding release_to
release_to-Buffers a m ys zs fs b =
    let m' = record m { ref_count = put_count a (pos 0) m.ref_count } in
    let b' : Buffers m' (ys ++ (a ∷ zs)) fs = record {
      used = b.used;
      free = b.free;
      distinct_used = b.distinct_used;
      distinct_free = b.distinct_free;
      apart = b.apart;
      made_used = b.made_used;
      made_free = b.made_free;
    } in
    Ensures-bind (Unlinked a m' (ys ++ zs) fs) _ _ _ (unlink_used-Unlinked a m' ys zs fs b')
      (λ u k. link_free-Buffers a m' u ys zs fs b' k)

-- `Release` of a buffer in use with one reference returns. The buffer leaves its place among those in
-- use, whatever the place is, and is the first of the free ones.
pub release-Buffers :
    (a : ℕ) (m : BufferManager) (ys zs fs : List ℕ)
    → Buffers m (ys ++ (a ∷ zs)) fs
    → m.ref_count a ≡ pos 1
    → Ensures (λ u. Buffers u (ys ++ zs) (a ∷ fs)) (release a m)
unfolding release ◌-ℤ◌
release-Buffers a m ys zs fs b e =
    subst (λ z. Ensures (λ u. Buffers u (ys ++ zs) (a ∷ fs)) (release_to (z -ℤ pos 1) a m)) (sym e)
      (release_to-Buffers a m ys zs fs b)
