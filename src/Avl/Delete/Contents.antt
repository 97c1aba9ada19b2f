-- ===== src/Avl/Delete/Contents.antt =====
-- A deletion takes one entry out of the sorted list of entries, and its node goes to the free list.
use mathlib.Core.List.{append_assoc, append-nil}
use game_project.Base.{
  ℕ, ◌+◌, ◌-◌, ◌<◌, ◌≡◌, ◌≢◌, refl, sym, ◌∙◌, inl, inr, Bool, true, false, ◌&&◌, ◌||◌, Option, some,
  List, [], ◌∷◌, ◌++◌, Ensures, Ensures-bind, Ensures-weaken, arith, ltb, leb, if◌then◌else◌,
  Bool-cases, lt→ltb, is_none,
}
use game_project.Avl.{Cell, Tree, nil, node, get_height, update_height, to_list}
use game_project.Avl.Order
use game_project.Avl.Order.{
  IsSorted, IsSorted-split, lookup, lookup-append_lt, lookup-append_gt, lookup-append_eq,
  remove-append_lt, remove-append_gt, remove-append_eq, lookup-head, remove-head,
}
use game_project.Avl.Rotate.{
  to_list-sing_rotate_left, to_list-sing_rotate_right, to_list-double_rotate_lr,
  to_list-double_rotate_rl, to_list-update_height,
}
use game_project.Avl.Delete.{
  Slot, Deleted, delete_inner, delete_inner_cases, delete_left, delete_right, unlink, successor,
  leftmost, fix_right_heavy, fix_left_heavy, free_node, is_node, only_child, set_parent,
}

module _ {ℓ} {A : Type ℓ} where
  -- The rotations after a deletion are never through a null pointer.
  to_list-fix_right_heavy : (t : Tree A) → Ensures (λ u. to_list u ≡ to_list t) (fix_right_heavy t)
  unfolding fix_right_heavy
  to_list-fix_right_heavy nil = refl
  to_list-fix_right_heavy (node c h l nil) = refl
  to_list-fix_right_heavy (node c h l (node d g nil b)) =
      elim (Bool-cases (leb (get_height l + 2) (g + 1))) [
        | inl p ↦ rw p (to_list-sing_rotate_right (node c h l (node d g nil b)))
        | inr p ↦ rw p refl
      ]
  to_list-fix_right_heavy (node c h l (node d g (node e i x y) b)) =
      elim (Bool-cases (leb (get_height l + 2) (g + 1))) [
        | inl p ↦ elim (Bool-cases (ltb (get_height b) (i + 1))) [
          | inl q ↦ rw (p, q) (to_list-double_rotate_rl (node c h l (node d g (node e i x y) b)))
          | inr q ↦ rw (p, q) (to_list-sing_rotate_right (node c h l (node d g (node e i x y) b)))
        ]
        | inr p ↦ rw p refl
      ]

  to_list-fix_left_heavy : (t : Tree A) → Ensures (λ u. to_list u ≡ to_list t) (fix_left_heavy t)
  unfolding fix_left_heavy
  to_list-fix_left_heavy nil = refl
  to_list-fix_left_heavy (node c h nil r) = refl
  to_list-fix_left_heavy (node c h (node d g a nil) r) =
      elim (Bool-cases (leb (get_height r + 2) (g + 1))) [
        | inl p ↦ rw p (to_list-sing_rotate_left (node c h (node d g a nil) r))
        | inr p ↦ rw p refl
      ]
  to_list-fix_left_heavy (node c h (node d g a (node e i x y)) r) =
      elim (Bool-cases (leb (get_height r + 2) (g + 1))) [
        | inl p ↦ elim (Bool-cases (ltb (get_height a) (i + 1))) [
          | inl q ↦ rw (p, q) (to_list-double_rotate_lr (node c h (node d g a (node e i x y)) r))
          | inr q ↦ rw (p, q) (to_list-sing_rotate_left (node c h (node d g a (node e i x y)) r))
        ]
        | inr p ↦ rw p refl
      ]

  -- What stands after the recursive call changes the shape of the tree alone.
  record Reshapes (t : Tree A) (s u : Deleted A) : Type ℓ where
    done : u.done ≡ s.done
    free : u.free ≡ s.free
    count : u.count ≡ s.count
    entries : to_list u.tree ≡ to_list t

  delete_left-Reshapes :
      (c : Cell A) (h : ℕ) (r : Tree A) (s : Deleted A)
      → Ensures (Reshapes (node c h s.tree r) s) (delete_left c h r s)
  unfolding delete_left
  delete_left-Reshapes c h r s = elim (Bool-cases s.done) [
    | inl d ↦ rw d (
        Ensures-bind (λ u. to_list u ≡ to_list (node c h s.tree r)) _ _ _
          (to_list-fix_right_heavy (node c h s.tree r))
          (λ u e. record {
            done = refl;
            free = refl;
            count = refl;
            entries = to_list-update_height u ∙ e;
          }))
    | inr d ↦ rw d (record { done = refl; free = refl; count = refl; entries = refl })
  ]

  delete_right-Reshapes :
      (c : Cell A) (h : ℕ) (l : Tree A) (s : Deleted A)
      → Ensures (Reshapes (node c h l s.tree) s) (delete_right c h l s)
  unfolding delete_right
  delete_right-Reshapes c h l s = elim (Bool-cases s.done) [
    | inl d ↦ rw d (
        Ensures-bind (λ u. to_list u ≡ to_list (node c h l s.tree)) _ _ _
          (to_list-fix_left_heavy (node c h l s.tree))
          (λ u e. record {
            done = refl;
            free = refl;
            count = refl;
            entries = to_list-update_height u ∙ e;
          }))
    | inr d ↦ rw d (record { done = refl; free = refl; count = refl; entries = refl })
  ]

  -- The free list grows by one node exactly if the key was there.
  abbrev pub Freed : Bool → List (Slot A) → List (Slot A) → Type ℓ
  Freed true f g = g ≡ f
  Freed false f g = (s : Slot A) × (g ≡ s ∷ f)

  -- Whether the node that leaves the tree has a child to take its place: for a key with two
  -- children that node is the successor's.
  unfoldable pub unlinks_inner : ℕ → Tree A → Bool
  unfolding successor
  unlinks_inner k nil = false
  unlinks_inner k (node c h l r) =
      if ltb k c.key
      then unlinks_inner k l
      else if ltb c.key k
      then unlinks_inner k r
      else if is_node l && is_node r
      then unlinks_inner (successor c r).key r
      else is_node l || is_node r

  pub record Deletes (k : ℕ) (f : List (Slot A)) (n : ℕ) (t : Tree A) (s : Deleted A) : Type ℓ where
    pub entries : to_list s.tree ≡ Order.remove k (to_list t)
    pub counted : s.count ≡ (if is_none (lookup k (to_list t)) then n else n - 1)
    pub freed : Freed (is_none (lookup k (to_list t))) f s.free
    pub reported : s.done ≡ unlinks_inner k t

  module _ (k : ℕ) (f : List (Slot A)) (n : ℕ) (c : Cell A) (h : ℕ) (l r : Tree A)
      (o : IsSorted (to_list (node c h l r))) where
    down_left :
        (s u : Deleted A)
        → k < c.key
        → Deletes k f n l s
        → Reshapes (node c h s.tree r) s u
        → Deletes k f n (node c h l r) u
    unfolding to_list unlinks_inner
    down_left s u lt d e =
        let found = lookup-append_lt k c.key c.item (to_list l) (to_list r) o lt in
        record {
          entries =
              e.entries
              ∙ rw d.entries (sym (remove-append_lt k c.key c.item (to_list l) (to_list r) o lt));
          counted = rw (found, e.count) d.counted;
          freed = rw (found, e.free) d.freed;
          reported = e.done ∙ d.reported ∙ rw (lt→ltb k c.key lt) refl;
        }

    down_right :
        (s u : Deleted A)
        → c.key < k
        → Deletes k f n r s
        → Reshapes (node c h l s.tree) s u
        → Deletes k f n (node c h l r) u
    unfolding to_list unlinks_inner
    down_right s u gt d e =
        let found = lookup-append_gt k c.key c.item (to_list l) (to_list r) o gt in
        record {
          entries =
              e.entries
              ∙ rw d.entries (sym (remove-append_gt k c.key c.item (to_list l) (to_list r) o gt));
          counted = rw (found, e.count) d.counted;
          freed = rw (found, e.free) d.freed;
          reported = e.done ∙ d.reported ∙ ground (arith, lt→ltb c.key k gt);
        }

  leftmost-head :
      (c : Cell A) (l : Tree A) (rest : List (ℕ × A))
      → let s = leftmost c l in
        (xs : List (ℕ × A)) × (to_list l ++ ((c.key, c.item) ∷ rest) ≡ (s.key, s.item) ∷ xs)
  unfolding leftmost to_list
  leftmost-head c nil rest = (rest, refl)
  leftmost-head c (node d h a b) rest =
      let (xs, e) = leftmost-head d a (to_list b ++ ((c.key, c.item) ∷ rest)) in
      (xs, append_assoc (to_list a) ((d.key, d.item) ∷ to_list b) ((c.key, c.item) ∷ rest) ∙ e)

  -- The successor is the first entry of the right subtree.
  successor-head :
      (c : Cell A) (r : Tree A)
      → is_node r ≡ true
      → let s = successor c r in (xs : List (ℕ × A)) × (to_list r ≡ (s.key, s.item) ∷ xs)
  unfolding successor to_list
  successor-head c nil e = cc
  successor-head c (node d h a b) e = leftmost-head d a (to_list b)

  to_list-only_child :
      (p : Option ℕ) (l r : Tree A)
      → is_node l && is_node r ≡ false
      → (to_list (update_height (set_parent p (only_child l r))) ≡ to_list l ++ to_list r)
        × (is_node (only_child l r) ≡ is_node l || is_node r)
  unfolding only_child set_parent update_height to_list
  to_list-only_child p nil nil e = (refl, refl)
  to_list-only_child p nil (node d g a b) e = (refl, refl)
  to_list-only_child p (node c h x y) nil e = (sym (append-nil (to_list (node c h x y))), refl)
  to_list-only_child p (node c h x y) (node d g a b) e = cc

  module _ (n : ℕ) (c : Cell A) (h : ℕ) (l r : Tree A) (o : IsSorted (to_list (node c h l r))) where
    found : lookup c.key (to_list (node c h l r)) ≡ some c.item
    unfolding to_list
    found = lookup-append_eq c.key c.item (to_list l) (to_list r) o

    -- The root's own entry goes.
    here :
        (f : List (Slot A)) (u : Deleted A)
        → to_list u.tree ≡ to_list l ++ to_list r
        → u.count ≡ n - 1
        → (s : Slot A) × (u.free ≡ s ∷ f)
        → u.done ≡ (
            if is_node l && is_node r
            then unlinks_inner (successor c r).key r
            else is_node l || is_node r)
        → Deletes c.key f n (node c h l r) u
    unfolding unlinks_inner
    here f u e m g d = record {
      entries = e ∙ sym (unfold to_list in remove-append_eq c.key c.item (to_list l) (to_list r) o);
      counted = rw found m;
      freed = rw found g;
      reported = d ∙ ground arith;
    }

    unlink-Deletes :
        (f : List (Slot A))
        → f ≢ []
        → is_node l && is_node r ≡ false
        → Ensures (Deletes c.key f n (node c h l r)) (unlink c f n l r)
    unfolding unlink free_node
    unlink-Deletes [] ne b = absurd (ne refl)
    unlink-Deletes (x ∷ g) ne b =
        let (list, done) = to_list-only_child c.parent l r b in
        here (x ∷ g) _ list refl (record { addr = c.addr; item = c.item }, refl) (rw b done)

    -- The root takes over its successor's entry, which left the right subtree.
    successor-Deletes :
        (f : List (Slot A)) (s u : Deleted A)
        → is_node l && is_node r ≡ true
        → let m = successor c r in
          Deletes m.key f n r s
          → Reshapes (node (record c { key = m.key; item = m.item }) h l s.tree) s u
          → Deletes c.key f n (node c h l r) u
    unfolding to_list
    successor-Deletes f s u b d e =
        let m = successor c r in
        let (xs, head) = successor-head c r (ground arith) in
        let hit : lookup m.key (to_list r) ≡ some m.item = rw head (lookup-head m.key m.item xs) in
        let tail : to_list s.tree ≡ xs = d.entries ∙ rw head (remove-head m.key m.item xs) in
        here f u (e.entries ∙ rw (tail, head) refl) (e.count ∙ (rw hit at d.counted))
          (rw e.free (rw hit at d.freed)) (e.done ∙ d.reported ∙ rw b refl)

  -- With a node on the free list a deletion from a search tree returns. The entries are then those
  -- of the sorted list without the key. If the key was there m_nCount falls by one and one node goes
  -- on the free list, else both stay. The result is TRUE exactly if the node that left the tree had
  -- a child.
  pub delete_inner-Deletes :
      (k : ℕ) (f : List (Slot A)) (n : ℕ) (t : Tree A)
      → f ≢ []
      → IsSorted (to_list t)
      → Ensures (Deletes k f n t) (delete_inner k f n t)
  unfolding to_list unlinks_inner lookup Order.remove delete_inner
  delete_inner-Deletes k f n nil ne o = record {
    entries = refl;
    counted = refl;
    freed = refl;
    reported = refl;
  }
  delete_inner-Deletes k f n (node c h l r) ne o =
      let halves = IsSorted-split c.key c.item (to_list l) (to_list r) o in
      delete_inner_cases (Ensures (Deletes k f n (node c h l r))) k f n c h l r
        (λ lt.
          Ensures-bind (Deletes k f n l) _ _ _ (delete_inner-Deletes k f n l ne halves.0) (λ s d.
            Ensures-weaken (Reshapes (node c h s.tree r) s) _ _ (delete_left-Reshapes c h r s)
              (λ u. down_left k f n c h l r o s u lt d)))
        (λ gt.
          Ensures-bind (Deletes k f n r) _ _ _ (delete_inner-Deletes k f n r ne halves.2) (λ s d.
            Ensures-weaken (Reshapes (node c h l s.tree) s) _ _ (delete_right-Reshapes c h l s)
              (λ u. down_right k f n c h l r o s u gt d)))
        (λ e b.
          let m = successor c r in
          let c' : Cell A = record c { key = m.key; item = m.item } in
          rw e (
            Ensures-bind (Deletes m.key f n r) _ _ _ (delete_inner-Deletes m.key f n r ne halves.2)
              (λ s d.
                Ensures-weaken (Reshapes (node c' h l s.tree) s) _ _
                  (delete_right-Reshapes c' h l s)
                  (λ u q. successor-Deletes n c h l r o f s u b d q))))
        (λ e b. rw e (unlink-Deletes n c h l r o f ne b))
