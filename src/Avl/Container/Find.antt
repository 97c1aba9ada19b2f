-- ===== src/Avl/Container/Find.antt =====
-- A search in a search tree is a search in its list of entries.
use game_project.Base.{
  ℕ, ◌≡◌, refl, sym, ◌∙◌, inl, inr, Option, none, some, ltb, ltb→lt, ltb→ge, Bool-cases, arith,
}
use game_project.Avl.{Cell, Tree, nil, node, find_inner, to_list}
use game_project.Avl.Order.{
  IsSorted, IsSorted-split, lookup, lookup-append_lt, lookup-append_gt, lookup-append_eq,
}
use game_project.Avl.Container.{AvlTree, get_by_key, entries}

module _ {ℓ} {A : Type ℓ} where
  abbrev item_of : Option (Cell A) → Option A
  item_of none = none
  item_of (some c) = some c.item

  find_inner-lookup :
      (k : ℕ) (t : Tree A) → IsSorted (to_list t) → item_of (find_inner t k) ≡ lookup k (to_list t)
  unfolding find_inner to_list lookup
  find_inner-lookup k nil o = refl
  find_inner-lookup k (node c h l r) o =
      let halves = IsSorted-split c.key c.item (to_list l) (to_list r) o in
      elim (Bool-cases (ltb k c.key)) [
        | inl p ↦ rw p (
            find_inner-lookup k l halves.0
            ∙ sym (lookup-append_lt k c.key c.item (to_list l) (to_list r) o (ltb→lt _ _ p)))
        | inr p ↦ elim (Bool-cases (ltb c.key k)) [
          | inl q ↦
              rw (p, q)
                (find_inner-lookup k r halves.2
                  ∙ sym (lookup-append_gt k c.key c.item (to_list l) (to_list r) o (ltb→lt _ _ q)))
          | inr q ↦
              let e : k ≡ c.key = omega (arith, ltb→ge _ _ p, ltb→ge _ _ q) in
              rw (p, q) (rw e (sym (lookup-append_eq c.key c.item (to_list l) (to_list r) o)))
        ]
      ]

  -- `GetByKey` on a search tree finds what the sorted list of entries holds under the key.
  pub get_by_key-lookup :
      (t : AvlTree A) (k : ℕ) → IsSorted (entries t) → get_by_key t k ≡ lookup k (entries t)
  unfolding get_by_key
  get_by_key-lookup t k o = find_inner-lookup k t.root o
