-- ===== src/Avl/Order.antt =====
-- The abstract map: a list of keys and values, keys rising.
use game_project.Base.{
  ◌+◌, is_none, length, Bool-cases, inl, inr, ltb→lt, false, ℕ, ◌<◌, ◌≡◌, refl, Option, none, some,
  List, [], ◌∷◌, ◌++◌, arith, ltb, ◌==◌, if◌then◌else◌,
}

module _ {ℓ} {A : Type ℓ} where
  -- Every key of the list is above `k`.
  abbrev pub Above : ℕ → List (ℕ × A) → Type 0
  Above k [] = Unit {0}
  Above k ((j, v) ∷ xs) = (k < j) × Above k xs

  abbrev pub IsSorted : List (ℕ × A) → Type 0
  IsSorted [] = Unit {0}
  IsSorted ((j, v) ∷ xs) = Above j xs × IsSorted xs

  unfoldable pub lookup : ℕ → List (ℕ × A) → Option A
  lookup k [] = none
  lookup k ((j, v) ∷ xs) = if j == k then some v else lookup k xs

  -- A key that is there keeps its value.
  unfoldable pub insert : ℕ → A → List (ℕ × A) → List (ℕ × A)
  insert k v [] = (k, v) ∷ []
  insert k v ((j, w) ∷ xs) =
      if ltb k j
      then (k, v) ∷ (j, w) ∷ xs
      else if ltb j k
      then (j, w) ∷ insert k v xs
      else (j, w) ∷ xs

  unfoldable pub remove : ℕ → List (ℕ × A) → List (ℕ × A)
  remove k [] = []
  remove k ((j, w) ∷ xs) = if j == k then xs else (j, w) ∷ remove k xs

  pub Above-mono : (j k : ℕ) (xs : List (ℕ × A)) → j < k → Above k xs → Above j xs
  Above-mono j k [] h a = tt
  Above-mono j k ((i, v) ∷ xs) h a = (omega arith, Above-mono j k xs h a.1)

  pub lookup-Above : (k : ℕ) (xs : List (ℕ × A)) → Above k xs → lookup k xs ≡ none
  unfolding lookup
  lookup-Above k [] a = refl
  lookup-Above k ((j, v) ∷ xs) a = ground (arith, lookup-Above k xs a.1)

  pub remove-Above : (k : ℕ) (xs : List (ℕ × A)) → Above k xs → remove k xs ≡ xs
  unfolding remove
  remove-Above k [] a = refl
  remove-Above k ((j, v) ∷ xs) a = ground (arith, remove-Above k xs a.1)

  -- The two halves of a sorted list round an entry.
  pub Above-append :
      (i j : ℕ) (v : A) (xs ys : List (ℕ × A))
      → Above i (xs ++ ((j, v) ∷ ys))
      → Above i xs × (i < j) × Above i ys
  Above-append i j v [] ys a = (tt, a.0, a.1)
  Above-append i j v ((k, w) ∷ xs) ys a =
      let r = Above-append i j v xs ys a.1 in ((a.0, r.0), r.1, r.2)

  pub IsSorted-split :
      (j : ℕ) (v : A) (xs ys : List (ℕ × A))
      → IsSorted (xs ++ ((j, v) ∷ ys))
      → IsSorted xs × Above j ys × IsSorted ys
  IsSorted-split j v [] ys s = (tt, s.0, s.1)
  IsSorted-split j v ((k, w) ∷ xs) ys s =
      let r = IsSorted-split j v xs ys s.1 in (((Above-append k j v xs ys s.0).0, r.0), r.1, r.2)

  -- Entries left of a place are passed over.
  pub lookup-append_gt :
      (k j : ℕ) (v : A) (xs ys : List (ℕ × A))
      → IsSorted (xs ++ ((j, v) ∷ ys))
      → j < k
      → lookup k (xs ++ ((j, v) ∷ ys)) ≡ lookup k ys
  unfolding lookup
  lookup-append_gt k j v [] ys s h = ground arith
  lookup-append_gt k j v ((i, w) ∷ xs) ys s h =
      ground (arith, Above-append i j v xs ys s.0, lookup-append_gt k j v xs ys s.1 h)

  pub lookup-append_eq :
      (k : ℕ) (v : A) (xs ys : List (ℕ × A))
      → IsSorted (xs ++ ((k, v) ∷ ys))
      → lookup k (xs ++ ((k, v) ∷ ys)) ≡ some v
  unfolding lookup
  lookup-append_eq k v [] ys s = ground arith
  lookup-append_eq k v ((i, w) ∷ xs) ys s =
      ground (arith, Above-append i k v xs ys s.0, lookup-append_eq k v xs ys s.1)

  pub lookup-append_lt :
      (k j : ℕ) (v : A) (xs ys : List (ℕ × A))
      → IsSorted (xs ++ ((j, v) ∷ ys))
      → k < j
      → lookup k (xs ++ ((j, v) ∷ ys)) ≡ lookup k xs
  unfolding lookup
  lookup-append_lt k j v [] ys s h = ground (arith, lookup-Above k ys (Above-mono k j ys h s.0))
  lookup-append_lt k j v ((i, w) ∷ xs) ys s h = ground (arith, lookup-append_lt k j v xs ys s.1 h)

  pub insert-append_lt :
      (k j : ℕ) (u v : A) (xs ys : List (ℕ × A))
      → k < j
      → insert k u (xs ++ ((j, v) ∷ ys)) ≡ insert k u xs ++ ((j, v) ∷ ys)
  unfolding insert
  insert-append_lt k j u v [] ys h = ground arith
  insert-append_lt k j u v ((i, w) ∷ xs) ys h = ground (arith, insert-append_lt k j u v xs ys h)

  pub insert-append_gt :
      (k j : ℕ) (u v : A) (xs ys : List (ℕ × A))
      → IsSorted (xs ++ ((j, v) ∷ ys))
      → j < k
      → insert k u (xs ++ ((j, v) ∷ ys)) ≡ xs ++ ((j, v) ∷ insert k u ys)
  unfolding insert
  insert-append_gt k j u v [] ys s h = ground arith
  insert-append_gt k j u v ((i, w) ∷ xs) ys s h =
      ground (arith, Above-append i j v xs ys s.0, insert-append_gt k j u v xs ys s.1 h)

  pub insert-append_eq :
      (k : ℕ) (u v : A) (xs ys : List (ℕ × A))
      → IsSorted (xs ++ ((k, v) ∷ ys))
      → insert k u (xs ++ ((k, v) ∷ ys)) ≡ xs ++ ((k, v) ∷ ys)
  unfolding insert
  insert-append_eq k u v [] ys s = ground arith
  insert-append_eq k u v ((i, w) ∷ xs) ys s =
      ground (arith, Above-append i k v xs ys s.0, insert-append_eq k u v xs ys s.1)

  pub remove-append_lt :
      (k j : ℕ) (v : A) (xs ys : List (ℕ × A))
      → IsSorted (xs ++ ((j, v) ∷ ys))
      → k < j
      → remove k (xs ++ ((j, v) ∷ ys)) ≡ remove k xs ++ ((j, v) ∷ ys)
  unfolding remove
  remove-append_lt k j v [] ys s h = ground (arith, remove-Above k ys (Above-mono k j ys h s.0))
  remove-append_lt k j v ((i, w) ∷ xs) ys s h = ground (arith, remove-append_lt k j v xs ys s.1 h)

  pub remove-append_gt :
      (k j : ℕ) (v : A) (xs ys : List (ℕ × A))
      → IsSorted (xs ++ ((j, v) ∷ ys))
      → j < k
      → remove k (xs ++ ((j, v) ∷ ys)) ≡ xs ++ ((j, v) ∷ remove k ys)
  unfolding remove
  remove-append_gt k j v [] ys s h = ground arith
  remove-append_gt k j v ((i, w) ∷ xs) ys s h =
      ground (arith, Above-append i j v xs ys s.0, remove-append_gt k j v xs ys s.1 h)

  pub remove-append_eq :
      (k : ℕ) (v : A) (xs ys : List (ℕ × A))
      → IsSorted (xs ++ ((k, v) ∷ ys))
      → remove k (xs ++ ((k, v) ∷ ys)) ≡ xs ++ ys
  unfolding remove
  remove-append_eq k v [] ys s = ground arith
  remove-append_eq k v ((i, w) ∷ xs) ys s =
      ground (arith, Above-append i k v xs ys s.0, remove-append_eq k v xs ys s.1)

  Above-insert :
      (i k : ℕ) (u : A) (xs : List (ℕ × A)) → i < k → Above i xs → Above i (insert k u xs)
  unfolding insert
  Above-insert i k u [] h a = (h, tt)
  Above-insert i k u ((j, w) ∷ xs) h a = ground (arith, Above-insert i k u xs h a.1)

  pub insert-IsSorted : (k : ℕ) (u : A) (xs : List (ℕ × A)) → IsSorted xs → IsSorted (insert k u xs)
  unfolding insert
  insert-IsSorted k u [] s = (tt, tt)
  insert-IsSorted k u ((j, w) ∷ xs) s =
      ground (arith, insert-IsSorted k u xs s.1, Above-insert j k u xs, Above-mono k j xs)

  Above-remove : (i k : ℕ) (xs : List (ℕ × A)) → Above i xs → Above i (remove k xs)
  unfolding remove
  Above-remove i k [] a = tt
  Above-remove i k ((j, w) ∷ xs) a = ground (arith, Above-remove i k xs a.1)

  pub remove-IsSorted : (k : ℕ) (xs : List (ℕ × A)) → IsSorted xs → IsSorted (remove k xs)
  unfolding remove
  remove-IsSorted k [] s = tt
  remove-IsSorted k ((j, w) ∷ xs) s =
      ground (arith, remove-IsSorted k xs s.1, Above-remove j k xs s.0)

  pub lookup-head : (k : ℕ) (v : A) (xs : List (ℕ × A)) → lookup k ((k, v) ∷ xs) ≡ some v
  unfolding lookup
  lookup-head k v xs = ground arith

  pub remove-head : (k : ℕ) (v : A) (xs : List (ℕ × A)) → remove k ((k, v) ∷ xs) ≡ xs
  unfolding remove
  remove-head k v xs = ground arith

  pub length-insert :
      (k : ℕ) (v : A) (xs : List (ℕ × A))
      → IsSorted xs
      → length (insert k v xs) ≡ (if is_none (lookup k xs) then length xs + 1 else length xs)
  unfolding insert lookup
  length-insert k v [] o = refl
  length-insert k v ((j, w) ∷ xs) o = elim (Bool-cases (ltb k j)) [
    | inl p ↦ rw (p, lookup-Above k xs (Above-mono k j xs (ltb→lt k j p) o.0)) (ground arith)
    | inr p ↦ ground (arith, length-insert k v xs o.1)
  ]

  pub length-remove :
      (k : ℕ) (xs : List (ℕ × A))
      → (if is_none (lookup k xs) then length (remove k xs) else length (remove k xs) + 1)
        ≡ length xs
  unfolding remove lookup
  length-remove k [] = refl
  length-remove k ((j, w) ∷ xs) = ground (arith, length-remove k xs)

  pub insert-present :
      (k : ℕ) (v : A) (xs : List (ℕ × A))
      → IsSorted xs
      → is_none (lookup k xs) ≡ false
      → insert k v xs ≡ xs
  unfolding insert lookup
  insert-present k v [] o e = cc
  insert-present k v ((j, w) ∷ xs) o e = elim (Bool-cases (ltb k j)) [
    | inl p ↦ ground (arith, lookup-Above k xs (Above-mono k j xs (ltb→lt k j p) o.0))
    | inr p ↦ ground (arith, insert-present k v xs o.1)
  ]
