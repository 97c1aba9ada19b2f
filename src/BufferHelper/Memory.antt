-- ===== src/BufferHelper/Memory.antt =====
-- What `memcpy` leaves alone.
use game_project.Base.{
  ℕ, zero, suc, ◌+◌, ◌<◌, ◌≤◌, ◌≡◌, refl, ap, List, [], ◌∷◌, length, take, drop, get_or, arith,
}
use game_project.BufferHelper.{overlay}

-- What lies before a place stays where `memcpy` writes to it.
take-before : (k q : ℕ) (bs m : List ℕ) → k ≤ q → take k (overlay q bs m) ≡ take k m
unfolding overlay
take-before zero q bs m h = refl
take-before (suc k) zero bs m h = absurd (omega arith)
take-before (suc k) (suc q) bs [] h = refl
take-before (suc k) (suc q) bs (x ∷ m) h = ap (λ z. x ∷ z) (take-before k q bs m (omega arith))

pub take-drop_before :
    (p k q : ℕ) (bs m : List ℕ) → p + k ≤ q → take k (drop p (overlay q bs m)) ≡ take k (drop p m)
unfolding overlay
take-drop_before zero k q bs m h = take-before k q bs m (omega arith)
take-drop_before (suc p) k zero bs m h = absurd (omega arith)
take-drop_before (suc p) k (suc q) bs [] h = refl
take-drop_before (suc p) k (suc q) bs (x ∷ m) h = take-drop_before p k q bs m (omega arith)

pub get_or-before : (p i : ℕ) (bs m : List ℕ) → i < p → get_or (overlay p bs m) i 0 ≡ get_or m i 0
unfolding overlay
get_or-before zero i bs m h = absurd (omega arith)
get_or-before (suc p) i bs [] h = refl
get_or-before (suc p) zero bs (x ∷ m) h = refl
get_or-before (suc p) (suc i) bs (x ∷ m) h = get_or-before p i bs m (omega arith)

-- What lies behind the bytes that are written stays too.
pub get_or-behind :
    (p i : ℕ) (bs m : List ℕ) → p + length bs ≤ i → get_or (overlay p bs m) i 0 ≡ get_or m i 0
unfolding overlay
get_or-behind zero i [] m h = refl
get_or-behind zero i (b ∷ bs) [] h = refl
get_or-behind zero zero (b ∷ bs) (x ∷ m) h = absurd (omega arith)
get_or-behind zero (suc i) (b ∷ bs) (x ∷ m) h = get_or-behind zero i bs m (omega arith)
get_or-behind (suc p) i bs [] h = refl
get_or-behind (suc p) zero bs (x ∷ m) h = refl
get_or-behind (suc p) (suc i) bs (x ∷ m) h = get_or-behind p i bs m (omega arith)

pub drop-behind : (p k : ℕ) (bs m : List ℕ) → p + length bs ≤ k → drop k (overlay p bs m) ≡ drop k m
unfolding overlay
drop-behind zero k [] m h = refl
drop-behind zero k (b ∷ bs) [] h = refl
drop-behind zero zero (b ∷ bs) (x ∷ m) h = absurd (omega arith)
drop-behind zero (suc k) (b ∷ bs) (x ∷ m) h = drop-behind zero k bs m (omega arith)
drop-behind (suc p) k bs [] h = refl
drop-behind (suc p) zero bs (x ∷ m) h = absurd (omega arith)
drop-behind (suc p) (suc k) bs (x ∷ m) h = drop-behind p k bs m (omega arith)

-- The bytes that are written at the start.
pub get_or-start :
    (i : ℕ) (bs m : List ℕ)
    → i < length bs
    → length bs ≤ length m
    → get_or (overlay 0 bs m) i 0 ≡ get_or bs i 0
unfolding overlay
get_or-start i [] m h k = absurd (omega arith)
get_or-start i (b ∷ bs) [] h k = absurd (omega arith)
get_or-start zero (b ∷ bs) (x ∷ m) h k = refl
get_or-start (suc i) (b ∷ bs) (x ∷ m) h k = get_or-start i bs m (omega arith) (omega arith)

pub get_or-take : (n i : ℕ) (m : List ℕ) → i < n → get_or (take n m) i 0 ≡ get_or m i 0
get_or-take zero i m h = absurd (omega arith)
get_or-take (suc n) i [] h = refl
get_or-take (suc n) zero (x ∷ m) h = refl
get_or-take (suc n) (suc i) (x ∷ m) h = get_or-take n i m (omega arith)
