-- ===== src/Connection/Sizes.antt =====
-- The buffers that `AllocDataBuff` gives.
use game_project.Base.{
  ℕ, ◌<◌, ◌≤◌, ◌≡◌, refl, true, false, inl, inr, some, Bool-cases, ltb, leb, arith,
}
use game_project.Connection.{alloc_data_buff}

-- For a size below 65536 there is a buffer, of at least that size.
pub alloc_data_buff-fits :
    (n : ℕ) → n < 65536 → (size : ℕ) × (alloc_data_buff n ≡ some size) × (n ≤ size)
unfolding alloc_data_buff
alloc_data_buff-fits n h =
    let big : leb 2147483648 n ≡ false = ground arith in
    rw big (elim (Bool-cases (ltb n 1024)) [
      | inl p ↦ rw p (1024, refl, ground arith)
      | inr a ↦ rw a (elim (Bool-cases (ltb n 2048)) [
        | inl p ↦ rw p (2048, refl, ground arith)
        | inr b ↦ rw b (elim (Bool-cases (ltb n 4096)) [
          | inl p ↦ rw p (4096, refl, ground arith)
          | inr c ↦ rw c (elim (Bool-cases (ltb n 8192)) [
            | inl p ↦ rw p (8192, refl, ground arith)
            | inr d ↦ rw d (elim (Bool-cases (ltb n 16384)) [
              | inl p ↦ rw p (16384, refl, ground arith)
              | inr e ↦ rw e (elim (Bool-cases (ltb n 32768)) [
                | inl p ↦ rw p (32768, refl, ground arith)
                | inr g ↦
                    let last : ltb n 65536 ≡ true = ground arith in
                    rw (g, last) (65536, refl, omega arith)
              ])
            ])
          ])
        ])
      ])
    ])
