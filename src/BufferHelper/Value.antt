-- ===== src/BufferHelper/Value.antt =====
-- A value that was written is read back.
use native.Mathlib.Nat.{pow-succ'}
use game_project.Base.{
  ℕ, zero, suc, ◌+◌, ◌*◌, ◌/◌, ◌^◌, ◌<◌, ◌≤◌, ◌≡◌, refl, sym, ap, ◌∙◌, ok, List, [], ◌∷◌, true,
  false, ltb, leb, length, take, drop, arith, Ensures,
}
use game_project.BufferHelper.{
  BufferHelper, to_bytes, from_bytes, overlay, write_bytes, write_value, read_value,
}

pub length-to_bytes : (w v : ℕ) → length (to_bytes w v) ≡ w
unfolding to_bytes
length-to_bytes zero v = refl
length-to_bytes (suc w) v = ap suc (length-to_bytes w (v / 256))

pub from_bytes-to_bytes : (w v : ℕ) → v < 256 ^ w → from_bytes (to_bytes w v) ≡ v
unfolding from_bytes to_bytes
from_bytes-to_bytes zero v h = omega arith
from_bytes-to_bytes (suc w) v h =
    let e : 256 ^ suc w ≡ 256 * 256 ^ w = pow-succ' 256 w in
    rw (from_bytes-to_bytes w (v / 256) (omega arith)) (omega arith)

pub take-overlay :
    (p : ℕ) (bs m : List ℕ)
    → p + length bs ≤ length m
    → take (length bs) (drop p (overlay p bs m)) ≡ bs
unfolding overlay
take-overlay zero [] m h = refl
take-overlay zero (b ∷ bs) [] h = absurd (omega arith)
take-overlay zero (b ∷ bs) (x ∷ m) h = ap (λ z. b ∷ z) (take-overlay zero bs m (omega arith))
take-overlay (suc p) bs [] h = absurd (omega arith)
take-overlay (suc p) bs (x ∷ m) h = take-overlay p bs m (omega arith)

pub length-overlay : (p : ℕ) (bs m : List ℕ) → length (overlay p bs m) ≡ length m
unfolding overlay
length-overlay zero [] m = refl
length-overlay zero (b ∷ bs) [] = refl
length-overlay zero (b ∷ bs) (x ∷ m) = ap suc (length-overlay zero bs m)
length-overlay (suc p) bs [] = refl
length-overlay (suc p) bs (x ∷ m) = ap suc (length-overlay p bs m)

-- A value of `w` bytes that fits is written where the buffer has room and 100 bytes more, and `Read` at its place, with a
-- packet that reaches over it, gives it back and leaves the position behind it, as the write did.
pub read_value-write_value :
    (w v n : ℕ) (h : BufferHelper)
    → v < 256 ^ w
    → h.cur_pos + w + 100 ≤ length h.memory
    → h.cur_pos + w ≤ n
    → Ensures
        (λ u.
          read_value w (record u { cur_pos = h.cur_pos; total_lenth = n })
          ≡ ok (v, record u { total_lenth = n }))
        (write_value w v h)
unfolding write_value write_bytes read_value
read_value-write_value w v n h fits room reach =
    let len = length-to_bytes w v in
    let a : leb (h.cur_pos + length (to_bytes w v)) (length h.memory) ≡ true = ground arith in
    let g : leb (h.cur_pos + length (to_bytes w v) + 100) (length h.memory) ≡ true = ground arith in
    let b : ltb n (h.cur_pos + w) ≡ false = ground arith in
    let val : from_bytes (take w (drop h.cur_pos (overlay h.cur_pos (to_bytes w v) h.memory))) ≡ v =
      ap (λ z. from_bytes (take z (drop h.cur_pos (overlay h.cur_pos (to_bytes w v) h.memory))))
        (sym len)
      ∙ ap from_bytes (take-overlay h.cur_pos (to_bytes w v) h.memory (omega arith))
      ∙ from_bytes-to_bytes w v fits in
    rw (a, g) (rw (b, read_value) (rw (val, len) refl))
