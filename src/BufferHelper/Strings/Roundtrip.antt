-- ===== src/BufferHelper/Strings/Roundtrip.antt =====
-- A string that was written is read back, where it is shorter than the array of `Read`.
use native.Mathlib.Nat.{mod-eq_of_lt}
use game_project.Base.{
  ℕ, ◌+◌, ◌<◌, ◌≤◌, ◌≡◌, refl, sym, ap, ◌∙◌, inl, inr, Bool-cases, true, false, List, [], ◌∷◌, ok,
  fault, out_of_range, Ensures, ◌==◌, if◌then◌else◌, ltb, leb, length, take, drop, arith,
}
use game_project.BufferHelper.{
  BufferHelper, to_bytes, from_bytes, overlay, write_bytes, write_value, read_value,
}
use game_project.BufferHelper.Value.{
  length-to_bytes, length-overlay, take-overlay, from_bytes-to_bytes,
}
use game_project.BufferHelper.Memory.{take-drop_before}
use game_project.BufferHelper.Strings.{
  c_str, write_const_chars, write_string, read_bytes, read_chars, read_string,
}

-- No character is 0.
abbrev pub HasNoZero : List ℕ → Type 0
HasNoZero [] = Unit {0}
HasNoZero (x ∷ xs) = ((x == 0) ≡ false) × HasNoZero xs

c_str-HasNoZero : (s : List ℕ) → HasNoZero s → c_str s ≡ s
unfolding c_str
c_str-HasNoZero [] h = refl
c_str-HasNoZero (x ∷ s) h = rw (h.0, c_str-HasNoZero s h.1) refl

take-all : (s : List ℕ) → take (length s) s ≡ s
take-all [] = refl
take-all (x ∷ s) = ap (λ z. x ∷ z) (take-all s)

-- The memory behind the two writes.
abbrev written : List ℕ → BufferHelper → List ℕ
written s h = overlay (h.cur_pos + 2) s (overlay h.cur_pos (to_bytes 2 (length s)) h.memory)

module _ (s : List ℕ) (h : BufferHelper) (short : length s < 65536)
    (room : h.cur_pos + 2 + length s + 100 ≤ length h.memory) where
  write_const_chars-written :
      write_const_chars s h
      ≡ ok (record h { memory = written s h; cur_pos = h.cur_pos + 2 + length s })
  unfolding write_const_chars write_value write_bytes
  write_const_chars-written =
      let len = length-to_bytes 2 (length s) in
      let a : leb (h.cur_pos + length (to_bytes 2 (length s))) (length h.memory) ≡ true =
        ground arith in
      let a' : leb (h.cur_pos + length (to_bytes 2 (length s)) + 100) (length h.memory) ≡ true =
        ground arith in
      let size = length-overlay h.cur_pos (to_bytes 2 (length s)) h.memory in
      let b : leb (h.cur_pos + 2 + length s) (length h.memory) ≡ true = ground arith in
      let b' : leb (h.cur_pos + 2 + length s + 100) (length h.memory) ≡ true = ground arith in
      rw (mod-eq_of_lt short, take-all s) (rw (a, a', len) (rw (size, b, b') refl))

  -- `Read` at the place where the string was written.
  abbrev again : ℕ → BufferHelper
  again n = record { memory = written s h; total_lenth = n; cur_pos = h.cur_pos }

  abbrev behind : ℕ → BufferHelper
  behind n = record { memory = written s h; total_lenth = n; cur_pos = h.cur_pos + 2 + length s }

  read_length :
      (n : ℕ)
      → h.cur_pos + 2 ≤ n
      → read_value 2 (again n) ≡ ok (length s, record (again n) { cur_pos = h.cur_pos + 2 })
  unfolding read_value
  read_length n reach =
      let b : ltb n (h.cur_pos + 2) ≡ false = ground arith in
      let len = length-to_bytes 2 (length s) in
      let val : from_bytes (take 2 (drop h.cur_pos (written s h))) ≡ length s =
        ap from_bytes (
          take-drop_before h.cur_pos 2 (h.cur_pos + 2) s
            (overlay h.cur_pos (to_bytes 2 (length s)) h.memory) (omega arith))
        ∙ ap
            (λ z.
              from_bytes
                (take z (drop h.cur_pos (overlay h.cur_pos (to_bytes 2 (length s)) h.memory))))
            (sym len)
        ∙ ap from_bytes (take-overlay h.cur_pos (to_bytes 2 (length s)) h.memory (omega arith))
        ∙ from_bytes-to_bytes 2 (length s) (omega arith) in
      rw b (rw val refl)

  read_characters :
      (n : ℕ)
      → read_bytes (length s) (record (again n) { cur_pos = h.cur_pos + 2 }) ≡ ok (s, behind n)
  unfolding read_bytes
  read_characters n =
      let len = length-to_bytes 2 (length s) in
      let first = length-overlay h.cur_pos (to_bytes 2 (length s)) h.memory in
      let size =
        length-overlay (h.cur_pos + 2) s (overlay h.cur_pos (to_bytes 2 (length s)) h.memory) in
      let b : leb (h.cur_pos + 2 + length s) (length (written s h)) ≡ true = ground arith in
      let bytes =
        take-overlay (h.cur_pos + 2) s (overlay h.cur_pos (to_bytes 2 (length s)) h.memory)
          (omega arith) in
      rw b (rw bytes refl)

  read_string-again :
      (n : ℕ)
      → HasNoZero s
      → h.cur_pos + 2 ≤ n
      → read_string (again n)
        ≡ (if ltb (length s) 1024 then ok (s, behind n) else fault out_of_range)
  unfolding read_string read_chars
  read_string-again n clean reach =
      rw (read_length n reach) (elim (Bool-cases (ltb (length s) 1024)) [
        | inl q ↦ rw q (rw (read_characters n) (rw (c_str-HasNoZero s clean) refl))
        | inr q ↦ rw q refl
      ])

-- A string without a 0, whose length fits into its UINT16, is written where the buffer has room and 100
-- bytes more. `Read`
-- into a string at its place gives it back and stands behind it where it has less than 1024
-- characters, and else writes behind its array.
pub read_string-write_string :
    (s : List ℕ) (h : BufferHelper) (n : ℕ)
    → HasNoZero s
    → length s < 65536
    → h.cur_pos + 2 + length s + 100 ≤ length h.memory
    → h.cur_pos + 2 ≤ n
    → Ensures
        (λ u. read_string (record u { cur_pos = h.cur_pos; total_lenth = n }) ≡ (
          if ltb (length s) 1024 then ok (s, record u { total_lenth = n }) else fault out_of_range))
        (write_string s h)
unfolding write_string
read_string-write_string s h n clean short room reach =
    rw (c_str-HasNoZero s clean) (
      rw (write_const_chars-written s h short room)
        (read_string-again s h short room n clean reach))
