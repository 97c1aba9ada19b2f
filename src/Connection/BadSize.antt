-- ===== src/Connection/BadSize.antt =====
-- Headers whose size no buffer serves.
use game_project.Base.{
  ℕ, suc, ◌<◌, ◌≤◌, ◌≡◌, refl, true, false, none, List, fault, null_pointer, out_of_range, ltb, leb,
  lt→ltb, length, arith,
}
use game_project.Connection.{
  header_size, const_buff_size, dw_size, alloc_data_buff, copy_to_new, continue_current,
  read_packet, extract_pass, extract_loop,
}

no_buffer : (n len : ℕ) → 65536 ≤ n → n < 2147483648 → copy_to_new n len ≡ fault null_pointer
unfolding alloc_data_buff
no_buffer n len big small = ground arith

small_buffer : (n len : ℕ) → 2147483648 ≤ n → 1024 < len → copy_to_new n len ≡ fault out_of_range
unfolding alloc_data_buff
small_buffer n len big h = ground arith

refused_size :
    (d : List ℕ)
    → header_size ≤ length d
    → length d < dw_size d
    → 65536 ≤ dw_size d
    → dw_size d < 2147483648
    → read_packet d ≡ fault null_pointer
unfolding read_packet
refused_size d l m big small =
    let a : ltb (length d) header_size ≡ false = ground (arith, l) in
    let b : ltb (dw_size d) const_buff_size ≡ false = ground (arith, big) in
    let c : leb (dw_size d) (length d) ≡ false = ground (arith, m) in
    let e : ltb (length d) (dw_size d) ≡ true = lt→ltb _ _ m in
    rw (a, e, b, c) (rw (no_buffer (dw_size d) (length d) big small) refl)

overrun :
    (d : List ℕ)
    → 1024 < length d
    → length d < dw_size d
    → 2147483648 ≤ dw_size d
    → read_packet d ≡ fault out_of_range
unfolding read_packet
overrun d l m big =
    let a : ltb (length d) header_size ≡ false = ground (arith, l) in
    let b : ltb (dw_size d) const_buff_size ≡ false = ground (arith, big) in
    let c : leb (dw_size d) (length d) ≡ false = ground (arith, m) in
    let e : ltb (length d) (dw_size d) ≡ true = lt→ltb _ _ m in
    rw (a, e, b, c) (rw (small_buffer (dw_size d) (length d) big l) refl)

-- A header at the start of the bytes that asks for 64K or more, but for less than 2^31, and for more
-- than is there, makes `AllocDataBuff` return NULL, which is written through.
pub unbuffered_size_faults :
    (fuel : ℕ) (d : List ℕ)
    → header_size ≤ length d
    → length d < dw_size d
    → 65536 ≤ dw_size d
    → dw_size d < 2147483648
    → extract_loop (suc fuel) (record { data_buf = d; current = none }) ≡ fault null_pointer
unfolding extract_loop extract_pass continue_current
unbuffered_size_faults fuel d l m big small = rw (refused_size d l m big small) refl

-- A header at the start of the bytes that asks for 2^31 bytes or more, and for more than is there, is
-- given a buffer of 1024 bytes; if more bytes are there, they are copied over its end.
pub huge_size_overflows :
    (fuel : ℕ) (d : List ℕ)
    → 1024 < length d
    → length d < dw_size d
    → 2147483648 ≤ dw_size d
    → extract_loop (suc fuel) (record { data_buf = d; current = none }) ≡ fault out_of_range
unfolding extract_loop extract_pass continue_current
huge_size_overflows fuel d l m big = rw (overrun d l m big) refl
