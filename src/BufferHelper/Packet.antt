-- ===== src/BufferHelper/Packet.antt =====
-- A packet that was written is one that `ExtractBuffer` takes out whole.
use mathlib.Core.Path.{subst}
use game_project.Base.{
  ℕ, zero, suc, ◌+◌, ◌*◌, ◌<◌, ◌≤◌, ◌≡◌, refl, sym, ◌∙◌, List, [], ◌∷◌, Result, true, leb, length,
  take, arith, Ensures, Ensures-bind, get_or, ◌>>=◌, length-take,
}
use game_project.Connection.{dw_size}
use game_project.Connection.Frames.{IsPacket}
use game_project.BufferHelper.{
  BufferHelper, to_bytes, overlay, write_bytes, write_value, begin_write, end_write,
}
use game_project.BufferHelper.Memory.{get_or-take}
use game_project.BufferHelper.Value.{length-to_bytes, length-overlay}

-- `p` places on from `i`, step by step.
abbrev skip : ℕ → ℕ → ℕ
skip zero i = i
skip (suc p) i = suc (skip p i)

get_or-overlay :
    (p i : ℕ) (bs m : List ℕ)
    → i < length bs
    → p + length bs ≤ length m
    → get_or (overlay p bs m) (skip p i) 0 ≡ get_or bs i 0
unfolding overlay
get_or-overlay zero i [] m h k = absurd (omega arith)
get_or-overlay zero i (b ∷ bs) [] h k = absurd (omega arith)
get_or-overlay zero zero (b ∷ bs) (x ∷ m) h k = refl
get_or-overlay zero (suc i) (b ∷ bs) (x ∷ m) h k =
    get_or-overlay zero i bs m (omega arith) (omega arith)
get_or-overlay (suc p) i bs [] h k = absurd (omega arith)
get_or-overlay (suc p) i bs (x ∷ m) h k = get_or-overlay p i bs m h (omega arith)

-- A byte of the size that stands in the header.
size_byte :
    (i t : ℕ) (m : List ℕ)
    → i < 4
    → 12 ≤ length m
    → skip 8 i < t
    → get_or (take t (overlay 8 (to_bytes 4 t) m)) (skip 8 i) 0 ≡ get_or (to_bytes 4 t) i 0
size_byte i t m h k l =
    let n = length-to_bytes 4 t in
    get_or-take t (skip 8 i) (overlay 8 (to_bytes 4 t) m) l
    ∙ get_or-overlay 8 i (to_bytes 4 t) m (omega arith) (omega arith)

four_bytes :
    (t : ℕ)
    → t < 4294967296
    → get_or (to_bytes 4 t) 0 0
        + 256 * get_or (to_bytes 4 t) 1 0
        + 65536 * get_or (to_bytes 4 t) 2 0
        + 16777216 * get_or (to_bytes 4 t) 3 0
      ≡ t
unfolding to_bytes
four_bytes t h = omega arith

-- The size that stands in the header, where it was written as a number below 2^32.
dw_size-overlay :
    (t : ℕ) (m : List ℕ)
    → t < 4294967296
    → 12 ≤ length m
    → 12 ≤ t
    → dw_size (take t (overlay 8 (to_bytes 4 t) m)) ≡ t
dw_size-overlay t m h k l =
    rw
      (
        size_byte 0 t m (omega arith) k (omega arith),
        size_byte 1 t m (omega arith) k (omega arith),
        size_byte 2 t m (omega arith) k (omega arith),
        size_byte 3 t m (omega arith) k (omega arith),
      )
      (four_bytes t h)

-- The state between the writes.
record At (p n : ℕ) (u : BufferHelper) : Type 0 where
  pos : u.cur_pos ≡ p
  room : length u.memory ≡ n

begin_write-At :
    (command_id scene_id char_id packet_no : ℕ) (h : BufferHelper)
    → 28 ≤ length h.memory
    → Ensures (At 28 (length h.memory)) (begin_write command_id scene_id char_id packet_no h)
unfolding begin_write
begin_write-At command_id scene_id char_id packet_no h r =
    let a : leb 28 (length h.memory) ≡ true = ground arith in
    let m0 = overlay 0 (to_bytes 4 255) h.memory in
    let m1 = overlay 4 (to_bytes 4 command_id) m0 in
    let m2 = overlay 16 (to_bytes 4 scene_id) m1 in
    let m3 = overlay 20 (to_bytes 8 char_id) m2 in
    rw a (record {
      pos = refl;
      room =
          length-overlay 12 (to_bytes 4 packet_no) m3
          ∙ length-overlay 20 (to_bytes 8 char_id) m2
          ∙ length-overlay 16 (to_bytes 4 scene_id) m1
          ∙ length-overlay 4 (to_bytes 4 command_id) m0
          ∙ length-overlay 0 (to_bytes 4 255) h.memory;
    })

write_bytes-At :
    (p n : ℕ) (bs : List ℕ) (h : BufferHelper)
    → At p n h
    → p + length bs + 100 ≤ n
    → Ensures (At (p + length bs) n) (write_bytes bs h)
unfolding write_bytes
write_bytes-At p n bs h s r =
    let a : leb (h.cur_pos + length bs) (length h.memory) ≡ true = ground (arith, s.pos, s.room) in
    let g : leb (h.cur_pos + length bs + 100) (length h.memory) ≡ true =
      ground (arith, s.pos, s.room) in
    rw (a, g)
      (record { pos = omega (arith, s.pos); room = length-overlay h.cur_pos bs h.memory ∙ s.room })

end_write-IsPacket :
    (p n : ℕ) (h : BufferHelper)
    → At p n h
    → 28 ≤ p
    → p + 4 + 100 ≤ n
    → p + 4 < 65536
    → Ensures (λ u. (u.total_lenth ≡ p + 4) × IsPacket (take u.total_lenth u.memory)) (end_write h)
unfolding end_write write_value
end_write-IsPacket p n h s l r k =
    let code = to_bytes 4 286331153 in
    let len = length-to_bytes 4 286331153 in
    Ensures-bind (At (p + length code) n) _ _ _ (write_bytes-At p n code h s (omega arith)) (λ u t.
      let c : u.cur_pos ≡ p + 4 = omega (arith, t.pos) in
      let m = overlay 8 (to_bytes 4 u.cur_pos) u.memory in
      let size : length (take u.cur_pos m) ≡ u.cur_pos =
        length-take u.cur_pos m
        ∙ omega (arith, c, t.room, length-overlay 8 (to_bytes 4 u.cur_pos) u.memory) in
      (
        c,
        record {
          long = omega (arith, size, c);
          sized =
              dw_size-overlay u.cur_pos u.memory (omega (arith, c)) (omega (arith, t.room))
                (omega (arith, c))
              ∙ sym size;
          short = omega (arith, size, c);
        },
      ))

-- A packet: the header, any bytes, and the check code.
abbrev pub write_packet : ℕ → ℕ → ℕ → ℕ → List ℕ → BufferHelper → Result BufferHelper
write_packet command_id scene_id char_id packet_no body h =
    begin_write command_id scene_id char_id packet_no h >>= write_bytes body >>= end_write

-- A packet that is written into a buffer that has room for its header, its body, the check code and 100
-- bytes more, and that takes less than 64K, has the form that the receiver's `ExtractBuffer` takes out whole.
pub write_packet-IsPacket :
    (command_id scene_id char_id packet_no : ℕ) (body : List ℕ) (h : BufferHelper)
    → 132 + length body ≤ length h.memory
    → 32 + length body < 65536
    → Ensures
        (λ u. (u.total_lenth ≡ 32 + length body) × IsPacket (take u.total_lenth u.memory))
        (write_packet command_id scene_id char_id packet_no body h)
write_packet-IsPacket command_id scene_id char_id packet_no body h room short =
    let n = length h.memory in
    let e : 28 + length body + 4 ≡ 32 + length body = omega arith in
    subst
      (λ z.
        Ensures (λ u. (u.total_lenth ≡ z) × IsPacket (take u.total_lenth u.memory))
          (write_packet command_id scene_id char_id packet_no body h))
      e
      (Ensures-bind (At (28 + length body) n) _ _ _
        (Ensures-bind (At 28 n) _ _ _
          (begin_write-At command_id scene_id char_id packet_no h (omega arith))
          (λ u s. write_bytes-At 28 n body u s (omega arith)))
        (λ u s.
          end_write-IsPacket (28 + length body) n u s (omega arith) (omega arith) (omega arith)))
