-- ===== src/BufferHelper.antt =====
-- `CBufferHelper` of project/Common/DataBuffer/BufferHelper.h and BufferHelper.cpp on the memory of a
-- buffer. Integers are stored lowest byte first, as the supported machines do. A write behind the
-- buffer is the fault out_of_range, and an ASSERT or ASSERT_FAIELD that fails the fault assertion.
pub mod Memory
pub mod Value
pub mod Packet
pub mod Strings
mod Tests
use game_project.Base.{
  ℕ, zero, suc, ◌+◌, ◌*◌, ◌/◌, ◌%◌, assert, assertion, List, [], ◌∷◌, Result, ok, fault,
  out_of_range, ◌>>=◌, Bool, ◌==◌, if◌then◌else◌, ltb, leb, length, take, drop,
}

pub record BufferHelper : Type 0 where
  -- the memory, GetBufferSize() bytes
  pub memory : List ℕ
  -- GetTotalLenth()
  pub total_lenth : ℕ
  pub cur_pos : ℕ

-- The bytes of an integer of `w` bytes.
pub to_bytes : ℕ → ℕ → List ℕ
to_bytes zero v = []
to_bytes (suc w) v = v % 256 ∷ to_bytes w (v / 256)

pub from_bytes : List ℕ → ℕ
from_bytes [] = 0
from_bytes (b ∷ bs) = b + 256 * from_bytes bs

-- `memcpy` to a place in the memory.
pub overlay : ℕ → List ℕ → List ℕ → List ℕ
overlay zero [] m = m
overlay zero (b ∷ bs) [] = []
overlay zero (b ∷ bs) (x ∷ m) = b ∷ overlay zero bs m
overlay (suc p) bs [] = []
overlay (suc p) bs (x ∷ m) = x ∷ overlay p bs m

-- `Write(pData, dwBytes)`
pub write_bytes : List ℕ → BufferHelper → Result BufferHelper
unfolding overlay
write_bytes bs h =
    if leb (h.cur_pos + length bs) (length h.memory)
    then (assert (leb (h.cur_pos + length bs + 100) (length h.memory)) >>= λ _.
        ok (record h { memory = overlay h.cur_pos bs h.memory; cur_pos = h.cur_pos + length bs }))
    else fault out_of_range

-- `Write(_Value)` of a type of `w` bytes.
pub write_value : ℕ → ℕ → BufferHelper → Result BufferHelper
unfolding write_bytes to_bytes
write_value w v h = write_bytes (to_bytes w v) h

-- `Read(_value)` of a type of `w` bytes.
pub read_value : ℕ → BufferHelper → Result (ℕ × BufferHelper)
unfolding from_bytes
read_value w h =
    if ltb h.total_lenth (h.cur_pos + w)
    then fault assertion
    else ok (from_bytes (take w (drop h.cur_pos h.memory)), record h { cur_pos = h.cur_pos + w })

-- `BeginWrite`, with the packet number that g_PacketNo gives.
pub begin_write : ℕ → ℕ → ℕ → ℕ → BufferHelper → Result BufferHelper
unfolding overlay to_bytes
begin_write command_id scene_id char_id packet_no h =
    if leb 28 (length h.memory)
    then ok (record {
      memory = overlay 12 (to_bytes 4 packet_no) (
          overlay 20 (to_bytes 8 char_id) (
            overlay 16 (to_bytes 4 scene_id)
              (overlay 4 (to_bytes 4 command_id) (overlay 0 (to_bytes 4 255) h.memory))));
      total_lenth = 28;
      cur_pos = 28;
    })
    else fault out_of_range

-- `WriteCheckBufferCode`
abbrev pub write_check_buffer_code : BufferHelper → Result BufferHelper
write_check_buffer_code h = write_value 4 286331153 h

-- `ReadCheckBufferCode`
abbrev read_check_buffer_code : BufferHelper → Result BufferHelper
read_check_buffer_code h = read_value 4 h >>= λ (v, u). assert (v == 286331153) >>= λ _. ok u

-- `EndWrite`
pub end_write : BufferHelper → Result BufferHelper
unfolding write_value overlay to_bytes
end_write h = write_check_buffer_code h >>= λ u.
    ok (record u { memory = overlay 8 (to_bytes 4 u.cur_pos) u.memory; total_lenth = u.cur_pos })

-- `BeginRead`: the packet's length is what the header tells, and the check code is that of a written
-- packet.
pub begin_read : BufferHelper → Result BufferHelper
unfolding from_bytes
begin_read h =
    let u = record h { total_lenth = from_bytes (take 4 (drop 8 h.memory)); cur_pos = 28 } in
    assert (from_bytes (take 4 u.memory) == 255) >>= λ _. ok u
