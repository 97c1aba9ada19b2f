-- ===== src/Connection.antt =====
-- The packets that `CConnection` of project/Server/ServerEngine/Connection.cpp takes from the bytes it
-- receives, with the buffer sizes of project/Common/DataBuffer/DataBuffer.cpp and the header of
-- project/Common/PacketDef/PacketHeader.h. A byte is a number; the integers of a header are stored
-- lowest byte first, as the supported machines do.
pub mod Sizes
pub mod Frames
pub mod Large
pub mod BadSize
pub mod Receive
mod Tests
use game_project.Base.{
  ℕ, zero, suc, ◌+◌, ◌-◌, ◌*◌, Bool, true, false, ◌&&◌, Option, none, some, List, [], ◌∷◌, ◌++◌,
  Result, ok, fault, null_pointer, out_of_range, no_progress, ◌>>=◌, if◌then◌else◌, ltb, leb, ◌==◌,
  length, take, drop, get_or,
}

-- sizeof(PacketHeader) and CONST_BUFF_SIZE.
abbrev pub header_size : ℕ
header_size = 28

abbrev pub const_buff_size : ℕ
const_buff_size = 8192

-- `CBufferManagerAll::AllocDataBuff`: the size of the buffer that is given. The argument is an `int`,
-- so an unsigned size from 2^31 on is negative there.
pub alloc_data_buff : ℕ → Option ℕ
alloc_data_buff n =
    if leb 2147483648 n
    then some 1024
    else if ltb n 1024
    then some 1024
    else if ltb n 2048
    then some 2048
    else if ltb n 4096
    then some 4096
    else if ltb n 8192
    then some 8192
    else if ltb n 16384
    then some 16384
    else if ltb n 32768
    then some 32768
    else if ltb n 65536
    then some 65536
    else none

-- A buffer of at least `n` bytes into which `len` bytes are copied.
abbrev pub copy_to_new : ℕ → ℕ → Result (Unit {0})
copy_to_new n len = elim (alloc_data_buff n) [
  | none ↦ fault null_pointer
  | some size ↦ if leb len size then ok tt else fault out_of_range
]

-- m_pCurRecvBuffer: the packet's size, m_pCurBufferSize, and its first bytes, GetTotalLenth() many.
pub record Current : Type 0 where
  pub size : ℕ
  pub received : List ℕ

-- The m_dwDataLen bytes from m_pBufPos on, and the packet that is being received in pieces.
pub record Connection : Type 0 where
  pub data_buf : List ℕ
  pub current : Option Current

-- The field dwSize of the header at the start of the bytes.
abbrev pub dw_size : List ℕ → ℕ
dw_size d = get_or d 8 0 + 256 * get_or d 9 0 + 65536 * get_or d 10 0 + 16777216 * get_or d 11 0

-- A part of the loop's body gives packets to the handler, and leaves the loop or goes on.
pub data Pass : Type 0 where
  leave : List (List ℕ) → Connection → Pass
  go_on : List (List ℕ) → Connection → Pass

-- The part on m_pCurRecvBuffer. m_dwDataLen is set to 0 before it is added to the length.
pub continue_current : Connection → Pass
continue_current c = elim c.current [
  | none ↦ Pass.go_on [] c
  | some p ↦
      if ltb (length p.received + length c.data_buf) p.size
      then Pass.leave [] (record { data_buf = []; current = some p })
      else (let rest = p.size - length p.received in
          Pass.go_on ((p.received ++ take rest c.data_buf) ∷ [])
            (record { data_buf = drop rest c.data_buf; current = none }))
]

-- The part on the header, where no packet is being received in pieces.
pub read_packet : List ℕ → Result Pass
unfolding alloc_data_buff
read_packet d =
    let size = dw_size d in
    if ltb (length d) header_size
    then ok (Pass.leave [] (record { data_buf = d; current = none }))
    else if ltb (length d) size && ltb size const_buff_size
    then ok (Pass.leave [] (record { data_buf = d; current = none }))
    else if leb size (length d)
    then (copy_to_new size size >>= λ _.
        ok (Pass.go_on (take size d ∷ []) (record { data_buf = drop size d; current = none })))
    else (copy_to_new size (length d) >>= λ _. ok (
        Pass.go_on []
          (record { data_buf = []; current = some (record { size = size; received = d }) })))

-- The body of the loop. After the first part there is no current packet.
pub extract_pass : Connection → Result Pass
unfolding continue_current read_packet
extract_pass c = elim (continue_current c) [
  | leave ps u ↦ ok (Pass.leave ps u)
  | go_on ps u ↦ read_packet u.data_buf >>= λ p. elim p [
    | leave qs v ↦ ok (Pass.leave (ps ++ qs) v)
    | go_on qs v ↦ ok (Pass.go_on (ps ++ qs) v)
  ]
]

-- The loop of `ExtractBuffer`, with the packets that the handler gets.
pub extract_loop : ℕ → Connection → Result (List (List ℕ) × Connection)
unfolding extract_pass
extract_loop zero c = fault no_progress
extract_loop (suc fuel) c = extract_pass c >>= λ p. elim p [
  | leave ps u ↦ ok (ps, u)
  | go_on ps u ↦ extract_loop fuel u >>= λ (qs, v). ok (ps ++ qs, v)
]

-- `ExtractBuffer`. Each round but the last two takes bytes, if no header has the size 0.
pub extract_buffer : Connection → Result (List (List ℕ) × Connection)
unfolding extract_loop
extract_buffer c = elim c.data_buf [
  | [] ↦ ok ([], c)
  | b ∷ d ↦ extract_loop (length c.data_buf + 2) c
]
