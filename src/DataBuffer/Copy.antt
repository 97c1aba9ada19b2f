-- ===== src/DataBuffer/Copy.antt =====
-- The copies of `CDataBuffer` of project/Common/DataBuffer/DataBuffer.h, and `SendCmdToConnection` of
-- project/Server/ServerEngine/ServiceBase.cpp, which hands a copy of a packet on.
pub mod Packet
use game_project.Base.{
  ℕ, ◌+◌, ◌*◌, ◌&&◌, not, assert, assertion, none, some, List, Result, ok, fault, out_of_range,
  ◌>>=◌, ◌==◌, if◌then◌else◌, ltb, leb, length, take, get_or,
}
use game_project.Connection.{alloc_data_buff}
use game_project.BufferHelper.{overlay, to_bytes}

-- The memory, GetBufferSize() bytes, and m_nDataLen.
pub record DataBuffer : Type 0 where
  pub memory : List ℕ
  pub data_len : ℕ

-- `CopyFrom`
pub copy_from : DataBuffer → DataBuffer → Result DataBuffer
copy_from src d =
    let n = src.data_len in
    if leb n (length src.memory) && leb n (length d.memory)
    then ok (record { memory = overlay 0 (take n src.memory) d.memory; data_len = n })
    else fault out_of_range

-- `CopyTo` an array of dwDestLen bytes.
copy_to : List ℕ → DataBuffer → Result (ℕ × List ℕ)
copy_to dest d =
    if ltb (length dest) d.data_len
    then fault assertion
    else if leb d.data_len (length d.memory)
    then ok (length dest, overlay 0 (take d.data_len d.memory) dest)
    else fault out_of_range

-- The character and the scene in the header of the copy.
abbrev pub readdress : ℕ → ℕ → DataBuffer → DataBuffer
readdress char_id scene_id d = record d {
  memory = overlay 16 (to_bytes 4 scene_id) (overlay 20 (to_bytes 8 char_id) d.memory);
}

-- The field wCommandID of the header.
abbrev pub command_of : List ℕ → ℕ
command_of d = get_or d 4 0 + 256 * get_or d 5 0 + 65536 * get_or d 6 0 + 16777216 * get_or d 7 0

-- `SendCmdToConnection`: what `SendBufferByConnID` gets. The last argument but one is what the memory of a
-- buffer of a size holds. An ASSERT or ASSERT_FAIELD that fails is a fault.
pub send_cmd_to_connection : ℕ → ℕ → ℕ → (ℕ → List ℕ) → DataBuffer → Result DataBuffer
unfolding copy_from
send_cmd_to_connection conn_id char_id scene_id fresh src =
    if conn_id == 0 then fault assertion else elim (alloc_data_buff src.data_len) [
      | none ↦ fault assertion
      | some size ↦ copy_from src (record { memory = fresh size; data_len = 0 }) >>= λ d.
          let sent = readdress char_id scene_id d in
          assert (not (char_id == 0)) >>= λ _.
          assert (not (command_of sent.memory == 0)) >>= λ _. ok sent
    ]
