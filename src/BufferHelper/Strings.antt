-- ===== src/BufferHelper/Strings.antt =====
-- The strings of project/Common/DataBuffer/BufferHelper.cpp, with `Read` of bytes and `Seek`. A string of
-- C is the list of its characters without the terminator.
pub mod Roundtrip
use game_project.Base.{
  ℕ, suc, ◌+◌, ◌-◌, ◌%◌, ◌^◌, List, [], ◌∷◌, ◌++◌, Result, ok, fault, out_of_range, ◌>>=◌, ◌==◌,
  if◌then◌else◌, ltb, leb, length, take, drop,
}
use game_project.Base.Int.{ℤ, pos, negsuc}
use game_project.BufferHelper.{BufferHelper, write_bytes, write_value, read_value}

-- The characters before the first 0, which `strlen` counts.
pub c_str : List ℕ → List ℕ
c_str [] = []
c_str (x ∷ xs) = let rest = c_str xs in if x == 0 then [] else x ∷ rest

-- `Write(const CHAR *pszValue)`, with the length as an UINT16.
pub write_const_chars : List ℕ → BufferHelper → Result BufferHelper
write_const_chars s h =
    let len = length s % 2 ^ 16 in write_value 2 len h >>= λ u. write_bytes (take len s) u

-- `Write(std::string &strValue)`
pub write_string : List ℕ → BufferHelper → Result BufferHelper
unfolding c_str write_const_chars
write_string s h = write_const_chars (c_str s) h

-- `Write(CHAR *pszValue)`, which writes the terminator too.
write_chars : List ℕ → BufferHelper → Result BufferHelper
write_chars s h =
    let len = (length s + 1) % 2 ^ 16 in
    write_value 2 len h >>= λ u. write_bytes (take len (s ++ (0 ∷ []))) u

-- `Read(pData, dwBytes)`: a read behind the buffer is a fault; the length of the packet is not tested.
pub read_bytes : ℕ → BufferHelper → Result (List ℕ × BufferHelper)
read_bytes n h =
    if leb (h.cur_pos + n) (length h.memory)
    then ok (take n (drop h.cur_pos h.memory), record h { cur_pos = h.cur_pos + n })
    else fault out_of_range

-- `Read(CHAR *pszValue)` into an array of `room` characters: what it writes before the terminator.
pub read_chars : ℕ → BufferHelper → Result (List ℕ × BufferHelper)
unfolding read_bytes
read_chars room h =
    read_value 2 h >>= λ (len, u). if ltb len room then read_bytes len u else fault out_of_range

-- `Read(std::string &strValue)`
pub read_string : BufferHelper → Result (List ℕ × BufferHelper)
unfolding read_chars c_str
read_string h = read_chars 1024 h >>= λ (s, u). ok (c_str s, u)

-- `Seek`
seek : ℤ → BufferHelper → BufferHelper
seek (pos n) h = record h { cur_pos = (h.cur_pos + n) % 2 ^ 32 }
seek (negsuc n) h = record h { cur_pos = (h.cur_pos + (2 ^ 32 - suc n)) % 2 ^ 32 }
