-- ===== src/BufferHelper/Tests.antt =====
-- Packets at concrete inputs.
use game_project.Base.{
  ℕ, List, ◌+◌, ◌≡◌, refl, ok, [], ◌∷◌, arith, Ensures, length, take, replicate,
}
use game_project.Connection.Frames.{IsPacket}
use game_project.BufferHelper.{BufferHelper}
use game_project.BufferHelper.Strings.{read_string, write_string}
use game_project.BufferHelper.Strings.Roundtrip.{read_string-write_string}
use game_project.BufferHelper.Packet.{write_packet, write_packet-IsPacket}

-- A buffer of 256 bytes, at its start.
abbrev blank : BufferHelper
blank = record { memory = replicate 256 0; total_lenth = 0; cur_pos = 0 }

abbrev body : List ℕ
body = 1 ∷ 2 ∷ 3 ∷ []

write_packet-IsPacket_example :
    Ensures
      (λ u. (u.total_lenth ≡ 32 + length body) × IsPacket (take u.total_lenth u.memory))
      (write_packet 7 1 99 5 body blank)
write_packet-IsPacket_example =
    write_packet-IsPacket 7 1 99 5 body blank (omega arith) (omega arith)

read_string-write_string_example :
    Ensures
      (λ u.
        read_string (record u { cur_pos = 0; total_lenth = 28 })
        ≡ ok (body, record u { total_lenth = 28 }))
      (write_string body blank)
read_string-write_string_example =
    read_string-write_string body blank 28 (refl, (refl, (refl, tt))) (omega arith) (omega arith)
      (omega arith)
