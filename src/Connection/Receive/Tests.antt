-- ===== src/Connection/Receive/Tests.antt =====
-- A stream that comes byte by byte.
use game_project.Base.{
  ℕ, ◌+◌, refl, inl, none, List, [], ◌∷◌, ◌++◌, Ensures, length, replicate, arith,
}
use game_project.Connection.Frames.{join, IsPacket}
use game_project.Connection.Receive.{Received, bytes, again, do_receive}
use game_project.Connection.Receive.Stream.{Delivers, Receives, do_receive-Receives}

-- `recv` gives one byte at a time.
abbrev recv_one : ℕ → List ℕ → Received × List ℕ
recv_one n [] = (again, [])
recv_one n (x ∷ xs) = (bytes (x ∷ []), xs)

recv_one-Delivers : Delivers recv_one (λ s. s)
recv_one-Delivers n [] h = (refl, refl)
recv_one-Delivers n (x ∷ xs) h = (omega arith, omega arith, refl)

-- A header that tells a size of 30, two bytes, and the start of another packet.
abbrev packet : List ℕ
packet = replicate 8 0 ++ (30 ∷ 0 ∷ 0 ∷ 0 ∷ replicate 16 0) ++ (1 ∷ 2 ∷ [])

packet-IsPacket : IsPacket packet
packet-IsPacket = record { long = omega arith; sized = refl; short = omega arith }

do_receive-Receives_example : Ensures (Receives recv_one (λ s. s) (packet ∷ packet ∷ []) (7 ∷ [])) (
    do_receive recv_one
      (length (join (packet ∷ packet ∷ []) (7 ∷ [])) + 1)
      (record { data_buf = []; current = none })
      (join (packet ∷ packet ∷ []) (7 ∷ [])))
do_receive-Receives_example =
    do_receive-Receives recv_one (λ s. s) recv_one-Delivers (packet ∷ packet ∷ []) [] (7 ∷ [])
      (join (packet ∷ packet ∷ []) (7 ∷ []))
      ((packet-IsPacket, omega arith), ((packet-IsPacket, omega arith), tt)) (inl (omega arith))
      (inl (omega arith)) refl
