-- ===== src/Connection/Receive.antt =====
-- `DoReceive` of project/Server/ServerEngine/Connection.cpp where the system is no Windows. What `recv`
-- does is no part of the program: it is an argument, and `Delivers` says what a call of it does while
-- the peer stays connected.
pub mod Cut
pub mod Stream
mod Tests
use mathlib.Core.List.{append_assoc, append-nil}
use game_project.Base.{
  ℕ, zero, suc, ◌+◌, ◌-◌, ◌<◌, ◌≤◌, ◌≡◌, refl, sym, ap, ◌∙◌, inl, inr, Bool, true, false, List, [],
  ◌∷◌, ◌++◌, Result, none, ok, fault, no_progress, ◌>>=◌, Never, Ensures, Ensures-bind,
  if◌then◌else◌, ◌==◌, dec_lt, length, length-append, arith,
}
use game_project.Connection.{Connection, header_size, const_buff_size, dw_size, extract_buffer}
use game_project.Connection.Frames.{
  join, IsPacket, IsPart, ArePackets, dw_size-append, extract_buffer_frames,
}

-- The result of `recv`: a count of bytes that is positive, with them, or zero; or an error, which is
-- EAGAIN or another.
pub data Received : Type 0 where
  bytes : List ℕ → Received
  no_bytes again failed : Received

-- What `DoReceive` returns, with the packets that the handler got.
pub record Outcome (S : Type 0) : Type 0 where
  pub result : Bool
  pub packets : List (List ℕ)
  pub conn : Connection
  pub socket : S

abbrev pub after : {S : Type 0} → List (List ℕ) → Outcome S → Result (Outcome S)
after ps o = ok (record o { packets = ps ++ o.packets })

abbrev pub stop : {S : Type 0} → Bool → Connection → S → Result (Outcome S)
stop b c s = ok (record { result = b; packets = []; conn = c; socket = s })

module _ {S : Type 0} where
  -- What a round of the loop of `DoReceive` does with the result of `recv`. `next` is the next round.
  pub received :
      (Connection → S → Result (Outcome S)) → Connection → Received × S → Result (Outcome S)
  received next c (bytes bs, s) =
      extract_buffer (record c { data_buf = c.data_buf ++ bs }) >>= λ (ps, u). next u s >>= after ps
  received next c (no_bytes, s) =
      if length c.data_buf == const_buff_size
      then (extract_buffer c >>= λ (ps, u). next u s >>= after ps)
      else stop false c s
  received next c (again, s) = stop true c s
  received next c (failed, s) = stop false c s

  -- `DoReceive`: a round of its loop makes one call of `recv` for the room that is left.
  pub do_receive : (ℕ → S → Received × S) → ℕ → Connection → S → Result (Outcome S)
  unfolding received
  do_receive recv zero c s = fault no_progress
  do_receive recv (suc fuel) c s =
      received (do_receive recv fuel) c (recv (const_buff_size - length c.data_buf) s)
