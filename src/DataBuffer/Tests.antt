-- ===== src/DataBuffer/Tests.antt =====
-- The buffers at concrete inputs.
use game_project.Base.{
  length-replicate, replicate, ◌++◌, refl, none, some, [], ◌∷◌, arith, Ensures, if◌then◌else◌, ◌==◌,
}
use game_project.Base.Int.{pos}
use game_project.DataBuffer.{BufferManager, release}
use game_project.DataBuffer.Lists.{Buffers}
use game_project.DataBuffer.Copy.{DataBuffer, send_cmd_to_connection}
use game_project.DataBuffer.Copy.Packet.{IsCopy, send_cmd_to_connection-IsCopy}
use game_project.DataBuffer.Release.{release-Buffers}

-- Buffers 2, 1 and 0 are in use, and 3 is free.
abbrev four_buffers : BufferManager
four_buffers = record {
  links = record {
    next = λ b. if b == 2 then some 1 else if b == 1 then some 0 else none;
    prev = λ b. if b == 1 then some 2 else if b == 0 then some 1 else none;
  };
  ref_count = λ _. pos 1;
  free_list = some 3;
  used_list = some 2;
  made = 4;
}

abbrev no_buffers : BufferManager
no_buffers = record {
  links = record { next = λ _. none; prev = λ _. none };
  ref_count = λ _. pos 0;
  free_list = none;
  used_list = none;
  made = 0;
}

four_buffers-Buffers : Buffers four_buffers (2 ∷ 1 ∷ 0 ∷ []) (3 ∷ [])
four_buffers-Buffers = record {
  used = (refl, refl, (refl, refl, (refl, refl, refl)));
  free = (refl, refl, refl);
  distinct_used = ground arith;
  distinct_free = ground arith;
  apart = ground arith;
  made_used = ground arith;
  made_free = ground arith;
}

no_buffers-Buffers : Buffers no_buffers [] []
no_buffers-Buffers = record {
  used = refl;
  free = refl;
  distinct_used = tt;
  distinct_free = tt;
  apart = tt;
  made_used = tt;
  made_free = tt;
}

release-Buffers_example :
    Ensures (λ u. Buffers u (2 ∷ 0 ∷ []) (1 ∷ 3 ∷ [])) (release 1 four_buffers)
release-Buffers_example =
    release-Buffers 1 four_buffers (2 ∷ []) (0 ∷ []) (3 ∷ []) four_buffers-Buffers refl

-- A packet of the command 7 without a body, in a buffer of 32 bytes.
abbrev small_packet : DataBuffer
small_packet = record {
  memory = (255 ∷ 0 ∷ 0 ∷ 0 ∷ 7 ∷ 0 ∷ 0 ∷ 0 ∷ 28 ∷ []) ++ replicate 23 0;
  data_len = 28;
}

send_cmd_to_connection-IsCopy_example :
    Ensures
      (IsCopy 77 3 small_packet)
      (send_cmd_to_connection 5 77 3 (λ size. replicate size 0) small_packet)
send_cmd_to_connection-IsCopy_example =
    send_cmd_to_connection-IsCopy 5 77 3 (λ size. replicate size 0) small_packet refl refl refl
      (λ size. length-replicate size 0)
      (record { long = omega arith; sized = refl; short = omega arith }) (omega arith) (omega arith)
      (omega arith)
