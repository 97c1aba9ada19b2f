-- ===== src/DataBuffer/Copy/Packet.antt =====
-- The copy that `SendCmdToConnection` hands on is a packet for another receiver.
use game_project.Base.{
  ℕ, ◌^◌, ◌<◌, ◌≤◌, ◌≡◌, ◌⊎◌, inl, inr, refl, sym, ap, ◌∙◌, List, true, false, Ensures, ◌==◌, leb,
  length, take, drop, get_or, length-take, arith,
}
use game_project.Connection.{dw_size}
use game_project.Connection.Frames.{IsPacket}
use game_project.Connection.Sizes.{alloc_data_buff-fits}
use game_project.BufferHelper.{overlay, to_bytes, from_bytes}
use game_project.BufferHelper.Memory.{
  get_or-before, get_or-behind, get_or-start, get_or-take, drop-behind,
}
use game_project.BufferHelper.Value.{
  length-to_bytes, length-overlay, take-overlay, from_bytes-to_bytes,
}
use game_project.DataBuffer.Copy.{
  DataBuffer, copy_from, readdress, command_of, send_cmd_to_connection,
}

-- The copy of `src` for another character and scene.
pub record IsCopy (char_id scene_id : ℕ) (src d : DataBuffer) : Type 0 where
  pub whole : IsPacket (take d.data_len d.memory)
  pub sized : d.data_len ≡ src.data_len
  -- the fields u64CharID and dwSceneID
  pub char_lem : from_bytes (take 8 (drop 20 d.memory)) ≡ char_id
  pub scene_lem : from_bytes (take 4 (drop 16 d.memory)) ≡ scene_id
  -- all other bytes
  pub rest :
      (i : ℕ) → i < src.data_len → (i < 16) ⊎ (28 ≤ i) → get_or d.memory i 0 ≡ get_or src.memory i 0

module _ (char_id scene_id : ℕ) (src : DataBuffer) (new : List ℕ)
    (packet : IsPacket (take src.data_len src.memory)) (long : src.data_len ≤ length src.memory)
    (room : src.data_len ≤ length new) (char : char_id < 256 ^ 8) (scene : scene_id < 256 ^ 4) where
  abbrev copied : List ℕ
  copied = overlay 0 (take src.data_len src.memory) new

  abbrev with_char : List ℕ
  with_char = overlay 20 (to_bytes 8 char_id) copied

  abbrev copy : DataBuffer
  copy = readdress char_id scene_id (record { memory = copied; data_len = src.data_len })

  size_lem : length (take src.data_len src.memory) ≡ src.data_len
  size_lem = length-take src.data_len src.memory ∙ omega arith

  at_least : 28 ≤ src.data_len
  at_least = omega (arith, packet.long, size_lem)

  length-copied : length copied ≡ length new
  length-copied = length-overlay 0 (take src.data_len src.memory) new

  copy_byte :
      (i : ℕ)
      → i < src.data_len
      → (i < 16) ⊎ (28 ≤ i)
      → get_or copy.memory i 0 ≡ get_or src.memory i 0
  copy_byte i lt place =
      let start =
        get_or-start i (take src.data_len src.memory) new (omega (arith, size_lem))
          (omega (arith, size_lem))
        ∙ get_or-take src.data_len i src.memory lt in
      elim place [
        | inl before ↦
            get_or-before 16 i (to_bytes 4 scene_id) with_char before
            ∙ get_or-before 20 i (to_bytes 8 char_id) copied (omega arith)
            ∙ start
        | inr behind ↦
            get_or-behind 16 i (to_bytes 4 scene_id) with_char
              (omega (arith, length-to_bytes 4 scene_id))
            ∙ get_or-behind 20 i (to_bytes 8 char_id) copied
                (omega (arith, length-to_bytes 8 char_id))
            ∙ start
      ]

  -- A byte of the size in the header.
  size_byte :
      (i : ℕ)
      → i < 16
      → get_or (take src.data_len copy.memory) i 0 ≡ get_or (take src.data_len src.memory) i 0
  size_byte i lt =
      let h : i < src.data_len = omega (arith, at_least) in
      get_or-take src.data_len i copy.memory h
      ∙ copy_byte i h (inl lt)
      ∙ sym (get_or-take src.data_len i src.memory h)

  dw_size-copy : dw_size (take src.data_len copy.memory) ≡ dw_size (take src.data_len src.memory)
  dw_size-copy =
      rw
        (
          size_byte 8 (omega arith),
          size_byte 9 (omega arith),
          size_byte 10 (omega arith),
          size_byte 11 (omega arith),
        )
        refl

  length-copy : length (take src.data_len copy.memory) ≡ src.data_len
  length-copy =
      length-take src.data_len copy.memory
      ∙ omega (
        arith,
        length-overlay 16 (to_bytes 4 scene_id) with_char,
        length-overlay 20 (to_bytes 8 char_id) copied,
        length-copied,
      )

  copy-IsCopy : IsCopy char_id scene_id src copy
  copy-IsCopy = record {
    whole = record {
      long = omega (arith, length-copy, at_least);
      sized = dw_size-copy ∙ packet.sized ∙ size_lem ∙ sym length-copy;
      short = omega (arith, length-copy, size_lem, packet.short);
    };
    sized = refl;
    char_lem =
        ap (λ z. from_bytes (take 8 z))
          (drop-behind 16 20 (to_bytes 4 scene_id) with_char
            (omega (arith, length-to_bytes 4 scene_id)))
        ∙ ap (λ z. from_bytes (take z (drop 20 with_char))) (sym (length-to_bytes 8 char_id))
        ∙ ap from_bytes (
            take-overlay 20 (to_bytes 8 char_id) copied
              (omega (arith, length-to_bytes 8 char_id, length-copied, at_least)))
        ∙ from_bytes-to_bytes 8 char_id char;
    scene_lem =
        ap (λ z. from_bytes (take z (drop 16 copy.memory))) (sym (length-to_bytes 4 scene_id))
        ∙ ap from_bytes (
            take-overlay 16 (to_bytes 4 scene_id) with_char (
              omega (
                arith,
                length-to_bytes 4 scene_id,
                length-overlay 20 (to_bytes 8 char_id) copied,
                length-copied,
                at_least,
              )))
        ∙ from_bytes-to_bytes 4 scene_id scene;
    rest = copy_byte;
  }

  command-copy : command_of copy.memory ≡ command_of src.memory
  command-copy =
      let h : 8 ≤ src.data_len = omega (arith, at_least) in
      rw
        (
          copy_byte 4 (omega (arith, h)) (inl (omega arith)),
          copy_byte 5 (omega (arith, h)) (inl (omega arith)),
          copy_byte 6 (omega (arith, h)) (inl (omega arith)),
          copy_byte 7 (omega (arith, h)) (inl (omega arith)),
        )
        refl

-- `SendCmdToConnection` of a packet to a connection with a number other than 0 hands on a copy that is a
-- packet of the same size, with the character and the scene that it was called with in its header, and
-- all other bytes as they were. Neither the character nor the command of the packet is 0, as the code
-- asserts; the character has 64 bits and the scene 32.
pub send_cmd_to_connection-IsCopy :
    (conn_id char_id scene_id : ℕ) (fresh : ℕ → List ℕ) (src : DataBuffer)
    → (conn_id == 0) ≡ false
    → (char_id == 0) ≡ false
    → (command_of src.memory == 0) ≡ false
    → ((size : ℕ) → length (fresh size) ≡ size)
    → IsPacket (take src.data_len src.memory)
    → src.data_len ≤ length src.memory
    → char_id < 256 ^ 8
    → scene_id < 256 ^ 4
    → Ensures
        (IsCopy char_id scene_id src)
        (send_cmd_to_connection conn_id char_id scene_id fresh src)
unfolding send_cmd_to_connection copy_from
send_cmd_to_connection-IsCopy conn_id char_id scene_id fresh src ne some_char some_command sizes
      packet long char scene =
    let short : src.data_len < 65536 =
      omega (arith, packet.short, length-take src.data_len src.memory) in
    let (size, e, fits) = alloc_data_buff-fits src.data_len short in
    let room : src.data_len ≤ length (fresh size) = omega (arith, sizes size) in
    let a : leb src.data_len (length src.memory) ≡ true = ground arith in
    let b : leb src.data_len (length (fresh size)) ≡ true = ground arith in
    let same = command-copy char_id scene_id src (fresh size) packet long room char scene in
    rw (ne, e, a, b, some_char, same, some_command)
      ((copy-IsCopy char_id scene_id src (fresh size) packet long room char scene))
