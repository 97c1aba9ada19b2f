-- ===== src/Connection/Large.antt =====
-- Packets that are larger than the receive buffer are put together in a buffer of their own.
use game_project.Base.{
  ℕ, suc, ◌+◌, ◌-◌, ◌<◌, ◌≤◌, ◌≡◌, refl, ap, ◌∙◌, true, false, Option, none, some, List, [], ◌∷◌,
  ◌++◌, ok, ◌>>=◌, ltb, leb, lt→ltb, length, length-append, arith,
}
use game_project.Connection.{
  Connection, Current, Pass, header_size, const_buff_size, dw_size, continue_current, read_packet,
  extract_pass, extract_loop, extract_buffer,
}
use game_project.Connection.Frames.{
  copy_to_new-ok, IsPart, read_packet-part, take-append, drop-append,
}

-- The first bytes of a large packet, with its header.
pub record IsLargePart (d : List ℕ) : Type 0 where
  pub long : header_size ≤ length d
  pub more : length d < dw_size d
  pub large : const_buff_size ≤ dw_size d
  pub short : dw_size d < 65536

-- Two rounds of the loop and more are within the fuel.
extract_buffer-fuel :
    (b : ℕ) (d : List ℕ) (o : Option Current)
    → let c : Connection = record { data_buf = b ∷ d; current = o } in
      extract_buffer c ≡ extract_loop (suc (suc (length (b ∷ d)))) c
unfolding extract_buffer
extract_buffer-fuel b d o =
    let e : suc (length d) + 2 ≡ suc (suc (suc (length d))) = omega arith in
    ap (λ z. extract_loop z (record { data_buf = b ∷ d; current = o })) e

read_packet-large :
    (d : List ℕ)
    → IsLargePart d
    → read_packet d
      ≡ ok (
          Pass.go_on []
            (record { data_buf = []; current = some (record { size = dw_size d; received = d }) }))
unfolding read_packet
read_packet-large d i =
    let a : ltb (length d) header_size ≡ false = ground (arith, i.long) in
    let b : ltb (dw_size d) const_buff_size ≡ false = ground (arith, i.large) in
    let c : leb (dw_size d) (length d) ≡ false = ground (arith, i.more) in
    let e : ltb (length d) (dw_size d) ≡ true = lt→ltb _ _ i.more in
    rw (a, e, b, c)
      (rw (copy_to_new-ok (dw_size d) (length d) i.short (omega (arith, i.more))) refl)

continue_current-drops :
    (d : List ℕ) (p : Current)
    → length p.received + length d < p.size
    → continue_current (record { data_buf = d; current = some p })
      ≡ Pass.leave [] (record { data_buf = []; current = some p })
unfolding continue_current
continue_current-drops d p h = rw (lt→ltb _ _ h) refl

extract_loop-drops :
    (fuel : ℕ) (d : List ℕ) (p : Current)
    → length p.received + length d < p.size
    → extract_loop (suc fuel) (record { data_buf = d; current = some p })
      ≡ ok ([], record { data_buf = []; current = some p })
unfolding extract_loop extract_pass
extract_loop-drops fuel d p h = rw (continue_current-drops d p h, extract_loop, extract_pass) refl

extract_pass-large :
    (d : List ℕ)
    → IsLargePart d
    → extract_pass (record { data_buf = d; current = none })
      ≡ ok (
          Pass.go_on []
            (record { data_buf = []; current = some (record { size = dw_size d; received = d }) }))
unfolding extract_pass continue_current
extract_pass-large d i = rw (read_packet-large d i) refl

extract_loop-next :
    (fuel : ℕ) (c u : Connection)
    → extract_pass c ≡ ok (Pass.go_on [] u)
    → extract_loop (suc fuel) c ≡ (extract_loop fuel u >>= λ (qs, v). ok ([] ++ qs, v))
unfolding extract_loop
extract_loop-next fuel c u e = rw (e, extract_loop) refl

-- The first bytes of a packet that is larger than the receive buffer, with its header, become the
-- current packet.
pub extract_buffer_large :
    (b : ℕ) (d : List ℕ)
    → IsLargePart (b ∷ d)
    → extract_buffer (record { data_buf = b ∷ d; current = none })
      ≡ ok (
        [],
        record {
          data_buf = [];
          current = some (record { size = dw_size (b ∷ d); received = b ∷ d });
        },
      )
extract_buffer_large b d i =
    let u : Connection = record {
      data_buf = [];
      current = some (record { size = dw_size (b ∷ d); received = b ∷ d });
    } in
    extract_buffer-fuel b d none
    ∙ extract_loop-next (suc (length (b ∷ d))) (record { data_buf = b ∷ d; current = none }) u
        (extract_pass-large (b ∷ d) i)
    ∙ ap (λ z. z >>= λ (qs, v). ok ([] ++ qs, v))
        (extract_loop-drops (length (b ∷ d)) []
          (record { size = dw_size (b ∷ d); received = b ∷ d }) (omega (arith, i.more)))

continue_current-completes :
    (d t : List ℕ) (p : Current)
    → length p.received + length d ≡ p.size
    → continue_current (record { data_buf = d ++ t; current = some p })
      ≡ Pass.go_on ((p.received ++ d) ∷ []) (record { data_buf = t; current = none })
unfolding continue_current
continue_current-completes d t p h =
    let a : ltb (length p.received + length (d ++ t)) p.size ≡ false =
      ground (arith, length-append d t) in
    let b : p.size - length p.received ≡ length d = omega arith in
    rw (a, b) (rw (take-append d t, drop-append d t) refl)

-- Bytes that complete the current packet, and the first part of one more, give the handler the
-- packet's first bytes followed by these, and the connection keeps the part.
pub extract_buffer_completes :
    (b : ℕ) (d t : List ℕ) (p : Current)
    → length p.received + length (b ∷ d) ≡ p.size
    → IsPart t
    → extract_buffer (record { data_buf = (b ∷ d) ++ t; current = some p })
      ≡ ok ((p.received ++ (b ∷ d)) ∷ [], record { data_buf = t; current = none })
unfolding extract_loop extract_pass
extract_buffer_completes b d t p h i =
    extract_buffer-fuel b (d ++ t) (some p)
    ∙ rw (continue_current-completes (b ∷ d) t p h, extract_loop, extract_pass)
        (rw (read_packet-part t i) refl)
