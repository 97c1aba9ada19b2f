-- ===== src/Connection/Receive/Stream.antt =====
-- `DoReceive` takes the packets of a stream, however `recv` cuts it.
use mathlib.Core.List.{append_assoc, append-nil}
use game_project.Base.{
  ℕ, zero, suc, ◌+◌, ◌-◌, ◌<◌, ◌≤◌, ◌≡◌, refl, sym, ap, ◌∙◌, true, List, [], ◌++◌, Result, none,
  Never, Ensures, Ensures-bind, length, length-append, arith,
}
use game_project.Connection.{Connection, const_buff_size}
use game_project.Connection.Frames.{join, IsPart, extract_buffer_frames}
use game_project.Connection.Receive.{
  Received, bytes, no_bytes, again, failed, Outcome, after, received, do_receive,
}
use game_project.Connection.Receive.Cut.{AreSmall, cut, part-room, no_packet}

module _ {S : Type 0} (recv : ℕ → S → Received × S) (stream : S → List ℕ) where
  -- A call of `recv` for up to `n` bytes gives some of the next bytes of the stream, in their order,
  -- and EAGAIN if none is there.
  abbrev pub Delivered : ℕ → List ℕ → Received × S → Type 0
  Delivered n d (bytes bs, s) = (0 < length bs) × (length bs ≤ n) × (bs ++ stream s ≡ d)
  Delivered n d (again, s) = (d ≡ []) × (stream s ≡ [])
  Delivered n d (no_bytes, s) = Never
  Delivered n d (failed, s) = Never

  abbrev pub Delivers : Type 0
  Delivers = (n : ℕ) (s : S) → 0 < n → Delivered n (stream s) (recv n s)

  -- `DoReceive` has taken all bytes, and the handler has got the packets.
  pub record Receives (ps : List (List ℕ)) (t : List ℕ) (o : Outcome S) : Type 0 where
    pub result : o.result ≡ true
    pub packets : o.packets ≡ ps
    pub conn : o.conn ≡ record { data_buf = t; current = none }
    pub all : stream o.socket ≡ []

  -- One round, where the next one does what is asked of it.
  abbrev Next : ℕ → (Connection → S → Result (Outcome S)) → Type 0
  Next fuel next =
      (ps : List (List ℕ)) (d t : List ℕ) (s : S)
      → length (stream s) < fuel
      → AreSmall ps
      → IsPart t
      → IsPart d
      → d ++ stream s ≡ join ps t
      → Ensures (Receives ps t) (next (record { data_buf = d; current = none }) s)

  round :
      (fuel : ℕ) (next : Connection → S → Result (Outcome S)) (ps : List (List ℕ))
      (d t rest : List ℕ) (n : ℕ) (r : Received × S)
      → Next fuel next
      → length rest < suc fuel
      → AreSmall ps
      → IsPart t
      → IsPart d
      → d ++ rest ≡ join ps t
      → Delivered n rest r
      → Ensures (Receives ps t) (received next (record { data_buf = d; current = none }) r)
  unfolding received
  round fuel next ps d t rest n (bytes bs, s) ih lt a i j e h =
      let c =
        cut ps (d ++ bs) (stream s) t a i
          (append_assoc d bs (stream s) ∙ ap (λ z. d ++ z) h.2 ∙ e) in
      rw c.start (
        rw (extract_buffer_frames c.done c.part c.packets c.is_part) (
          Ensures-bind (Receives c.left t) (Receives ps t) _ (after c.done)
            (ih c.left c.part t s (omega (arith, length-append bs (stream s), ap length h.2))
              c.small i c.is_part c.next)
            (λ o k. record {
              result = k.result;
              packets = ap (λ z. c.done ++ z) k.packets ∙ c.all;
              conn = k.conn;
              all = k.all;
            })))
  round fuel next ps d t rest n (again, s) ih lt a i j e (h, k) =
      let (none_left, same) = no_packet ps d t a j (sym (append-nil d) ∙ rw (← h) e) in
      record { result = refl; packets = sym none_left; conn = rw same refl; all = k }
  round fuel next ps d t rest n (no_bytes, s) ih lt a i j e h = elim h [ ]
  round fuel next ps d t rest n (failed, s) ih lt a i j e h = elim h [ ]

  receives : Delivers → (fuel : ℕ) → Next fuel (do_receive recv fuel)
  unfolding do_receive
  receives law zero ps d t s lt a i j e = absurd (omega arith)
  receives law (suc fuel) ps d t s lt a i j e =
      let n = const_buff_size - length d in
      let room : 0 < n = omega (arith, part-room d j) in
      round fuel (do_receive recv fuel) ps d t (stream s) n (recv n s) (receives law fuel) lt a i j
        e (law n s room)

  -- While the peer stays connected and `recv` does not fail, `DoReceive` returns TRUE, however `recv`
  -- cuts the stream: if the bytes that the connection holds and those that are there to be received
  -- are packets, each of them smaller than the receive buffer, and the first part of one more, the
  -- handler gets the packets in their order, each with its bytes, and the connection keeps the part.
  -- The loop takes no more rounds than there are bytes, and one.
  pub do_receive-Receives :
      Delivers
      → (ps : List (List ℕ)) (d t : List ℕ) (s : S) → AreSmall ps
      → IsPart t
      → IsPart d
      → d ++ stream s ≡ join ps t
      → Ensures
          (Receives ps t)
          (do_receive recv (length (stream s) + 1) (record { data_buf = d; current = none }) s)
  do_receive-Receives law ps d t s a i j e =
      receives law (length (stream s) + 1) ps d t s (omega arith) a i j e
