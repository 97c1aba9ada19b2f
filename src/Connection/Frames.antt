-- ===== src/Connection/Frames.antt =====
-- Packets that stand whole in the bytes are taken out whole and in their order.
use game_project.Base.{
  ℕ, zero, suc, ◌+◌, ◌<◌, ◌≤◌, ◌≡◌, refl, ap, ◌∙◌, ◌⊎◌, inl, inr, true, false, none, List, [], ◌∷◌,
  ◌++◌, Result, ok, fault, no_progress, ltb, leb, ltb→ge, lt→ltb, length, length-append, take, drop,
  get_or, arith, Bool-cases,
}
use game_project.Connection.{
  Connection, Pass, header_size, const_buff_size, dw_size, alloc_data_buff, copy_to_new,
  continue_current, read_packet, extract_pass, extract_loop, extract_buffer,
}

-- The bytes of packets one after another.
abbrev pub join : List (List ℕ) → List ℕ → List ℕ
join [] t = t
join (p ∷ ps) t = p ++ join ps t

-- A packet whose header tells its size, and for which there is a buffer.
pub record IsPacket (p : List ℕ) : Type 0 where
  pub long : header_size ≤ length p
  pub sized : dw_size p ≡ length p
  pub short : length p < 65536

-- The first bytes of a packet that fits into the receive buffer, without its last ones.
abbrev pub IsPart : List ℕ → Type 0
IsPart t = (length t < header_size) ⊎ ((length t < dw_size t) × (dw_size t < const_buff_size))

abbrev pub ArePackets : List (List ℕ) → Type 0
ArePackets [] = Unit {0}
ArePackets (p ∷ ps) = IsPacket p × ArePackets ps

get_or-append : (p q : List ℕ) (i : ℕ) → i < length p → get_or (p ++ q) i 0 ≡ get_or p i 0
get_or-append [] q i h = absurd (omega arith)
get_or-append (x ∷ p) q zero h = refl
get_or-append (x ∷ p) q (suc i) h = get_or-append p q i (omega arith)

pub dw_size-append : (p q : List ℕ) → header_size ≤ length p → dw_size (p ++ q) ≡ dw_size p
dw_size-append p q h =
    rw
      (
        get_or-append p q 8 (omega arith),
        get_or-append p q 9 (omega arith),
        get_or-append p q 10 (omega arith),
        get_or-append p q 11 (omega arith),
      )
      refl

pub take-append : (p q : List ℕ) → take (length p) (p ++ q) ≡ p
take-append [] q = refl
take-append (x ∷ p) q = ap (λ z. x ∷ z) (take-append p q)

pub drop-append : (p q : List ℕ) → drop (length p) (p ++ q) ≡ q
drop-append [] q = refl
drop-append (x ∷ p) q = drop-append p q

-- There is a buffer for every size below 64K.
pub copy_to_new-ok : (n len : ℕ) → n < 65536 → len ≤ n → copy_to_new n len ≡ ok tt
unfolding alloc_data_buff
copy_to_new-ok n len lt le = ground arith

abbrev whole : List ℕ → Connection
whole d = record { data_buf = d; current = none }

read_packet-whole :
    (p d : List ℕ) → IsPacket p → read_packet (p ++ d) ≡ ok (Pass.go_on (p ∷ []) (whole d))
unfolding read_packet
read_packet-whole p d i =
    let n = length-append p d in
    let size : dw_size (p ++ d) ≡ length p = dw_size-append p d i.long ∙ i.sized in
    let a : ltb (length (p ++ d)) header_size ≡ false = ground (arith, n, i.long) in
    let b : ltb (length (p ++ d)) (length p) ≡ false = ground (arith, n) in
    let c : leb (length p) (length (p ++ d)) ≡ true = ground (arith, n) in
    rw (size, a, b, c)
      (rw
        (
          copy_to_new-ok (length p) (length p) i.short (omega arith),
          take-append p d,
          drop-append p d,
        )
        refl)

pub read_packet-part : (t : List ℕ) → IsPart t → read_packet t ≡ ok (Pass.leave [] (whole t))
unfolding read_packet
read_packet-part t i = elim (Bool-cases (ltb (length t) header_size)) [
  | inl p ↦ rw p refl
  | inr p ↦ elim i [
    | inl short ↦ absurd (omega (arith, ltb→ge _ _ p))
    | inr (more, fits) ↦
        let a : ltb (length t) (dw_size t) ≡ true = lt→ltb _ _ more in
        let b : ltb (dw_size t) const_buff_size ≡ true = lt→ltb _ _ fits in rw (p, a, b) refl
  ]
]

extract_loop_frames :
    (fuel : ℕ) (ps : List (List ℕ)) (t : List ℕ)
    → length ps < fuel
    → ArePackets ps
    → IsPart t
    → extract_loop fuel (whole (join ps t)) ≡ ok (ps, whole t)
unfolding extract_loop extract_pass continue_current
extract_loop_frames zero ps t lt a i = absurd (omega arith)
extract_loop_frames (suc fuel) [] t lt a i = rw (read_packet-part t i) refl
extract_loop_frames (suc fuel) (p ∷ ps) t lt a i =
    rw (read_packet-whole p (join ps t) a.0)
      (rw (extract_loop_frames fuel ps t (omega arith) a.1 i) refl)

length-join : (ps : List (List ℕ)) (t : List ℕ) → ArePackets ps → length ps ≤ length (join ps t)
length-join [] t a = omega arith
length-join (p ∷ ps) t a =
    omega (arith, length-join ps t a.1, length-append p (join ps t), a.0.long)

no_bytes :
    (ps : List (List ℕ)) (t : List ℕ)
    → ArePackets ps
    → [] ≡ join ps t
    → let r : Result (List (List ℕ) × Connection) = ok ([], whole []) in r ≡ ok (ps, whole t)
no_bytes [] t a e = rw (← e) refl
no_bytes (p ∷ ps) t a e = absurd (omega (arith, ap length e, length-append p (join ps t), a.0.long))

frames_of :
    (d : List ℕ) (ps : List (List ℕ)) (t : List ℕ)
    → ArePackets ps
    → IsPart t
    → d ≡ join ps t
    → extract_buffer (whole d) ≡ ok (ps, whole t)
unfolding extract_buffer
frames_of [] ps t a i e = no_bytes ps t a e
frames_of (b ∷ d) ps t a i e =
    ap (λ z. extract_loop (length (b ∷ d) + 2) (whole z)) e
    ∙ extract_loop_frames (length (b ∷ d) + 2) ps t (omega (arith, length-join ps t a, ap length e))
        a i

pub extract_buffer_frames :
    (ps : List (List ℕ)) (t : List ℕ)
    → ArePackets ps
    → IsPart t
    → extract_buffer (record { data_buf = join ps t; current = none })
      ≡ ok (ps, record { data_buf = t; current = none })
extract_buffer_frames ps t a i = frames_of (join ps t) ps t a i refl

-- A header whose size is 0, at the start of the bytes and outside of a larger packet, makes the loop go
-- on for ever: no number of rounds is enough.
pub zero_size_no_progress :
    (fuel : ℕ) (d : List ℕ)
    → header_size ≤ length d
    → dw_size d ≡ 0
    → extract_loop fuel (record { data_buf = d; current = none }) ≡ fault no_progress
unfolding extract_loop extract_pass continue_current read_packet
zero_size_no_progress zero d h e = refl
zero_size_no_progress (suc fuel) d h e =
    let a : ltb (length d) header_size ≡ false = ground arith in
    let b : ltb (length d) 0 ≡ false = ground arith in
    let c : leb 0 (length d) ≡ true = ground arith in
    rw (a, e) (rw (b, c) (rw (zero_size_no_progress fuel d h e) refl))
