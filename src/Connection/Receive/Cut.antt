-- ===== src/Connection/Receive/Cut.antt =====
-- Where the bytes that have come end: behind whole packets, in a packet or at its end.
use game_project.Base.{
  ℕ, ◌<◌, ◌≤◌, ◌≡◌, refl, sym, ap, ◌∙◌, inl, inr, List, [], ◌∷◌, ◌++◌, dec_lt, length,
  length-append, arith,
}
use game_project.Connection.{header_size, const_buff_size, dw_size}
use game_project.Connection.Frames.{join, IsPacket, IsPart, ArePackets, dw_size-append}

-- Packets that fit into the receive buffer.
abbrev pub AreSmall : List (List ℕ) → Type 0
AreSmall [] = Unit {0}
AreSmall (p ∷ ps) = (IsPacket p × (length p < const_buff_size)) × AreSmall ps

-- The first bytes of a sequence of packets are whole packets and a part of the next one.
pub record Cut (d rest : List ℕ) (ps : List (List ℕ)) (t : List ℕ) : Type 0 where
  pub done : List (List ℕ)
  pub left : List (List ℕ)
  pub part : List ℕ
  pub all : done ++ left ≡ ps
  pub start : d ≡ join done part
  pub next : part ++ rest ≡ join left t
  pub small : AreSmall left
  pub packets : ArePackets done
  pub is_part : IsPart part

IsPart-sized :
    (d rest : List ℕ) (n : ℕ)
    → dw_size (d ++ rest) ≡ n
    → length d < n
    → n < const_buff_size
    → IsPart d
IsPart-sized d rest n e lt small = elim (dec_lt (length d) header_size) [
  | yes short ↦ inl short
  | no long ↦
      let s : dw_size d ≡ n = sym (dw_size-append d rest (omega arith)) ∙ e in
      inr (rw s lt, rw s small)
]

IsPart-append : (d rest t : List ℕ) → IsPart t → d ++ rest ≡ t → IsPart d
IsPart-append d rest t i e = elim (dec_lt (length d) header_size) [
  | yes short ↦ inl short
  | no long ↦ elim i [
    | inl short ↦ absurd (omega (arith, length-append d rest, ap length e))
    | inr (more, fits) ↦
        IsPart-sized d rest (dw_size t) (ap dw_size e)
          (omega (arith, length-append d rest, ap length e)) fits
  ]
]

-- A list that is as long as the first part of another starts with it.
split_at :
    (p d x y : List ℕ)
    → length p ≤ length d
    → d ++ x ≡ p ++ y
    → (d' : List ℕ) × (d ≡ p ++ d') × (d' ++ x ≡ y)
split_at [] d x y h e = (d, refl, e)
split_at (b ∷ p) [] x y h e = absurd (omega (arith, h))
split_at (b ∷ p) (c ∷ d) x y h e =
    let (d', q, r) = split_at p d x y (omega arith) (cc) in
    let same : c ≡ b = cc in (d', ap (λ z. z ∷ d) same ∙ ap (λ z. b ∷ z) q, r)

pub cut :
    (ps : List (List ℕ)) (d rest t : List ℕ)
    → AreSmall ps
    → IsPart t
    → d ++ rest ≡ join ps t
    → Cut d rest ps t
cut [] d rest t a i e = record {
  done = [];
  left = [];
  part = d;
  all = refl;
  start = refl;
  next = e;
  small = tt;
  packets = tt;
  is_part = IsPart-append d rest t i e;
}
cut (p ∷ ps) d rest t a i e = elim (dec_lt (length d) (length p)) [
  | yes lt ↦ record {
    done = [];
    left = p ∷ ps;
    part = d;
    all = refl;
    start = refl;
    next = e;
    small = a;
    packets = tt;
    is_part =
        IsPart-sized d rest (length p)
          (ap dw_size e ∙ dw_size-append p (join ps t) a.0.0.long ∙ a.0.0.sized) lt a.0.1;
  }
  | no ge ↦
      let (d', q, r) = split_at p d rest (join ps t) (omega arith) e in
      let c = cut ps d' rest t a.1 i r in
      record {
        done = p ∷ c.done;
        left = c.left;
        part = c.part;
        all = ap (λ z. p ∷ z) c.all;
        start = q ∙ ap (λ z. p ++ z) c.start;
        next = c.next;
        small = c.small;
        packets = (a.0.0, c.packets);
        is_part = c.is_part;
      }
]

pub part-room : (t : List ℕ) → IsPart t → length t < const_buff_size
part-room t (inl short) = omega arith
part-room t (inr (more, fits)) = omega arith

pub no_packet :
    (ps : List (List ℕ)) (d t : List ℕ)
    → AreSmall ps
    → IsPart d
    → d ≡ join ps t
    → (ps ≡ []) × (d ≡ t)
no_packet [] d t a i e = (refl, e)
no_packet (p ∷ ps) d t a i e =
    let n : length p ≤ length d = omega (arith, ap length e, length-append p (join ps t)) in
    let m : dw_size d ≡ length p =
      ap dw_size e ∙ dw_size-append p (join ps t) a.0.0.long ∙ a.0.0.sized in
    elim i [
      | inl short ↦ absurd (omega (arith, a.0.0.long))
      | inr (more, fits) ↦ absurd (omega (arith, m))
    ]
