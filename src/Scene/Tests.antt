-- ===== src/Scene/Tests.antt =====
-- A scene of nine cells at concrete inputs, with integers in place of FLOAT.
use mathlib.Core.Path.{subst}
use native.Mathlib.Nat.{mul_comm, le-div_iff_mul-le, div-le_of_le-mul}
use game_project.Base.{
  ℕ, suc, ◌+◌, ◌*◌, ◌/◌, ◌≤◌, ◌≡◌, refl, ap, inl, inr, true, false, none, some, List, [], ◌∷◌,
  Ensures, if◌then◌else◌, ◌==◌, Bool-cases, replicate, set, arith,
}
use game_project.Base.Int.{ℤ, pos, negsuc, pos_part, sub_ℕ, ltb_ℤ, ◌+ℤ◌, ◌-ℤ◌, ◌*ℤ◌, ◌≤ℤ◌}
use game_project.Cells.Position.{Floats, FloatLaws, IsWithin, Area, get_index_by_pos, cells_in}
use game_project.Cells.Stand.{AreCells}
use game_project.Scene.{
  Position, Player, Scene, Request, index_at, move_player, enter, move, leave, ut_none,
}
use game_project.Scene.Cell.{InMap}
use game_project.Scene.Holds.{code, cell_of, Holds}
use game_project.Scene.Move.{move_player-Holds}
use game_project.Scene.Init.{area_of}

abbrev quotient : ℤ → ℤ → ℤ
quotient (pos a) b = pos (a / pos_part b)
quotient (negsuc a) b = sub_ℕ 0 (suc a / pos_part b)

abbrev pub whole_numbers : Floats
whole_numbers = record {
  Float = ℤ;
  of_int = λ a. a;
  less = ltb_ℤ;
  add = ◌+ℤ◌;
  sub = ◌-ℤ◌;
  div = quotient;
  to_int = λ a. a;
}

abbrev pub IsBetween : ℤ → ℤ → ℤ → Type 0
IsBetween = IsWithin whole_numbers (λ x. Unit {0})

pub whole_raise : (x a b : ℤ) → a ≤ℤ b → ltb_ℤ a x ≡ false → ltb_ℤ b x ≡ false
whole_raise x a b h k = ground arith

pub whole_sub :
    (x s : ℤ) (a b : ℕ) → IsBetween (s +ℤ pos a) (s +ℤ pos b) x → IsBetween (pos a) (pos b) (x -ℤ s)
unfolding ◌+ℤ◌ ◌-ℤ◌
whole_sub x s a b w =
    let l = w.not_below in
    let h = w.not_above in
    record { number = tt; not_below = ground arith; not_above = ground arith }

pub whole_div :
    (x : ℤ) (d a b : ℕ)
    → 1 ≤ d
    → IsBetween (pos (a * d)) (pos (b * d)) x
    → IsBetween (pos a) (pos b) (quotient x (pos d))
whole_div (negsuc n) d a b h w = let l = w.not_below in absurd (ground arith)
whole_div (pos n) d a b h w =
    let l = w.not_below in
    let u = w.not_above in
    let low : a ≤ n / d = (le-div_iff_mul-le h).1 (ground arith) in
    let mul : d * b ≡ b * d = mul_comm d b in
    let high : n / d ≤ b = div-le_of_le-mul d (ground arith) in
    record { number = tt; not_below = ground arith; not_above = ground arith }

pub whole_add :
    (x : ℤ) (c a b : ℕ)
    → IsBetween (pos a) (pos b) x
    → IsBetween (pos (a + c)) (pos (b + c)) (x +ℤ pos c)
unfolding ◌+ℤ◌
whole_add x c a b w =
    let l = w.not_below in
    let h = w.not_above in
    record { number = tt; not_below = ground arith; not_above = ground arith }

pub whole_to_int :
    (x : ℤ) (a b : ℕ) → IsBetween (pos a) (pos b) x → (n : ℕ) × (x ≡ pos n) × (a ≤ n) × (n ≤ b)
whole_to_int (pos n) a b w =
    let l = w.not_below in let h = w.not_above in (n, refl, ground arith, ground arith)
whole_to_int (negsuc n) a b w = let l = w.not_below in absurd (ground arith)

abbrev pub whole_laws : FloatLaws whole_numbers
whole_laws = record {
  IsNumber = λ x. Unit {0};
  raise = λ x a b n e e' h k. whole_raise x a b h k;
  sub_lem = λ x s a b e e1 e2 e3 w. whole_sub x s a b w;
  div_lem = λ x d a b h e w. whole_div x d a b h w;
  add_lem = λ x c a b e w. whole_add x c a b w;
  to_int_lem = λ x a b e w. whole_to_int x a b w;
}

abbrev pub at : ℕ → ℕ → Position whole_numbers
at x z = record { x = pos x; y = pos 0; z = pos z }

abbrev pub nobody : Player whole_numbers
nobody = record {
  object_id = 0;
  object_pos = at 0 0;
  update_pos = at 0 0;
  update_status = ut_none;
  has_owner_scene = false;
  connect_id = 0;
  dir = 0;
}

-- Two characters enter, one moves to another cell, and the other leaves.
abbrev requests : List (Request whole_numbers)
requests =
    enter 7 (at 10 10) 1 ut_none ∷ enter 8 (at 60 10) 1 ut_none ∷ move 7 (at 70 20) 3 ∷ leave 8 ∷ []

abbrev small_area : Area
small_area = area_of whole_numbers whole_laws 3 3 (pos 0) (pos 100) (pos 0) (pos 100)

index_10_10 : index_at small_area (at 10 10) ≡ pos 4
unfolding get_index_by_pos ◌+ℤ◌ ◌-ℤ◌ ◌*ℤ◌
index_10_10 = refl

index_60_10 : index_at small_area (at 60 10) ≡ pos 5
unfolding get_index_by_pos ◌+ℤ◌ ◌-ℤ◌ ◌*ℤ◌
index_60_10 = refl

three : cells_in (pos 100 -ℤ pos 0) +ℤ pos 1 ≡ pos 3
unfolding ◌+ℤ◌ ◌-ℤ◌
three = refl

-- The scene once the character 7 has entered: the object 0 stands in the cell 4.
abbrev entered : Scene whole_numbers
entered = record {
  area = small_area;
  cells = record {
    heads = set (replicate 9 none) 4 (some 0);
    links = record { next = λ a. none; prev = λ a. none };
    made = 1;
  };
  objects = λ a. record nobody { object_id = 7; object_pos = at 10 10; has_owner_scene = true };
  players = λ id. if id == 7 then some 0 else none;
  updates = 0 ∷ [];
}

abbrev entered_lists : List (List ℕ)
entered_lists = set (replicate 9 []) 4 (0 ∷ [])

entered_player :
    (id a : ℕ)
    → entered.players id ≡ some a
    → InMap a entered_lists × ((entered.objects a).object_id ≡ id)
entered_player id a e = elim (Bool-cases (id == 7)) [
  | inl h ↦
      let q : some 0 ≡ some a = rw h at e in
      let same : 0 ≡ a = cc in
      let num : 7 ≡ id = ground arith in
      (
        subst (λ z. InMap z entered_lists) same
            (record { cell = 4; objects = 0 ∷ []; at = refl; has = refl }),
        num,
      )
  | inr h ↦ let q : none ≡ some a = rw h at e in cc
]

entered_cells :
    AreCells entered.cells.links
      (cell_of 3 3 small_area entered.objects)
      0
      entered.cells.heads
      entered_lists
entered_cells = (
  (refl, tt, tt),
  (
    (refl, tt, tt),
    (
      (refl, tt, tt),
      (
        (refl, tt, tt),
        (
          ((refl, refl, refl), (tt, tt), (ap (code 9) index_10_10, tt)),
          ((refl, tt, tt), ((refl, tt, tt), ((refl, tt, tt), ((refl, tt, tt), tt)))),
        ),
      ),
    ),
  ),
)

entered-Holds : Holds 3 3 entered entered_lists
entered-Holds = record {
  cells = entered_cells;
  below = omega arith;
  sized = refl;
  rows_lem = three;
  cols_lem = three;
  owned = λ a lt. refl;
  players = entered_player;
}

move_player-Holds_example :
    Ensures
      (λ (b, u).
        (b ≡ true)
        × Holds 3 3 u (set (set entered_lists 4 []) 5 (0 ∷ []))
        × (u.area ≡ small_area)
        × (u.players ≡ entered.players))
      (move_player 0 (at 60 10) 2 entered)
move_player-Holds_example =
    move_player-Holds 3 3 0 4 5 2 (at 60 10) entered entered_lists [] [] [] entered-Holds refl
      index_60_10 refl
