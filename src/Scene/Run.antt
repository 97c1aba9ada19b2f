-- ===== src/Scene/Run.antt =====
-- A sequence of requests keeps the cells and the players of a scene together.
use mathlib.Core.Path.{subst}
use game_project.Base.{
  ℕ, zero, suc, ◌+◌, ◌*◌, ◌<◌, ◌≡◌, ◌≢◌, refl, sym, ap, ◌∙◌, ◌⊎◌, inl, inr, Bool, true, false,
  Bool-cases, if◌then◌else◌, ◌==◌, Option, none, some, List, [], ◌∷◌, ◌++◌, Ensures, Ensures-bind,
  Ensures-weaken, length, get_elem?, Option-cases, arith,
}
use game_project.Base.Int.{pos, negsuc}
use game_project.Links.{Links}
use game_project.Cells.Stand.{AreCells}
use game_project.Cells.Position.{Floats, FloatLaws, Area}
use game_project.Cells.Position.Bounds.{AreSmall, get_index_by_pos-InGrid, index-lt}
use game_project.Scene.{
  Position, put_player, is_some, Scene, Request, enter, move, leave, index_at, move_player,
  on_cmd_player_move, on_cmd_leave_game_req, on_cmd_char_enter_scene_req, dispatch_packet,
  dispatch_all,
}
use game_project.Scene.Cell.{split}
use game_project.Scene.Holds.{Holds}
use game_project.Scene.Move.{move_player-Holds}
use game_project.Scene.Enter.{on_cmd_char_enter_scene_req-Holds}
use game_project.Scene.Leave.{on_cmd_leave_game_req-Holds}

-- As many lists as cells.
pub AreCells-length :
    (l : Links) (cell : ℕ → ℕ) (i : ℕ) (hs : List (Option ℕ)) (xss : List (List ℕ))
    → AreCells l cell i hs xss
    → length xss ≡ length hs
AreCells-length l cell i [] [] c = refl
AreCells-length l cell i [] (xs ∷ xss) c = elim c [ ]
AreCells-length l cell i (h ∷ hs) [] c = elim c [ ]
AreCells-length l cell i (h ∷ hs) (xs ∷ xss) c = ap suc (AreCells-length l cell (i + 1) hs xss c.1)

pub get_elem?-some {ℓ} :
    {A : Type ℓ} (xs : List A) (n : ℕ) → n < length xs → (x : A) × (get_elem? xs n ≡ some x)
get_elem?-some [] n h = absurd (omega arith)
get_elem?-some (x ∷ xs) zero h = (x, refl)
get_elem?-some (x ∷ xs) (suc n) h = get_elem?-some xs n (omega arith)

module _ (f : Floats) (laws : FloatLaws f) (rows cols : ℕ) where
  -- The numbers that are registered after a request.
  abbrev pub after : Request f → (ℕ → Bool) → ℕ → Bool
  after (enter id p conn memory) g k = if k == id then true else g k
  after (move id p dir) g k = g k
  after (leave id) g k = if k == id then false else g k

  -- A request keeps to what the handlers assert: a character enters that is not registered, and only one
  -- that is moves or leaves; the position is in a cell, and its coordinates are numbers.
  abbrev pub IsLegal : Area → (ℕ → Bool) → Request f → Type 0
  IsLegal m g (enter id p conn memory) =
      laws.IsNumber p.x × laws.IsNumber p.z × (index_at m p ≢ negsuc 0) × (g id ≡ false)
  IsLegal m g (move id p dir) =
      laws.IsNumber p.x × laws.IsNumber p.z × (index_at m p ≢ negsuc 0) × (g id ≡ true)
  IsLegal m g (leave id) = g id ≡ true

  abbrev pub AreLegal : Area → (ℕ → Bool) → List (Request f) → Type 0
  AreLegal m g [] = Unit {0}
  AreLegal m g (r ∷ rs) = IsLegal m g r × AreLegal m (after r g) rs

  abbrev pub after_all : List (Request f) → (ℕ → Bool) → ℕ → Bool
  after_all [] g = g
  after_all (r ∷ rs) g = after_all rs (after r g)

  -- Each registered player stands in the cell of its position and in no other, each cell is a list of
  -- distinct objects that belong there, and `g` tells which numbers are registered. The borders are at most
  -- four million from 0.
  pub record IsSafe (m : Area) (g : ℕ → Bool) (s : Scene f) : Type 0 where
    pub area : s.area ≡ m
    pub small : AreSmall m
    pub lists : List (List ℕ)
    pub holds : Holds rows cols s lists
    pub registered : (k : ℕ) → is_some (s.players k) ≡ g k

  put_player-is_some :
      (id k : ℕ) (v : Option ℕ) (h : ℕ → Option ℕ) (g : ℕ → Bool)
      → ((k : ℕ) → is_some (h k) ≡ g k)
      → is_some (put_player id v h k) ≡ (if k == id then is_some v else g k)
  put_player-is_some id k v h g e = elim (Bool-cases (k == id)) [
    | inl y ↦ rw y refl
    | inr y ↦ rw y (e k)
  ]

  -- An index of the grid has a list.
  list_at :
      (s : Scene f) (xss : List (List ℕ)) (p : Position f)
      → Holds rows cols s xss
      → AreSmall s.area
      → laws.IsNumber p.x
      → laws.IsNumber p.z
      → (index_at s.area p ≡ negsuc 0)
        ⊎ ((n : ℕ) × (xs : List ℕ) × (index_at s.area p ≡ pos n) × (get_elem? xss n ≡ some xs))
  list_at s xss p h small nx nz =
      elim (get_index_by_pos-InGrid f laws s.area rows cols p.x p.z h.rows_lem h.cols_lem small nx
        nz) [
          | inl e ↦ inl e
          | inr (r, c, e, lo, hi, lo', hi', row, col) ↦
              let len = AreCells-length _ _ 0 s.cells.heads xss h.cells in
              let (xs, g) =
                get_elem?-some xss (r * cols + c)
                  (omega (arith, index-lt rows cols r c hi hi', len, h.sized)) in
              inr (r * cols + c, xs, e, g)
        ]

  -- An index of the grid that is not -1 has a list.
  inside :
      (m : Area) (g : ℕ → Bool) (s : Scene f) (q : IsSafe m g s) (p : Position f)
      → laws.IsNumber p.x
      → laws.IsNumber p.z
      → index_at m p ≢ negsuc 0
      → (n : ℕ) × (xs : List ℕ) × (index_at s.area p ≡ pos n) × (get_elem? q.lists n ≡ some xs)
  inside m g s q p nx nz ne =
      elim (list_at s q.lists p q.holds (subst AreSmall (sym q.area) q.small) nx nz) [
        | inl e ↦ absurd (ne (ap (λ z. index_at z p) (sym q.area) ∙ e))
        | inr there ↦ there
      ]

  -- The lists around a registered player.
  record Place (s : Scene f) (xss : List (List ℕ)) (id : ℕ) : Type 0 where
    object : ℕ
    found : s.players id ≡ some object
    cell : ℕ
    before : List ℕ
    behind : List ℕ
    at : get_elem? xss cell ≡ some (before ++ (object ∷ behind))

  player-Place :
      (m : Area) (g : ℕ → Bool) (s : Scene f) (q : IsSafe m g s) (id : ℕ)
      → g id ≡ true
      → Place s q.lists id
  player-Place m g s q id t = elim (Option-cases (s.players id)) [
    | inl e ↦ let bad : false ≡ true = ap is_some (sym e) ∙ q.registered id ∙ t in absurd cc
    | inr (a, e) ↦
        let i = (q.holds.players id a e).0 in
        let c = split a i.objects i.has in
        record {
          object = a;
          found = e;
          cell = i.cell;
          before = c.before;
          behind = c.behind;
          at = i.at ∙ ap some c.whole;
        }
  ]

  not_registered :
      (m : Area) (g : ℕ → Bool) (s : Scene f) (q : IsSafe m g s) (id : ℕ)
      → g id ≡ false
      → s.players id ≡ none
  not_registered m g s q id t = elim (Option-cases (s.players id)) [
    | inl e ↦ e
    | inr (a, e) ↦ let bad : true ≡ false = ap is_some (sym e) ∙ q.registered id ∙ t in absurd cc
  ]

  -- A request that keeps to what the handlers assert is answered with TRUE, without a fault or an ASSERT
  -- that fails, and leaves each registered player in the cell of its position, and in no other; an
  -- entry registers its number, an exit takes it out, and nothing else changes the numbers.
  pub dispatch_packet-IsSafe :
      (m : Area) (g : ℕ → Bool) (r : Request f) (s : Scene f)
      → IsLegal m g r
      → IsSafe m g s
      → Ensures (λ (b, u). (b ≡ true) × IsSafe m (after r g) u) (dispatch_packet r s)
  unfolding dispatch_packet on_cmd_player_move
  dispatch_packet-IsSafe m g (enter id p conn memory) s l q =
      let (n, xs, e, at) = inside m g s q p l.0 l.1 l.2 in
      Ensures-weaken _ (λ (b, u). (b ≡ true) × IsSafe m (after (enter id p conn memory) g) u)
        (on_cmd_char_enter_scene_req id p conn memory s)
        (on_cmd_char_enter_scene_req-Holds rows cols id conn n p memory s q.lists xs q.holds
          (not_registered m g s q id l.3) e at)
        (λ r t. (
          t.0,
          record {
            area = t.3 ∙ q.area;
            small = q.small;
            lists = _;
            holds = t.1;
            registered = λ k.
                ap (λ z. is_some (z k)) t.2
                ∙ put_player-is_some id k (some s.cells.made) s.players g q.registered;
          },
        ))
  dispatch_packet-IsSafe m g (move id p dir) s l q =
      let (n, xs, e, at) = inside m g s q p l.0 l.1 l.2 in
      let w = player-Place m g s q id l.3 in
      rw (w.found, on_cmd_player_move)
        (Ensures-weaken _ (λ (b, u). (b ≡ true) × IsSafe m (after (move id p dir) g) u)
          (move_player w.object p dir s)
          (move_player-Holds rows cols w.object w.cell n dir p s q.lists w.before w.behind xs
            q.holds w.at e at)
          (λ r t. (
            t.0,
            record {
              area = t.2 ∙ q.area;
              small = q.small;
              lists = _;
              holds = t.1;
              registered = λ k. ap (λ z. is_some (z k)) t.3 ∙ q.registered k;
            },
          )))
  dispatch_packet-IsSafe m g (leave id) s l q =
      let w = player-Place m g s q id l in
      Ensures-weaken _ (λ (b, u). (b ≡ true) × IsSafe m (after (leave id) g) u)
        (on_cmd_leave_game_req id s)
        (on_cmd_leave_game_req-Holds rows cols w.object id w.cell s q.lists w.before w.behind
          q.holds w.found w.at)
        (λ r t. (
          t.0,
          record {
            area = t.3 ∙ q.area;
            small = q.small;
            lists = _;
            holds = t.1;
            registered = λ k.
                ap (λ z. is_some (z k)) t.2 ∙ put_player-is_some id k none s.players g q.registered;
          },
        ))

  -- Any sequence of such requests does so.
  pub dispatch_all-IsSafe :
      (m : Area) (g : ℕ → Bool) (rs : List (Request f)) (s : Scene f)
      → AreLegal m g rs
      → IsSafe m g s
      → Ensures (IsSafe m (after_all rs g)) (dispatch_all rs s)
  unfolding dispatch_all
  dispatch_all-IsSafe m g [] s l q = q
  dispatch_all-IsSafe m g (r ∷ rs) s l q =
      Ensures-bind (λ (b, u). (b ≡ true) × IsSafe m (after r g) u) (IsSafe m (after_all (r ∷ rs) g))
        (dispatch_packet r s) (λ (b, u). dispatch_all rs u) (dispatch_packet-IsSafe m g r s l.0 q)
        (λ x t. dispatch_all-IsSafe m (after r g) rs x.1 l.1 t.1)
