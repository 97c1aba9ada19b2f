-- ===== src/Cells.antt =====
-- The objects of the cells of a scene: `CGrid` of project/Server/GameServer/Grid.cpp, and the operations
-- of project/Server/GameServer/GridManager.cpp that look up a cell by its index. An object is named by
-- its address; `new` gives 0, 1, 2, ... in their order. An ASSERT or
-- ASSERT_FAIELD that fails is a fault.
pub mod Local
pub mod Stand
pub mod Add
pub mod Remove
pub mod Take
pub mod Find
pub mod Position
mod Tests
use game_project.Base.{
  ℕ, zero, suc, ◌+◌, Bool, true, false, Option, none, some, is_none, List, Result, ok, fault,
  null_pointer, out_of_range, no_progress, assert, assertion, ◌>>=◌, if◌then◌else◌, ◌==◌, get_elem?,
  set,
}
use game_project.Base.Int.{ℤ, pos, negsuc}
use game_project.Links.{Links, set_next, set_prev, set_prev_if, unlink_from}

abbrev pub points_to : Option ℕ → ℕ → Bool
points_to none a = false
points_to (some b) a = b == a

-- `AddObject` in a cell whose m_pHead is `head`.
pub add_object : ℕ → Option ℕ → Links → Result (Option ℕ × Links)
add_object a head l = assert (is_none (l.next a)) >>= λ _. assert (is_none (l.prev a)) >>= λ _.
    elim head [
      | none ↦ ok (some a, set_prev a none (set_next a none l))
      | some h ↦ ok (some a, set_prev h (some a) (set_prev a none (set_next a (some h) l)))
    ]

-- The walk of `RemoveObject` to the first object of the list.
pub walk_back : ℕ → ℕ → Links → Result ℕ
walk_back zero a l = fault no_progress
walk_back (suc fuel) a l = elim (l.prev a) [ none ↦ ok a | some p ↦ walk_back fuel p l ]

-- The ASSERT on the object behind the one that is removed.
abbrev pub check_next : ℕ → Option ℕ → Links → Result (Unit {0})
check_next a none l = ok tt
check_next a (some n) l = assert (points_to (l.prev n) a)

-- `RemoveObject` of the first object.
pub remove_first : ℕ → Links → Result (Option ℕ × Links)
remove_first a l = check_next a (l.next a) l >>= λ _. ok (l.next a, set_prev_if (l.next a) none l)

-- The unlinking of an object in `RemoveObject`, by its m_pGridPrev.
abbrev pub bridge_over : ℕ → Option ℕ → Links → Option ℕ → Result (Option ℕ × Links)
bridge_over a head l none = fault null_pointer
bridge_over a head l (some p) =
    assert (points_to (l.next p) a) >>= λ _. ok (head, unlink_from p a l)

-- `RemoveObject` of an object that is not the first one.
pub remove_behind : ℕ → ℕ → Option ℕ → Links → Result (Option ℕ × Links)
unfolding walk_back
remove_behind fuel a head l =
    walk_back fuel a l >>= λ t. assert (points_to head t) >>= λ _. bridge_over a head l (l.prev a)

-- `RemoveObject`
pub remove_object : ℕ → ℕ → Option ℕ → Links → Result (Option ℕ × Links)
unfolding remove_first remove_behind
remove_object fuel a head l =
    (if points_to head a then remove_first a l else remove_behind fuel a head l) >>= λ (h, l').
    ok (h, set_prev a none (set_next a none l'))

-- `IsObjectExist`, from the object `p` on.
pub is_object_exist : ℕ → ℕ → Option ℕ → Links → Result Bool
is_object_exist zero a p l = fault no_progress
is_object_exist (suc fuel) a none l = ok false
is_object_exist (suc fuel) a (some b) l =
    let rest = is_object_exist fuel a (l.next b) l in if b == a then ok true else rest

-- m_pHead of each cell of the manager, and the links of the objects.
pub record Cells : Type 0 where
  pub heads : List (Option ℕ)
  pub links : Links
  -- how many objects `new` has made
  pub made : ℕ

-- `GetGridByIndex`: NULL, or the place of the cell, with its m_pHead.
pub get_grid_by_index : ℤ → Cells → Result (Option (ℕ × Option ℕ))
get_grid_by_index (negsuc n) c = ok none
get_grid_by_index (pos n) c = elim (get_elem? c.heads n) [
  | none ↦ fault out_of_range
  | some h ↦ ok (some (n, h))
]

abbrev pub put_grid : ℕ → Option ℕ × Links → Cells → Cells
put_grid n (h, l) c = record c { heads = set c.heads n h; links = l }

-- `AddObjectToGrid` by an index.
pub add_object_to_grid : ℕ → ℤ → Cells → Result (Bool × Cells)
unfolding get_grid_by_index add_object
add_object_to_grid a i c = get_grid_by_index i c >>= λ g. elim g [
  | none ↦ ok (false, c)
  | some (n, h) ↦ add_object a h c.links >>= λ r. ok (true, put_grid n r c)
]

-- `RemoveObjectFromGrid` by an index.
pub remove_object_from_grid : ℕ → ℤ → Cells → Result (Bool × Cells)
unfolding get_grid_by_index remove_object
remove_object_from_grid a i c = get_grid_by_index i c >>= λ g. elim g [
  | none ↦ ok (false, c)
  | some (n, h) ↦ remove_object (c.made + 1) a h c.links >>= λ r. ok (true, put_grid n r c)
]

-- `IsObjectExist` of the manager.
pub is_object_in_grid : ℕ → ℤ → Cells → Result Bool
unfolding get_grid_by_index is_object_exist
is_object_in_grid a i c = get_grid_by_index i c >>= λ g. elim g [
  | none ↦ fault assertion
  | some (n, h) ↦ is_object_exist (c.made + 1) a h c.links
]
