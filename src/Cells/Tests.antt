-- ===== src/Cells/Tests.antt =====
-- Two cells at concrete inputs: the first one has the objects 0, 1 and 2 in this order.
use game_project.Base.{ℕ, zero, suc, ◌≡◌, refl, true, none, some, List, [], ◌∷◌, Ensures, arith}
use game_project.Base.Int.{pos}
use game_project.Links.{Links}
use game_project.Cells.{Cells, remove_object_from_grid}
use game_project.Cells.Stand.{AreCells}
use game_project.Cells.Take.{Taken, remove_object_from_grid-Taken}

abbrev three : Links
three = record {
  next = λ a. elim a [ zero ↦ some 1 | suc b ↦ elim b [ zero ↦ some 2 | suc c ↦ none ] ];
  prev = λ a. elim a [ zero ↦ none | suc b ↦ elim b [ zero ↦ some 0 | suc c ↦ some 1 ] ];
}

abbrev cells : Cells
cells = record { heads = some 0 ∷ none ∷ []; links = three; made = 3 }

abbrev lists : List (List ℕ)
lists = (0 ∷ 1 ∷ 2 ∷ []) ∷ [] ∷ []

cells-AreCells : AreCells cells.links (λ a. 0) 0 cells.heads lists
cells-AreCells = (
  ((refl, refl, (refl, refl, (refl, refl, refl))), (omega arith), (refl, (refl, (refl, tt)))),
  ((refl, tt, tt), tt),
)

remove_object_from_grid-Taken_example :
    Ensures
      (λ (b, u). (b ≡ true) × Taken (λ a. 0) 1 0 cells lists (0 ∷ []) (2 ∷ []) u)
      (remove_object_from_grid 1 (pos 0) cells)
remove_object_from_grid-Taken_example =
    remove_object_from_grid-Taken (λ a. 0) 1 0 cells lists (0 ∷ []) (2 ∷ []) cells-AreCells refl
      (omega arith)
