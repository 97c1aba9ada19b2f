-- ===== src/Scene/Update/Stay.antt =====
-- The update of a player that is still in the cell that the clients know.
use game_project.Base.{ℕ, not, ◌&&◌, List, [], ◌∷◌, if◌then◌else◌, ◌==◌}
use game_project.Cells.Position.{Floats}
use game_project.Scene.{Scene}
use game_project.Scene.Holds.{Holds}
use game_project.Scene.Update.{is_player, id_of}

module _ {f : Floats} where
  -- The players among some objects that have another number than `id`.
  abbrev pub other_players : Scene f → ℕ → List ℕ → List ℕ
  other_players s id [] = []
  other_players s id (b ∷ bs) =
      if not (id_of s b == id) && is_player (id_of s b)
      then b ∷ other_players s id bs
      else other_players s id bs
