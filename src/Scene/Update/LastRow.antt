-- ===== src/Scene/Update/LastRow.antt =====
-- The update of an object in the last row of the cells.
use game_project.Base.{List}
use game_project.Scene.{Scene}
use game_project.Scene.Holds.{Holds}
