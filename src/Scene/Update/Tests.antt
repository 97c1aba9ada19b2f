-- ===== src/Scene/Update/Tests.antt =====
-- The update of the clients of a scene with two players in five rows of two cells.
use game_project.Base.{
  ℕ, ◌+◌, ◌^◌, ◌≡◌, refl, true, none, some, List, [], ◌∷◌, if◌then◌else◌, ◌==◌, replicate, set,
}
use game_project.Base.Int.{pos, ◌+ℤ◌, ◌-ℤ◌, ◌*ℤ◌}
use game_project.Cells.Position.{Area, get_index_by_pos}
use game_project.Scene.{UpdateStatus, ut_update, ut_new, Player, Scene, index_at}
use game_project.Scene.Holds.{Holds}
use game_project.Scene.Init.{area_of}
use game_project.Scene.Tests.{whole_numbers, whole_laws, at, nobody}
use game_project.Scene.Update.{settle}

abbrev crowd_area : Area
crowd_area = area_of whole_numbers whole_laws 5 2 (pos 0) (pos 50) (pos 0) (pos 200)

-- The number of a player.
abbrev player_number : ℕ → ℕ
player_number n = 2 ^ 56 + n

-- The object 0 has come from the first row to the third, and the object 1 is new in the last.
abbrev crowd_object : UpdateStatus → ℕ → Player whole_numbers
crowd_object st a =
    if a == 0
    then record nobody {
      object_id = player_number 7;
      object_pos = at 10 110;
      update_pos = at 10 10;
      update_status = st;
      has_owner_scene = true;
    }
    else record nobody {
      object_id = player_number 8;
      object_pos = at 10 160;
      update_status = ut_new;
      has_owner_scene = true;
    }

abbrev crowd : UpdateStatus → Scene whole_numbers
crowd st = record {
  area = crowd_area;
  cells = record {
    heads = set (set (replicate 10 none) 7 (some 0)) 9 (some 1);
    links = record { next = λ a. none; prev = λ a. none };
    made = 2;
  };
  objects = crowd_object st;
  players = λ id.
      if id == player_number 7 then some 0 else if id == player_number 8 then some 1 else none;
  updates = 0 ∷ [];
}

abbrev crowd_lists : List (List ℕ)
crowd_lists = set (set (replicate 10 []) 7 (0 ∷ [])) 9 (1 ∷ [])

index_10_10 : index_at crowd_area (at 10 10) ≡ pos 3
unfolding get_index_by_pos ◌+ℤ◌ ◌-ℤ◌ ◌*ℤ◌
index_10_10 = refl

-- The clients know where the object 0 is.
abbrev still : Scene whole_numbers
still = settle ut_update 0 (crowd ut_update)
