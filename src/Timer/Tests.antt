-- ===== src/Timer/Tests.antt =====
-- The timers at concrete inputs.
use game_project.Base.{refl, none, some, [], ◌∷◌, arith, if◌then◌else◌, ◌==◌, Ensures}
use game_project.Base.Int.{pos}
use game_project.Timer.{TimerManager, add_timer, update_timer, del_timer}
use game_project.Timer.Add.{Holds, Adds, timer_of, add_timer-Adds}
use game_project.Timer.Update.{Updates, update_timer-Updates}
use game_project.Timer.Delete.{Deletes, del_timer-Deletes}

-- Timer 1, of period 10, before timer 0, of period 60.
abbrev two_timers : TimerManager
two_timers = record {
  events = λ b.
      if b == 1
      then record {
        fire_time = 100;
        sec = 10;
        event_data = 7;
        type = 2;
        repeate_times = pos 5;
        func_slot = some 3;
      }
      else record {
        fire_time = 500;
        sec = 60;
        event_data = 8;
        type = 1;
        repeate_times = pos 5;
        func_slot = some 4;
      };
  links = record {
    next = λ b. if b == 1 then some 0 else none;
    prev = λ b. if b == 0 then some 1 else none;
  };
  head = some 1;
  free = none;
  cur_time = 0;
  init_time = 50;
  made = 2;
}

two_timers-Holds : Holds two_timers (1 ∷ 0 ∷ [])
two_timers-Holds = record {
  chain = (refl, refl, (refl, refl, refl));
  distinct = ground arith;
  made = ground arith;
}

add_timer-Adds_example :
    Ensures
      (Adds two_timers (timer_of 2 1000 30 9 5) (1 ∷ 0 ∷ []))
      (add_timer 2 1000 30 9 5 two_timers)
add_timer-Adds_example = add_timer-Adds 2 1000 30 9 5 two_timers (1 ∷ 0 ∷ []) two_timers-Holds refl

update_timer-Updates_example :
    Ensures
      (Updates (record two_timers { cur_time = 100 }) (1 ∷ 0 ∷ []))
      (update_timer 100 two_timers)
update_timer-Updates_example =
    update_timer-Updates 100 two_timers (1 ∷ 0 ∷ []) two_timers-Holds ((3, refl), ((4, refl), tt))

del_timer-Deletes_example : Ensures (Deletes (1 ∷ [])) (del_timer 60 8 two_timers)
del_timer-Deletes_example =
    del_timer-Deletes 60 8 two_timers 1 0 (1 ∷ []) [] refl two_timers-Holds tt refl
