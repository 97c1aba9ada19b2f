-- ===== src/Timer.antt =====
-- `TimerManager` of project/Server/ServerEngine/TimerManager.h and TimerManager.cpp: the list of the
-- timers, the list of the events for reuse, and the three operations on them. An event is named by
-- its address; `new` gives the addresses 0, 1, 2, ... in their order. A timer function is named by a
-- number, and what it does is no part of the model.
pub mod Add
pub mod Update
pub mod Delete
mod Tests
use game_project.Base.{
  ℕ, zero, suc, ◌+◌, ◌%◌, ◌^◌, Bool, true, false, ◌&&◌, Option, none, some, List, [], ◌∷◌, Result,
  ok, fault, null_pointer, no_progress, ◌>>=◌, if◌then◌else◌, leb, ◌==◌,
}
use game_project.Base.Int.{ℤ, pos, ◌-ℤ◌}
use game_project.Links.{Links, set_next, set_prev, set_prev_if, push_front, unlink_from}

-- The fields of `TimeEvent` beside its two links.
pub record TimeEvent : Type 0 where
  pub fire_time : ℕ
  pub sec : ℕ
  pub event_data : ℕ
  pub type : ℕ
  pub repeate_times : ℤ
  pub func_slot : Option ℕ

pub record TimerManager : Type 0 where
  pub events : ℕ → TimeEvent
  pub links : Links
  pub head : Option ℕ
  pub free : Option ℕ
  pub cur_time : ℕ
  pub init_time : ℕ
  -- how many events `new` has made
  pub made : ℕ

abbrev pub put_event : ℕ → TimeEvent → (ℕ → TimeEvent) → ℕ → TimeEvent
put_event a e f b = if b == a then e else f b

-- The constructor of `TimeEvent` leaves m_dwType as the memory had it, here 0.
abbrev pub new_event : TimeEvent
new_event = record {
  fire_time = 0;
  sec = 0;
  event_data = 0;
  type = 0;
  repeate_times = pos 268435455;
  func_slot = none;
}

-- An event from the list for reuse, or a new one.
pub take_event : TimerManager → Result (ℕ × TimerManager)
take_event t = elim t.free [
  | none ↦ ok (t.made, record t { events = put_event t.made new_event t.events; made = t.made + 1 })
  | some a ↦ elim (t.links.next a) [
    | none ↦ fault null_pointer
    | some b ↦ ok (a, record t { links = set_prev b none t.links; free = some b })
  ]
]

-- `m_pHead` after the new event is put before it.
abbrev pub link_event : ℕ → TimerManager → TimerManager
link_event a t = elim t.head [
  | none ↦ record t { head = some a }
  | some h ↦ record t { links = push_front a (some h) t.links; head = some a }
]

-- What `AddFixTimer` and `AddDiffTimer` share: `kind` is 1 or 2, `base` the day's start or now.
pub add_timer : ℕ → ℕ → ℕ → ℕ → ℕ → TimerManager → Result (Bool × TimerManager)
unfolding take_event
add_timer kind base sec event_data func t = take_event t >>= λ (a, u).
    let e = u.events a in
    let e' : TimeEvent = record e {
      event_data = event_data;
      fire_time = (base + sec) % 2 ^ 32;
      sec = sec;
      type = kind;
      func_slot = some func;
    } in
    let cleared = set_prev a none (set_next a none u.links) in
    ok (true, link_event a (record u { events = put_event a e' u.events; links = cleared }))

-- `AddFixTimer`, with the result of `GetDayTime`.
abbrev pub add_fix_timer : ℕ → ℕ → ℕ → ℕ → TimerManager → Result (Bool × TimerManager)
add_fix_timer day_time sec event_data func t = add_timer 1 day_time sec event_data func t

-- `AddDiffTimer`, with the result of `GetCurrTime`.
abbrev pub add_diff_timer : ℕ → ℕ → ℕ → ℕ → TimerManager → Result (Bool × TimerManager)
add_diff_timer now sec event_data func t = add_timer 2 now sec event_data func t

-- What `UpdateTimer` does to an event that is due: the next time, and one repetition less.
abbrev pub advance : TimeEvent → TimeEvent
advance e = record e {
  repeate_times = e.repeate_times -ℤ pos 1;
  fire_time =
      if e.type == 1 then (e.fire_time + 86400) % 2 ^ 32 else (e.fire_time + e.sec) % 2 ^ 32;
}

-- The loop of `UpdateTimer` from the event `a` on, with the calls of `OnTimerEvent` in their order.
pub update_events : ℕ → Option ℕ → TimerManager → Result (List (ℕ × ℕ) × TimerManager)
update_events zero a t = fault no_progress
update_events (suc fuel) none t = ok ([], t)
update_events (suc fuel) (some a) t =
    let e = t.events a in
    if leb e.fire_time t.cur_time
    then (let rest =
          update_events fuel (t.links.next a)
            (record t { events = put_event a (advance e) t.events }) in
        if leb t.init_time e.fire_time
        then elim e.func_slot [
          | none ↦ fault null_pointer
          | some f ↦ rest >>= λ (fired, u). ok ((f, e.event_data) ∷ fired, u)
        ]
        else rest)
    else update_events fuel (t.links.next a) t

-- `UpdateTimer`, with the result of `GetCurrTime`. No list is longer than the events that were made.
pub update_timer : ℕ → TimerManager → Result (List (ℕ × ℕ) × TimerManager)
unfolding update_events
update_timer now t = update_events (t.made + 1) t.head (record t { cur_time = now })

-- The search of `DelTimer`.
pub find_event : ℕ → ℕ → ℕ → Option ℕ → TimerManager → Result (Option ℕ)
find_event zero sec event_data a t = fault no_progress
find_event (suc fuel) sec event_data none t = ok none
find_event (suc fuel) sec event_data (some a) t =
    if (t.events a).sec == sec && ((t.events a).event_data == event_data)
    then ok (some a)
    else find_event fuel sec event_data (t.links.next a) t

-- Its second case, for an event that has the event `b` before it.
abbrev pub unlink_behind : ℕ → TimerManager → Option ℕ → Result TimerManager
unlink_behind a t none = fault null_pointer
unlink_behind a t (some b) = ok (record t { links = unlink_from b a t.links })

-- The unlinking of an event from the list that starts at `h`.
pub unlink_event : ℕ → ℕ → TimerManager → Result TimerManager
unlink_event h a t =
    if a == h
    then ok (record t { links = set_prev_if (t.links.next h) none t.links; head = t.links.next h })
    else unlink_behind a t (t.links.prev a)

-- `Reset`: the timer function is deleted, and its pointer stays.
abbrev pub reset : ℕ → TimerManager → TimerManager
reset a t = record t {
  events =
      put_event a
        (record (t.events a) {
          fire_time = 0;
          sec = 0;
          event_data = 0;
          repeate_times = pos 268435455;
        })
        t.events;
  links = set_prev a none (set_next a none t.links);
}

-- `DelTimer` after its search, in a list that starts at `h`.
pub del_found : ℕ → TimerManager → Option ℕ → Result (Bool × TimerManager)
unfolding unlink_event
del_found h t none = fault null_pointer
del_found h t (some a) = unlink_event h a t >>= λ u.
    let l = set_prev_if u.free (some a) (set_prev a none (set_next a u.free u.links)) in
    ok (false, reset a (record u { links = l; free = some a }))

-- `DelTimer`
pub del_timer : ℕ → ℕ → TimerManager → Result (Bool × TimerManager)
unfolding find_event del_found
del_timer sec event_data t = elim t.head [
  | none ↦ ok (true, t)
  | some h ↦ find_event (t.made + 1) sec event_data (some h) t >>= del_found h t
]

-- `InitTimer`, with the result of `GetCurrTime`.
abbrev pub init_timer : ℕ → TimerManager → Bool × TimerManager
init_timer now t = (true, record t { init_time = now })
