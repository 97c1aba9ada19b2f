-- ===== src/Timer/Add.antt =====
-- A timer that is added stands first in the list of the timers.
use mathlib.Core.Path.{subst}
use game_project.Base.{
  ℕ, ◌+◌, ◌%◌, ◌^◌, ◌≡◌, ◌≢◌, refl, sym, ap, ◌∙◌, inl, inr, Bool, true, false, none, some, List, [],
  ◌∷◌, ◌==◌, arith, Option-cases, Ensures,
}
use game_project.Links.{set_next, set_prev}
use game_project.Links.Chain.{
  Absent, IsDistinct, IsChain, IsChain-set_next, IsChain-set_prev, push_front-IsChain, put-here,
}
use game_project.Links.Bound.{IsBelow, IsBelow-Absent, IsBelow-mono}
use game_project.Timer.{
  TimerManager, TimeEvent, put_event, new_event, take_event, link_event, add_timer,
}

-- The list of the timers holds these events, each once.
pub record Holds (t : TimerManager) (xs : List ℕ) : Type 0 where
  pub chain : IsChain t.links none t.head xs
  pub distinct : IsDistinct xs
  pub made : IsBelow t.made xs

-- What is asked of a new timer.
abbrev pub timer_of : ℕ → ℕ → ℕ → ℕ → ℕ → TimeEvent
timer_of kind base sec event_data func = record new_event {
  event_data = event_data;
  fire_time = (base + sec) % 2 ^ 32;
  sec = sec;
  type = kind;
  func_slot = some func;
}

pub put_event-here : (a : ℕ) (e : TimeEvent) (f : ℕ → TimeEvent) → put_event a e f a ≡ e
put_event-here a e f = let h : (a == a) ≡ true = ground arith in rw h refl

pub put_event-there :
    (a b : ℕ) (e : TimeEvent) (f : ℕ → TimeEvent) → b ≢ a → put_event a e f b ≡ f b
put_event-there a b e f ne = let h : (b == a) ≡ false = ground arith in rw h refl

-- The list after the new event was put before its head.
link_event-IsChain :
    (t : TimerManager) (a : ℕ) (xs : List ℕ)
    → Absent a xs
    → IsDistinct xs
    → t.links.next a ≡ none
    → t.links.prev a ≡ none
    → IsChain t.links none t.head xs
    → IsChain (link_event a t).links none (link_event a t).head (a ∷ xs)
link_event-IsChain t a [] o d n p c =
    subst
      (λ h.
        IsChain (link_event a (record t { head = h })).links none
          (link_event a (record t { head = h })).head (a ∷ []))
      (sym c) (refl, p, n)
link_event-IsChain t a (x ∷ xs) o d n p c =
    subst
      (λ h.
        IsChain (link_event a (record t { head = h })).links none
          (link_event a (record t { head = h })).head (a ∷ x ∷ xs))
      (sym c.0) (push_front-IsChain t.links a none (some x) (x ∷ xs) o d (refl, c.1, c.2))

link_event-others :
    (t : TimerManager) (a : ℕ)
    → ((link_event a t).events ≡ t.events) × ((link_event a t).made ≡ t.made)
link_event-others t a = elim (Option-cases t.head) [
  | inl e ↦ rw e (refl, refl)
  | inr (h, e) ↦ rw e (refl, refl)
]

-- What the addition of a timer by a new event does.
pub record Adds (t : TimerManager) (e : TimeEvent) (xs : List ℕ) (r : Bool × TimerManager)
    : Type 0 where
  pub result : r.0 ≡ true
  pub holds : Holds r.1 (t.made ∷ xs)
  pub event : r.1.events t.made ≡ e
  pub others : (b : ℕ) → b ≢ t.made → r.1.events b ≡ t.events b

-- With no event for reuse, `AddFixTimer` or `AddDiffTimer` returns TRUE. The timer is a new event, which
-- gets what was asked and stands before the timers that are there; their events stay.
pub add_timer-Adds :
    (kind base sec event_data func : ℕ) (t : TimerManager) (xs : List ℕ)
    → Holds t xs
    → t.free ≡ none
    → Ensures
        (Adds t (timer_of kind base sec event_data func) xs)
        (add_timer kind base sec event_data func t)
unfolding add_timer take_event
add_timer-Adds kind base sec event_data func t xs h e =
    let n = t.made in
    let gone = IsBelow-Absent n xs h.made in
    let e' : TimeEvent = record (timer_of kind base sec event_data func) {
      repeate_times = (put_event n new_event t.events n).repeate_times;
    } in
    let u : TimerManager = record t {
      events = put_event n e' (put_event n new_event t.events);
      links = set_prev n none (set_next n none t.links);
      free = none;
      made = n + 1;
    } in
    let (events, made) = link_event-others u n in
    rw e (record {
      result = refl;
      holds = record {
        chain =
            link_event-IsChain u n xs gone h.distinct (put-here n none t.links.next)
              (put-here n none t.links.prev)
              (IsChain-set_prev (set_next n none t.links) n none none t.head xs gone
                (IsChain-set_next t.links n none none t.head xs gone h.chain));
        distinct = (gone, h.distinct);
        made =
            subst (λ z. IsBelow z (n ∷ xs)) (sym made)
              (omega arith, IsBelow-mono n (n + 1) xs (omega arith) h.made);
      };
      event =
          ap (λ f. f n) events
          ∙ put_event-here n e' (put_event n new_event t.events)
          ∙ ap
              (λ z. record (timer_of kind base sec event_data func) {
                repeate_times = z.repeate_times;
              })
              (put_event-here n new_event t.events);
      others = λ b ne.
          ap (λ f. f b) events
          ∙ put_event-there n b e' (put_event n new_event t.events) ne
          ∙ put_event-there n b new_event t.events ne;
    })
