-- ===== src/Timer/Update.antt =====
-- `UpdateTimer` calls the functions of the timers that are due, in the order of the list.
use mathlib.Core.Path.{subst}
use game_project.Base.{
  ℕ, zero, suc, ◌+◌, ◌%◌, ◌^◌, ◌==◌, ◌<◌, ◌≡◌, refl, sym, ap, ◌∙◌, inl, inr, true, ◌&&◌, Option,
  none, some, List, [], ◌∷◌, Result, fault, null_pointer, if◌then◌else◌, leb, arith, length,
  Bool-cases, Ensures, Ensures-bind, Ensures-weaken,
}
use game_project.Base.Int.{pos, ◌-ℤ◌}
use game_project.Links.Chain.{Absent, IsDistinct, IsChain}
use game_project.Links.Bound.{length_of_IsBelow}
use game_project.Timer.{TimerManager, TimeEvent, put_event, advance, update_events, update_timer}
use game_project.Timer.Add.{Holds, put_event-here, put_event-there}

-- Every timer of the list has its function.
abbrev pub HasSlots : (ℕ → TimeEvent) → List ℕ → Type 0
HasSlots f [] = Unit {0}
HasSlots f (x ∷ xs) = ((s : ℕ) × ((f x).func_slot ≡ some s)) × HasSlots f xs

abbrev pub slot_or : ℕ → Option ℕ → ℕ
slot_or d none = d
slot_or d (some s) = s

-- The calls that are due, with the data that they get: an event whose time has come, but had not
-- when the timers were started.
abbrev pub due_calls : ℕ → ℕ → (ℕ → TimeEvent) → List ℕ → List (ℕ × ℕ)
due_calls now init f [] = []
due_calls now init f (x ∷ xs) =
    if leb (f x).fire_time now && leb init (f x).fire_time
    then (slot_or 0 (f x).func_slot, (f x).event_data) ∷ due_calls now init f xs
    else due_calls now init f xs

-- The seconds from one time of a timer to the next: a day, or its own span.
abbrev pub period : TimeEvent → ℕ
period e = if e.type == 1 then 86400 else e.sec

-- A timer whose time has come, after the update: the next time, as an UINT32, and one repetition less.
abbrev pub next_of : TimeEvent → TimeEvent
next_of e = record {
  fire_time = (e.fire_time + period e) % 2 ^ 32;
  sec = e.sec;
  event_data = e.event_data;
  type = e.type;
  repeate_times = e.repeate_times -ℤ pos 1;
  func_slot = e.func_slot;
}

advance-next_of : (e : TimeEvent) → advance e ≡ next_of e
advance-next_of e = elim (Bool-cases (e.type == 1)) [ inl p ↦ rw p refl | inr p ↦ rw p refl ]

-- What an event is after the update.
abbrev pub updated : ℕ → TimeEvent → TimeEvent
updated now e = if leb e.fire_time now then next_of e else e

abbrev IsUpdated : ℕ → (ℕ → TimeEvent) → (ℕ → TimeEvent) → List ℕ → Type 0
IsUpdated now f g [] = Unit {0}
IsUpdated now f g (x ∷ xs) = (g x ≡ updated now (f x)) × IsUpdated now f g xs

-- The calls, and the state of the events, after an update of the list `xs`.
pub record Updates (t : TimerManager) (xs : List ℕ) (r : List (ℕ × ℕ) × TimerManager) : Type 0 where
  pub calls : r.0 ≡ due_calls t.cur_time t.init_time t.events xs
  pub listed : IsUpdated t.cur_time t.events r.1.events xs
  pub others : (b : ℕ) → Absent b xs → r.1.events b ≡ t.events b
  pub links : r.1.links ≡ t.links
  pub head : r.1.head ≡ t.head

due_calls-frame :
    (now init a : ℕ) (e : TimeEvent) (f : ℕ → TimeEvent) (xs : List ℕ)
    → Absent a xs
    → due_calls now init (put_event a e f) xs ≡ due_calls now init f xs
due_calls-frame now init a e f [] o = refl
due_calls-frame now init a e f (x ∷ xs) o =
    rw (put_event-there a x e f (λ q. o.0 (sym q)), due_calls-frame now init a e f xs o.1) refl

HasSlots-frame :
    (a : ℕ) (e : TimeEvent) (f : ℕ → TimeEvent) (xs : List ℕ)
    → Absent a xs
    → HasSlots f xs
    → HasSlots (put_event a e f) xs
HasSlots-frame a e f [] o h = tt
HasSlots-frame a e f (x ∷ xs) o h =
    (rw (put_event-there a x e f (λ q. o.0 (sym q))) h.0, HasSlots-frame a e f xs o.1 h.1)

IsUpdated-frame :
    (now a : ℕ) (e : TimeEvent) (f g : ℕ → TimeEvent) (xs : List ℕ)
    → Absent a xs
    → IsUpdated now (put_event a e f) g xs
    → IsUpdated now f g xs
IsUpdated-frame now a e f g [] o h = tt
IsUpdated-frame now a e f g (x ∷ xs) o h = (
  h.0 ∙ ap (updated now) (put_event-there a x e f (λ q. o.0 (sym q))),
  IsUpdated-frame now a e f g xs o.1 h.1,
)

-- One event is due: what the rest of the list does is kept.
due-Updates :
    (t : TimerManager) (x : ℕ) (xs : List ℕ) (r : List (ℕ × ℕ) × TimerManager)
    (calls : List (ℕ × ℕ))
    → Absent x xs
    → leb (t.events x).fire_time t.cur_time ≡ true
    → Updates (record t { events = put_event x (advance (t.events x)) t.events }) xs r
    → (r.0 ≡ due_calls t.cur_time t.init_time t.events xs
        → calls ≡ due_calls t.cur_time t.init_time t.events (x ∷ xs))
    → Updates t (x ∷ xs) (calls, r.1)
due-Updates t x xs r calls o p u k = record {
  calls =
      k (u.calls ∙ due_calls-frame t.cur_time t.init_time x (advance (t.events x)) t.events xs o);
  listed = (
    u.others x o
        ∙ put_event-here x (advance (t.events x)) t.events
        ∙ advance-next_of (t.events x)
        ∙ rw p refl,
    IsUpdated-frame t.cur_time x (advance (t.events x)) t.events r.1.events xs o u.listed,
  );
  others = λ b ab. u.others b ab.1 ∙ put_event-there x b (advance (t.events x)) t.events ab.0;
  links = u.links;
  head = u.head;
}

slot_call {ℓ} :
    (P : List (ℕ × ℕ) × TimerManager → Type ℓ) (o : Option ℕ) (s : ℕ)
    (k : ℕ → Result (List (ℕ × ℕ) × TimerManager))
    → o ≡ some s
    → Ensures P (k s)
    → Ensures P (elim o [ none ↦ fault null_pointer | some f ↦ k f ])
slot_call P none s k e h = cc
slot_call P (some f) s k e h = let q : f ≡ s = cc in rw q h

update_events-Updates :
    (fuel : ℕ) (t : TimerManager) (before head : Option ℕ) (xs : List ℕ)
    → length xs < fuel
    → IsChain t.links before head xs
    → IsDistinct xs
    → HasSlots t.events xs
    → Ensures (Updates t xs) (update_events fuel head t)
unfolding update_events
update_events-Updates zero t before head xs lt c d h = absurd (omega arith)
update_events-Updates (suc fuel) t before head [] lt c d h =
    subst (λ z. Ensures (Updates t []) (update_events (suc fuel) z t)) (sym c)
      (record { calls = refl; listed = tt; others = λ b ab. refl; links = refl; head = refl })
update_events-Updates (suc fuel) t before head (x ∷ xs) lt c d h =
    subst (λ z. Ensures (Updates t (x ∷ xs)) (update_events (suc fuel) z t)) (sym c.0)
      (elim (Bool-cases (leb (t.events x).fire_time t.cur_time)) [
        | inl p ↦
            let t' = record t { events = put_event x (advance (t.events x)) t.events } in
            let rest =
              update_events-Updates fuel t' (some x) (t.links.next x) xs (omega arith) c.2 d.1
                (HasSlots-frame x (advance (t.events x)) t.events xs d.0 h.1) in
            elim (Bool-cases (leb t.init_time (t.events x).fire_time)) [
              | inl q ↦
                  let (f, e) = h.0 in
                  let now : ℕ × ℕ = (f, (t.events x).event_data) in
                  rw (p, q)
                    (slot_call (Updates t (x ∷ xs)) _ f _ e (
                      Ensures-bind (Updates t' xs) _ _ _ rest (λ r u.
                        due-Updates t x xs r (now ∷ r.0) d.0 p u
                          (λ k. rw (p, q, e) (ap (λ z. now ∷ z) k)))))
              | inr q ↦
                  rw (p, q)
                    (Ensures-weaken (Updates t' xs) _ _ rest
                      (λ r u. due-Updates t x xs r r.0 d.0 p u (λ k. rw (p, q) k)))
            ]
        | inr p ↦ rw p (
            Ensures-weaken (Updates t xs) _ _
              (update_events-Updates fuel t (some x) (t.links.next x) xs (omega arith) c.2 d.1 h.1)
              (λ r u. record {
                calls = u.calls ∙ rw p refl;
                listed = (u.others x d.0 ∙ rw p refl, u.listed);
                others = λ b ab. u.others b ab.1;
                links = u.links;
                head = u.head;
              }))
      ])

-- `UpdateTimer` returns, since the list is no longer than the events that were made. It calls the
-- functions of the timers that are due, in the order of the list, each with its data; a timer whose
-- time has come gets its next time and one repetition less, and all else stays.
pub update_timer-Updates :
    (now : ℕ) (t : TimerManager) (xs : List ℕ)
    → Holds t xs
    → HasSlots t.events xs
    → Ensures (Updates (record t { cur_time = now }) xs) (update_timer now t)
unfolding update_timer
update_timer-Updates now t xs h s =
    update_events-Updates (t.made + 1) (record t { cur_time = now }) none t.head xs
      (omega (arith, length_of_IsBelow t.made xs h.made h.distinct)) h.chain h.distinct s
