-- ===== src/Timer/Delete.antt =====
-- `DelTimer` on the list of the timers.
use mathlib.Core.Path.{subst}
use mathlib.Core.List.{append_assoc}
use game_project.Base.{
  ◌++◌, Ensures-bind, ℕ, zero, suc, ◌+◌, ◌<◌, ◌≡◌, refl, sym, ap, ◌∙◌, inl, inr, Bool, true, false,
  ◌&&◌, Option, none, some, List, [], ◌∷◌, ok, fault, null_pointer, if◌then◌else◌, ◌==◌, arith,
  length, Bool-cases, Ensures, ◌>>=◌,
}
use game_project.Links.{set_next, set_prev, set_prev_if}
use game_project.Links.Chain.{
  IsChain, IsChain-set_next, IsChain-set_prev, IsChain-set_prev_if, put-here, IsApart,
  IsChain-set_prev_apart,
}
use game_project.Links.Bound.{IsBelow, length_of_IsBelow}
use game_project.Links.{unlink_from}
use game_project.Links.Unlink.{unlink_from-IsChain}
use game_project.Links.Parts.{parts, IsBelow-parts, not_first, last_node}
use game_project.Timer.{
  unlink_behind, TimerManager, TimeEvent, take_event, add_timer, find_event, unlink_event,
  del_found, del_timer,
}
use game_project.Timer.Add.{Holds}

-- Whether an event has the period and the data that `DelTimer` is given.
abbrev pub matches : ℕ → ℕ → TimeEvent → Bool
matches sec event_data e = e.sec == sec && (e.event_data == event_data)

-- The first event of the list with this period and this data.
abbrev pub first_match : ℕ → ℕ → (ℕ → TimeEvent) → List ℕ → Option ℕ
first_match sec event_data f [] = none
first_match sec event_data f (x ∷ xs) =
    if matches sec event_data (f x) then some x else first_match sec event_data f xs

find_event-first_match :
    (fuel sec event_data : ℕ) (t : TimerManager) (before head : Option ℕ) (xs : List ℕ)
    → length xs < fuel
    → IsChain t.links before head xs
    → find_event fuel sec event_data head t ≡ ok (first_match sec event_data t.events xs)
unfolding find_event
find_event-first_match zero sec event_data t before head xs lt c = absurd (omega arith)
find_event-first_match (suc fuel) sec event_data t before head [] lt c =
    ap (λ z. find_event (suc fuel) sec event_data z t) c
find_event-first_match (suc fuel) sec event_data t before head (x ∷ xs) lt c =
    ap (λ z. find_event (suc fuel) sec event_data z t) c.0
    ∙ elim (Bool-cases (matches sec event_data (t.events x))) [
      | inl p ↦ rw p refl
      | inr p ↦ rw p (
          find_event-first_match fuel sec event_data t (some x) (t.links.next x) xs (omega arith)
            c.2)
    ]

del_timer-some :
    (sec event_data : ℕ) (t : TimerManager) (h : ℕ)
    → t.head ≡ some h
    → del_timer sec event_data t
      ≡ (find_event (t.made + 1) sec event_data (some h) t >>= del_found h t)
unfolding del_timer
del_timer-some sec event_data t h e = rw e refl

-- The step to the next event for reuse writes to it without a test.
add_timer_reuse_faults :
    (kind base sec event_data func : ℕ) (t : TimerManager) (a : ℕ)
    → t.free ≡ some a
    → t.links.next a ≡ none
    → add_timer kind base sec event_data func t ≡ fault null_pointer
unfolding add_timer take_event
add_timer_reuse_faults kind base sec event_data func t a e n = rw (e, n) refl

module _ (sec event_data : ℕ) (t : TimerManager) (x : ℕ) (xs : List ℕ) (h : Holds t (x ∷ xs)) where
  found :
      find_event (t.made + 1) sec event_data (some x) t
      ≡ ok (first_match sec event_data t.events (x ∷ xs))
  found =
      let bound = length_of_IsBelow t.made (x ∷ xs) h.made h.distinct in
      find_event-first_match (t.made + 1) sec event_data t none (some x) (x ∷ xs) (omega arith)
        (refl, h.chain.1, h.chain.2)

  searched :
      (o : Option ℕ)
      → first_match sec event_data t.events (x ∷ xs) ≡ o
      → del_timer sec event_data t ≡ del_found x t o
  searched o e =
      del_timer-some sec event_data t x h.chain.0 ∙ ap (λ z. z >>= del_found x t) (found ∙ ap ok e)

  -- `DelTimer` for a timer that is not in a list that is not empty goes through NULL.
  pub del_timer_absent_faults :
      first_match sec event_data t.events (x ∷ xs) ≡ none
      → del_timer sec event_data t ≡ fault null_pointer
  del_timer_absent_faults e = searched none e ∙ (unfold del_found in refl)

-- The list of the timers once an event is out of it.
record Unlinks (t : TimerManager) (xs : List ℕ) (u : TimerManager) : Type 0 where
  chain : IsChain u.links none u.head xs
  free : u.free ≡ t.free
  made : u.made ≡ t.made

unlink_event-middle :
    (h a p : ℕ) (t : TimerManager)
    → (h == a) ≡ false
    → t.links.prev a ≡ some p
    → unlink_event h a t ≡ ok (record t { links = unlink_from p a t.links })
unfolding unlink_event
unlink_event-middle h a p t f q =
    let other : (a == h) ≡ false = ground arith in rw other (ap (unlink_behind a t) q)

unlink_event-first :
    (a : ℕ) (t : TimerManager) (zs : List ℕ)
    → Holds t (a ∷ zs)
    → Ensures (Unlinks t zs) (unlink_event a a t)
unfolding unlink_event
unlink_event-first a t zs h =
    let same : (a == a) ≡ true = ground arith in
    rw same (record {
      chain = IsChain-set_prev_if t.links none (some a) (t.links.next a) zs h.distinct.1 h.chain.2;
      free = refl;
      made = refl;
    })

unlink_event-later :
    (x a p : ℕ) (t : TimerManager) (ys zs : List ℕ)
    → t.head ≡ some x
    → Holds t (ys ++ (p ∷ a ∷ zs))
    → Ensures (Unlinks t (ys ++ (p ∷ zs))) (unlink_event x a t)
unlink_event-later x a p t ys zs e h =
    let (y, e', f) = not_first t.links t.head a p ys zs h.distinct h.chain in
    let q : some x ≡ some y = sym e ∙ e' in
    let f' : (x == a) ≡ false = let r : x ≡ y = cc in rw r f in
    let (before, c) = unlink_from-IsChain t.links p a zs none t.head ys h.distinct h.chain in
    subst (Ensures (Unlinks t (ys ++ (p ∷ zs)))) (sym (unlink_event-middle x a p t f' before))
      (record { chain = c; free = refl; made = refl })

unlink_event-Unlinks :
    (x a : ℕ) (t : TimerManager) (ys zs : List ℕ)
    → t.head ≡ some x
    → Holds t (ys ++ (a ∷ zs))
    → Ensures (Unlinks t (ys ++ zs)) (unlink_event x a t)
unlink_event-Unlinks x a t ys zs e h = elim (last_node ys) [
  | inl n ↦
      let h' = subst (λ z. Holds t (z ++ (a ∷ zs))) n h in
      let q : some x ≡ some a = sym e ∙ h'.chain.0 in
      let r : x ≡ a = cc in
      subst (λ z. Ensures (Unlinks t (z ++ zs)) (unlink_event x a t)) (sym n)
        (rw r (unlink_event-first a t zs h'))
  | inr (xs, p, n) ↦
      let whole = ap (λ z. z ++ (a ∷ zs)) n ∙ append_assoc xs (p ∷ []) (a ∷ zs) in
      let rest = ap (λ z. z ++ zs) n ∙ append_assoc xs (p ∷ []) zs in
      subst (λ z. Ensures (Unlinks t z) (unlink_event x a t)) (sym rest)
        (unlink_event-later x a p t xs zs e (subst (Holds t) whole h))
]

-- What `DelTimer` leaves: the other timers in the list, and an event for reuse that no call can take.
pub record Deletes (xs : List ℕ) (r : Bool × TimerManager) : Type 0 where
  pub result : r.0 ≡ false
  pub holds : Holds r.1 xs
  pub no_reuse :
      (kind base sec event_data func : ℕ)
      → add_timer kind base sec event_data func r.1 ≡ fault null_pointer

del_found-Deletes :
    (x a : ℕ) (t : TimerManager) (ys zs : List ℕ)
    → t.head ≡ some x
    → Holds t (ys ++ (a ∷ zs))
    → IsApart t.free (ys ++ zs)
    → Ensures (Deletes (ys ++ zs)) (del_found x t (some a))
unfolding del_found
del_found-Deletes x a t ys zs e h apart =
    let xs = ys ++ zs in
    let (d, gone) = parts a ys zs h.distinct in
    Ensures-bind (Unlinks t xs) _ _ _ (unlink_event-Unlinks x a t ys zs e h) (λ u k.
      let l0 = set_next a u.free u.links in
      let l1 = set_prev a none l0 in
      let l2 = set_prev_if u.free (some a) l1 in
      record {
        result = refl;
        holds = record {
          chain = IsChain-set_prev (set_next a none l2) a none none u.head xs gone (
              IsChain-set_next l2 a none none u.head xs gone (
                IsChain-set_prev_apart l1 u.free (some a) none u.head xs
                  (subst (λ z. IsApart z xs) (sym k.free) apart)
                  (IsChain-set_prev l0 a none none u.head xs gone
                    (IsChain-set_next u.links a u.free none u.head xs gone k.chain))));
          distinct = d;
          made = subst (λ z. IsBelow z xs) (sym k.made) (IsBelow-parts t.made a ys zs h.made).0;
        };
        no_reuse = λ kind base s d func.
            add_timer_reuse_faults kind base s d func _ a refl (put-here a none l2.next);
      })

-- `DelTimer` for a timer of the list returns FALSE, and the list holds the other timers: the timer is
-- the first one with this period and this data, and the event for reuse, if there is one, is not in
-- the list. Every call that adds a timer then faults, since the event for reuse has no successor to
-- write to.
pub del_timer-Deletes :
    (sec event_data : ℕ) (t : TimerManager) (x a : ℕ) (ys zs : List ℕ)
    → t.head ≡ some x
    → Holds t (ys ++ (a ∷ zs))
    → IsApart t.free (ys ++ zs)
    → first_match sec event_data t.events (ys ++ (a ∷ zs)) ≡ some a
    → Ensures (Deletes (ys ++ zs)) (del_timer sec event_data t)
del_timer-Deletes sec event_data t x a ys zs e h apart m =
    let xs = ys ++ (a ∷ zs) in
    let bound = length_of_IsBelow t.made xs h.made h.distinct in
    let c = subst (λ z. IsChain t.links none z xs) e h.chain in
    let f = find_event-first_match (t.made + 1) sec event_data t none (some x) xs (omega arith) c in
    subst (Ensures (Deletes (ys ++ zs)))
      (sym (del_timer-some sec event_data t x e ∙ ap (λ z. z >>= del_found x t) (f ∙ ap ok m)))
      (del_found-Deletes x a t ys zs e h apart)
