-- ===== src/DataBuffer/Alloc.antt =====
-- `AllocDataBuff` takes a free buffer, or makes one, and puts it before the buffers in use.
use mathlib.Core.Path.{subst}
use game_project.Base.{ℕ, ◌+◌, ◌<◌, ◌≡◌, refl, sym, none, some, List, [], ◌∷◌, arith}
use game_project.Links.{set_next, set_prev}
use game_project.Links.Chain.{
  Absent, IsChain, IsChain-set_next, IsChain-set_prev, push_front-IsChain, put-here,
}
use game_project.Links.Bound.{IsBelow-Absent, IsBelow-mono}
use game_project.DataBuffer.{BufferManager, take_buffer, add_ref, link_used, alloc_buffer}
use game_project.DataBuffer.Lists.{Buffers}

-- After a buffer is taken, and before it is put among those in use.
record Taken (a : ℕ) (u : BufferManager) (us fs : List ℕ) : Type 0 where
  rest : Buffers u us fs
  outside_used : Absent a us
  outside_free : Absent a fs
  cleared : (u.links.next a ≡ none) × (u.links.prev a ≡ none)
  below : a < u.made

take_new-Taken :
    (m : BufferManager) (us : List ℕ)
    → Buffers m us []
    → Taken (take_buffer m).0 (take_buffer m).1 us []
unfolding take_buffer
take_new-Taken m us b =
    let a = m.made in
    let gone = IsBelow-Absent a us b.made_used in
    rw b.free (record {
      rest = record {
        used =
            IsChain-set_prev (set_next a none m.links) a none none m.used_list us gone
              (IsChain-set_next m.links a none none m.used_list us gone b.used);
        free = refl;
        distinct_used = b.distinct_used;
        distinct_free = tt;
        apart = b.apart;
        made_used = IsBelow-mono a (a + 1) us (omega arith) b.made_used;
        made_free = tt;
      };
      outside_used = gone;
      outside_free = tt;
      cleared = (put-here a none m.links.next, put-here a none m.links.prev);
      below = omega arith;
    })

link_used-Buffers :
    (a : ℕ) (u : BufferManager) (us fs : List ℕ)
    → Taken a u us fs
    → Buffers (link_used a (add_ref a u)) (a ∷ us) fs
link_used-Buffers a u [] fs t =
    subst (λ h. Buffers (link_used a (add_ref a (record u { used_list = h }))) (a ∷ []) fs)
      (sym t.rest.used)
      (record {
        used = (refl, t.cleared.1, t.cleared.0);
        free = t.rest.free;
        distinct_used = (tt, tt);
        distinct_free = t.rest.distinct_free;
        apart = (t.outside_free, tt);
        made_used = (t.below, tt);
        made_free = t.rest.made_free;
      })
link_used-Buffers a u (x ∷ us) fs t =
    let b = t.rest in
    let c : IsChain u.links none (some x) (x ∷ us) = (refl, b.used.1, b.used.2) in
    let l = set_next a (some x) u.links in
    subst (λ h. Buffers (link_used a (add_ref a (record u { used_list = h }))) (a ∷ x ∷ us) fs)
      (sym b.used.0)
      (record {
        used = push_front-IsChain u.links a none (some x) (x ∷ us) t.outside_used b.distinct_used c;
        free = IsChain-set_prev (set_prev x (some a) l) a none none u.free_list fs t.outside_free (
            IsChain-set_prev l x (some a) none u.free_list fs b.apart.0
              (IsChain-set_next u.links a (some x) none u.free_list fs t.outside_free b.free));
        distinct_used = (t.outside_used, b.distinct_used);
        distinct_free = b.distinct_free;
        apart = (t.outside_free, b.apart);
        made_used = (t.below, b.made_used);
        made_free = b.made_free;
      })

-- Without a free buffer it gives a new one, and it is the first of those in use.
pub alloc_buffer-new :
    (m : BufferManager) (us : List ℕ)
    → Buffers m us []
    → ((alloc_buffer m).0 ≡ m.made) × Buffers (alloc_buffer m).1 (m.made ∷ us) []
unfolding alloc_buffer
alloc_buffer-new m us b =
    let e : (take_buffer m).0 ≡ m.made = (unfold take_buffer in rw b.free refl) in
    (
      e,
      subst
          (λ z.
            Buffers (link_used (take_buffer m).0 (add_ref (take_buffer m).0 (take_buffer m).1))
              (z ∷ us) [])
          e (link_used-Buffers (take_buffer m).0 (take_buffer m).1 us [] (take_new-Taken m us b)),
    )
