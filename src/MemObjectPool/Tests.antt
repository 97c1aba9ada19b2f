-- ===== src/MemObjectPool/Tests.antt =====
-- The memory pool at concrete inputs.
use game_project.Base.{
  ok, ℕ, ◌≡◌, refl, Bool, true, false, none, some, [], ◌∷◌, arith, if◌then◌else◌, ◌==◌,
}
use game_project.MemObjectPool.{MemObjectPool, free_mem_object, create_mem_object}
use game_project.MemObjectPool.Mt.{
  MemObjectMtPool, with_unlocked, create_mem_object_mt, free_mem_object_mt, mt_pool_refines,
}
use game_project.MemObjectPool.Free.{Frees, Gives, create_mem_object-Gives}

-- A pool of one block whose objects 5 and 6 are free, and one with none.
abbrev two_free : MemObjectPool
two_free = record {
  links = record {
    next = λ b. if b == 5 then some 6 else none;
    prev = λ b. if b == 6 then some 5 else none;
  };
  free_head = some 5;
  buffers = 1;
}

abbrev empty : MemObjectPool
empty = record {
  links = record { next = λ _. none; prev = λ _. none };
  free_head = none;
  buffers = 0;
}

two_free-Frees : Frees two_free (5 ∷ 6 ∷ [])
two_free-Frees = record {
  chain = (refl, refl, (refl, refl, refl));
  distinct = ground arith;
  allocated = ground arith;
}

empty-Frees : Frees empty []
empty-Frees = record { chain = refl; distinct = tt; allocated = tt }

abbrev always : ℕ → Bool
always n = true

abbrev never : ℕ → Bool
never n = false

create_mem_object-Gives_example : Gives two_free (5 ∷ 6 ∷ []) (create_mem_object always two_free)
create_mem_object-Gives_example = create_mem_object-Gives always two_free 5 (6 ∷ []) two_free-Frees

mt_pool_refines_example :
    let q : MemObjectMtPool = record { pool = two_free; locked = false } in
    (create_mem_object_mt always q ≡ with_unlocked (create_mem_object always two_free))
    × (free_mem_object_mt (some 9) q
        ≡ ok (record { pool = free_mem_object (some 9) two_free; locked = false }))
mt_pool_refines_example = mt_pool_refines always (some 9) two_free
