-- ===== src/DataBuffer.antt =====
-- `CBufferManager` and the reference count of `CDataBuffer` in
-- project/Common/DataBuffer/DataBuffer.h, for one size of buffers. A buffer is named by its address;
-- `new` gives 0, 1, 2, ... in their order. The lock is held through each operation.
pub mod Lists
pub mod Alloc
pub mod Release
pub mod Copy
mod Tests
use game_project.Base.{
  ℕ, ◌+◌, Bool, true, false, not, Option, none, some, Result, ok, fault, null_pointer, ◌>>=◌,
  if◌then◌else◌, ◌==◌,
}
use game_project.Base.Int.{ℤ, pos, ◌+ℤ◌, ◌-ℤ◌, ltb_ℤ}
use game_project.Links.{Links, set_next, set_prev, set_prev_if, push_front, unlink_from}

pub record BufferManager : Type 0 where
  pub links : Links
  pub ref_count : ℕ → ℤ
  pub free_list : Option ℕ
  pub used_list : Option ℕ
  -- how many buffers `new` has made
  pub made : ℕ

abbrev pub put_count : ℕ → ℤ → (ℕ → ℤ) → ℕ → ℤ
put_count a v f b = if b == a then v else f b

-- A new buffer, or the first free one.
pub take_buffer : BufferManager → ℕ × BufferManager
take_buffer m = elim m.free_list [
  | none ↦ (
    m.made,
    record m {
      links = set_prev m.made none (set_next m.made none m.links);
      ref_count = put_count m.made (pos 0) m.ref_count;
      made = m.made + 1;
    },
  )
  | some a ↦ (
    a,
    record m {
      links = set_prev a none (set_next a none (set_prev_if (m.links.next a) none m.links));
      free_list = m.links.next a;
    },
  )
]

-- `AddRef`
abbrev pub add_ref : ℕ → BufferManager → BufferManager
add_ref a m = record m { ref_count = put_count a (m.ref_count a +ℤ pos 1) m.ref_count }

-- The buffer before the ones in use.
abbrev pub link_used : ℕ → BufferManager → BufferManager
link_used a m = elim m.used_list [
  | none ↦ record m { used_list = some a }
  | some u ↦ record m { links = push_front a (some u) m.links; used_list = some a }
]

-- `CBufferManager::AllocDataBuff`
pub alloc_buffer : BufferManager → ℕ × BufferManager
unfolding take_buffer
alloc_buffer m = let (a, u) = take_buffer m in (a, link_used a (add_ref a u))

-- Whether a list starts with the buffer.
abbrev pub is_first : ℕ → Option ℕ → Bool
is_first a none = false
is_first a (some u) = u == a

abbrev pub unlink_behind : ℕ → BufferManager → Option ℕ → Result BufferManager
unlink_behind a m none = fault null_pointer
unlink_behind a m (some b) = ok (record m { links = unlink_from b a m.links })

abbrev pub unlink_first : ℕ → BufferManager → Result BufferManager
unlink_first a m =
    ok (record m { links = set_prev_if (m.links.next a) none m.links; used_list = m.links.next a })

-- The first part of the last `Release`: out of the list of the buffers in use.
pub unlink_used : ℕ → BufferManager → Result BufferManager
unlink_used a m =
    if is_first a m.used_list then unlink_first a m else unlink_behind a m (m.links.prev a)

-- The second part: to the front of the free ones.
abbrev pub link_free : ℕ → BufferManager → BufferManager
link_free a m = record m {
  links = set_prev_if m.free_list (some a) (set_prev a none (set_next a m.free_list m.links));
  free_list = some a;
}

-- `Release` once the count is down to `n`.
pub release_to : ℤ → ℕ → BufferManager → Result BufferManager
unfolding unlink_used
release_to n a m =
    let m' = record m { ref_count = put_count a n m.ref_count } in
    if ltb_ℤ (pos 0) n then ok m' else (unlink_used a m' >>= λ u. ok (link_free a u))

-- `Release`
pub release : ℕ → BufferManager → Result BufferManager
unfolding release_to
release a m = release_to (m.ref_count a -ℤ pos 1) a m
