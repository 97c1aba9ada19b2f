-- ===== src/Links.antt =====
-- Nodes linked by m_pNext and m_pPrev, as the memory pools, the timers and the connections keep them.
-- A node is named by its address, and NULL is `none`.
pub mod Chain
pub mod Bound
pub mod Unlink
pub mod Parts
use game_project.Base.{ℕ, ◌+◌, Option, none, some, if◌then◌else◌, ◌==◌, ltb, leb, ◌&&◌}

pub record Links : Type 0 where
  pub next : ℕ → Option ℕ
  pub prev : ℕ → Option ℕ

-- A field of one node is written.
abbrev pub put : ℕ → Option ℕ → (ℕ → Option ℕ) → ℕ → Option ℕ
put a v f b = if b == a then v else f b

abbrev pub set_next : ℕ → Option ℕ → Links → Links
set_next a v l = record l { next = put a v l.next }

abbrev pub set_prev : ℕ → Option ℕ → Links → Links
set_prev a v l = record l { prev = put a v l.prev }

-- `if(p != NULL) p->m_pPrev = v`
abbrev pub set_prev_if : Option ℕ → Option ℕ → Links → Links
set_prev_if none v l = l
set_prev_if (some a) v l = set_prev a v l

-- The links after a node is put before the head of a list, as the code does it everywhere.
abbrev pub push_front : ℕ → Option ℕ → Links → Links
push_front a head l = set_prev a none (set_prev_if head (some a) (set_next a head l))

-- `p->m_pPrev->m_pNext = p->m_pNext`, where `b` is the node before `a`, and then
-- `if(p->m_pNext != NULL) p->m_pNext->m_pPrev = p->m_pPrev`.
abbrev pub unlink_from : ℕ → ℕ → Links → Links
unlink_from b a l = let l' = set_next b (l.next a) l in set_prev_if (l'.next a) (l'.prev a) l'
