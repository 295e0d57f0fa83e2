-- ===== src/Nrs/Fifo.antt =====
-- lustre/nrsfifo.cpp and lustre/nrsfifo.h: first come, first served. A request is a number, which
-- stands for its address; the head of `queue` is the front of the source's list `Q`.
pub mod Order
pub mod Size
mod Tests
use lustre_simulator.Base.{
  ℕ, ◌+◌, Bool, true, false, Option, none, some, List, [], ◌∷◌, ◌++◌, ◌==◌, if◌then◌else◌,
}
use lustre_simulator.Base.Words.{u64, sub_u64}

pub record NrsFifo : Type 0 where
  pub size : ℕ
  pub queue : List ℕ

abbrev pub new_fifo : NrsFifo
new_fifo = record { size = 0; queue = [] }

-- The list without its back, and the back.
abbrev pub split_back : List ℕ → Option (List ℕ × ℕ)
split_back [] = none
split_back (x ∷ xs) = elim (split_back xs) [ none ↦ some ([], x) | some (ys, y) ↦ some (x ∷ ys, y) ]

-- `list::remove`: every occurrence goes.
abbrev pub list_remove : ℕ → List ℕ → List ℕ
list_remove e [] = []
list_remove e (x ∷ xs) = let rest = list_remove e xs in if x == e then rest else x ∷ rest

pub enqueue : ℕ → NrsFifo → NrsFifo
enqueue e q = record { size = u64 (q.size + 1); queue = e ∷ q.queue }

pub requeue : ℕ → NrsFifo → NrsFifo
requeue e q = record { size = u64 (q.size + 1); queue = q.queue ++ e ∷ [] }

pub erase : ℕ → NrsFifo → NrsFifo
erase e q = record { size = sub_u64 q.size 1; queue = list_remove e q.queue }

pub dequeue : NrsFifo → Option ℕ × NrsFifo
dequeue q = elim (split_back q.queue) [
  | none ↦ (none, q)
  | some (rest, e) ↦ (some e, record { size = sub_u64 q.size 1; queue = rest })
]

pub first : NrsFifo → Option ℕ
first q = elim (split_back q.queue) [ none ↦ none | some (rest, e) ↦ some e ]

pub last : NrsFifo → Option ℕ
last q = elim q.queue [ [] ↦ none | e ∷ rest ↦ some e ]

-- `Scheduler::Empty`, which reads the size and not the list.
pub empty : NrsFifo → Bool
empty q = q.size == 0
