-- ===== src/Heap/Queue.antt =====
-- The operations of the heap's users: insert, remove, relocate and the root.
pub mod Well
pub mod Insert
pub mod Remove
mod Tests
use lustre_simulator.Base.{
  ℕ, zero, suc, ◌+◌, ◌-◌, Bool, true, false, not, List, [], ◌∷◌, Option, none, some, ltb, leb, ◌==◌,
  if◌then◌else◌,
}
use lustre_simulator.Base.Run.{Run, ok, fault, ◌>>=◌, ◌>>◌, assert}
use lustre_simulator.Heap.{
  cbh_poison, Storage, Binheap, read, write, set_index, find, settle, bubble, relocate,
}
use lustre_simulator.Heap.Growth.{grow}

-- The heap and the return code: 0, -ENOMEM where the heap cannot grow, or that of `hop_enter`.
pub data InsertCode : Type 0 where
  inserted : InsertCode
  no_memory : InsertCode
  refused : ℕ → InsertCode

-- The steps after the heap has room and `hop_enter` has agreed.
pub place_last : Binheap → ℕ → Binheap
place_last h e =
    let h' = set_index h e h.nelements in
    write (record h' { nelements = h.nelements + 1 }) h.nelements e

-- `enter e` is the code of `hop_enter`, 0 where the table has none; it leaves the heap alone.
pub insert : (ℕ → ℕ → Bool) → (ℕ → ℕ) → (ℕ → Bool) → Binheap → ℕ → Run (Binheap × InsertCode)
insert compare enter alloc h e = do
  (room, st) ← if h.nelements == h.storage.hwm then grow alloc h.storage else ok (true, h.storage)
  let grown = record h { storage = st }
  let enters : Run (Binheap × InsertCode) = do
    (h', _) ← bubble compare (place_last grown e) e
    ok (h', inserted)
  if not room
      then ok (grown, no_memory)
      else (if enter e == 0 then enters else ok (grown, refused (enter e)))

pub remove : (ℕ → ℕ → Bool) → Binheap → ℕ → Run Binheap
remove compare h e = do
  let cur = h.chn_index e
  assert (not (cur == cbh_poison))
  assert (ltb cur h.nelements)
  assert (read h cur == e)
  let last = read h (h.nelements - 1)
  let shorter = record h { nelements = h.nelements - 1 }
  let moves : Run Binheap = do
    h' ← relocate compare (settle shorter last cur) last
    let left = set_index h' e cbh_poison
    ok (record left { exits = e ∷ left.exits })
  if last == e then ok shorter else moves

pub root : Binheap → Option ℕ
root h = find h 0

pub remove_root : (ℕ → ℕ → Bool) → Binheap → Run (Binheap × Option ℕ)
remove_root compare h = elim (find h 0) [
  | none ↦ ok (h, none)
  | some e ↦ remove compare h e >>= λ h'. ok (h', some e)
]

pub size : Binheap → ℕ
size h = h.nelements

pub is_empty : Binheap → Bool
is_empty h = h.nelements == 0
