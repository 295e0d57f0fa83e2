-- ===== src/Heap.antt =====
-- lustre/heap.cpp and lustre/heap.h: the binary heap of libcfs. A node is a number, which stands
-- for its address; `chn_index` is the field of all nodes. The predicate `hop_compare` and the
-- callback `hop_enter` of the operations table are arguments; `hop_exit` leaves a trace in `exits`.
-- An index is below 2 ^ 28 (see Heap/Growth/Stored.antt), so no computation on `unsigned int` wraps.
pub mod Slots
pub mod Growth
pub mod Hole
pub mod Bubble
pub mod Sink
pub mod Queue
use lustre_simulator.Base.{
  ℕ, zero, suc, ◌+◌, ◌-◌, ◌*◌, ◌/◌, ◌%◌, ◌^◌, Bool, true, false, ◌&&◌, not, List, [], ◌∷◌, Option,
  none, some, ltb, leb, ◌==◌, if◌then◌else◌,
}
use lustre_simulator.Base.Run.{Run, ok, fault, out_of_fuel, ◌>>=◌, ◌>>◌, assert}

abbrev pub cbh_shift : ℕ
cbh_shift = 9

abbrev pub cbh_size : ℕ
cbh_size = 512

abbrev pub cbh_poison : ℕ
cbh_poison = 0xdeadbeef

-- A place in one of the three levels of indirection.
pub data Slot : Type 0 where
  single : ℕ → Slot
  double : ℕ → ℕ → Slot
  triple : ℕ → ℕ → ℕ → Slot

abbrev pub slot_eq : Slot → Slot → Bool
slot_eq (single a) (single b) = a == b
slot_eq (double a b) (double c d) = a == c && b == d
slot_eq (triple a b c) (triple d e f) = a == d && (b == e && c == f)
slot_eq _ _ = false

-- Which fragments of pointers are allocated, and the allocator: `alloc n` says whether the attempt
-- number `n` succeeds, and `live` counts the fragments in use.
pub record Storage : Type 0 where
  pub hwm : ℕ
  pub elements1 : Bool
  pub elements2 : Bool
  pub frag2 : ℕ → Bool
  pub elements3 : Bool
  pub frag3 : ℕ → Bool
  pub frag32 : ℕ → ℕ → Bool
  pub attempts : ℕ
  pub live : ℕ

pub record Binheap : Type 0 where
  pub elements : Slot → ℕ
  pub chn_index : ℕ → ℕ
  pub nelements : ℕ
  pub storage : Storage
  pub exits : List ℕ

pub pointer : ℕ → Slot
pointer idx =
    if ltb idx cbh_size
    then single idx
    else if ltb (idx - cbh_size) (cbh_size * cbh_size)
    then double ((idx - cbh_size) / cbh_size) ((idx - cbh_size) % cbh_size)
    else let rest = idx - cbh_size - cbh_size * cbh_size in
      triple (rest / (cbh_size * cbh_size)) (rest / cbh_size % cbh_size) (rest % cbh_size)

-- `*cfs_binheap_pointer(h, idx)`
pub read : Binheap → ℕ → ℕ
read h idx = h.elements (pointer idx)

pub write : Binheap → ℕ → ℕ → Binheap
write h idx e = record h { elements = λ s. if slot_eq (pointer idx) s then e else h.elements s }

pub set_index : Binheap → ℕ → ℕ → Binheap
set_index h e i = record h { chn_index = λ m. if e == m then i else h.chn_index m }

pub find : Binheap → ℕ → Option ℕ
find h idx = if leb h.nelements idx then none else some (read h idx)

-- `e->chn_index = cur_idx; *cur_ptr = e`
pub settle : Binheap → ℕ → ℕ → Binheap
settle h e cur = write (set_index h e cur) cur e

abbrev pub parent : ℕ → ℕ
parent i = (i - 1) / 2

pub bubble_loop : (ℕ → ℕ → Bool) → ℕ → Binheap → ℕ → ℕ → Bool → Run (Binheap × Bool)
bubble_loop compare zero h e cur did_sth = out_of_fuel
bubble_loop compare (suc k) h e cur did_sth =
    let p = read h (parent cur) in
    let rise = bubble_loop compare k (settle h p cur) e (parent cur) true in
    let round : Run (Binheap × Bool) = do
      assert (h.chn_index p == parent cur)
      if compare p e then ok (settle h e cur, did_sth) else rise
    in if ltb 0 cur then round else ok (settle h e cur, did_sth)

pub bubble : (ℕ → ℕ → Bool) → Binheap → ℕ → Run (Binheap × Bool)
bubble compare h e = do
  assert (read h (h.chn_index e) == e)
  bubble_loop compare (h.chn_index e + 1) h e (h.chn_index e) false

-- The child that takes the place of its parent, by index.
pub choose_child : (ℕ → ℕ → Bool) → Binheap → ℕ → ℕ
choose_child compare h cur =
    let child_idx = cur * 2 + 1 in
    if ltb (child_idx + 1) h.nelements && compare (read h (child_idx + 1)) (read h child_idx)
    then child_idx + 1
    else child_idx

pub sink_loop : (ℕ → ℕ → Bool) → ℕ → Binheap → ℕ → ℕ → Bool → Run (Binheap × Bool)
sink_loop compare zero h e cur did_sth = out_of_fuel
sink_loop compare (suc k) h e cur did_sth =
    let child_idx = choose_child compare h cur in
    let child = read h child_idx in
    let fall = sink_loop compare k (settle h child cur) e child_idx true in
    let round : Run (Binheap × Bool) = do
      assert (h.chn_index child == child_idx)
      if compare e child then ok (settle h e cur, did_sth) else fall
    in if ltb cur h.nelements && ltb (cur * 2 + 1) h.nelements
      then round
      else ok (settle h e cur, did_sth)

pub sink : (ℕ → ℕ → Bool) → Binheap → ℕ → Run (Binheap × Bool)
sink compare h e = do
  assert (read h (h.chn_index e) == e)
  sink_loop compare (h.nelements + 1) h e (h.chn_index e) false

pub relocate : (ℕ → ℕ → Bool) → Binheap → ℕ → Run Binheap
relocate compare h e = do
  (h', moved) ← bubble compare h e
  if moved then ok h' else sink compare h' e >>= λ (h'', _). ok h''
