-- ===== src/Heap/Growth.antt =====
-- `cfs_binheap_grow`: one more fragment of pointers, with the fragments above it where it is the
-- first below them. `calloc` clears what it returns.
pub mod Stored
use mathlib.Core.Path.{subst}
use lustre_simulator.Base.{
  Option, none, some, ℕ, zero, suc, ◌+◌, ◌-◌, ◌*◌, ◌/◌, ◌%◌, ◌≤◌, ◌<◌, ◌≡◌, ◌≢◌, refl, ap, Bool,
  true, false, ◌&&◌, not, arith, ltb, leb, ◌==◌, if◌then◌else◌,
}
use lustre_simulator.Base.Run.{
  Run, ok, ◌>>=◌, ◌>>◌, assert, Ends, ends, Ends-if, Ends-bind, out_of_fuel,
}
use lustre_simulator.Heap.{cbh_size, Slot, single, double, triple, Storage, pointer}
use lustre_simulator.Heap.Slots.{capacity}

-- `CBH_ALLOC` where the fragment is needed, and `CBH_FREE` where it was taken.
pub cbh_alloc : (ℕ → Bool) → Bool → Storage → Bool × Storage
cbh_alloc alloc needed st = (
  if needed then alloc st.attempts else true,
  record st {
    attempts = if needed then st.attempts + 1 else st.attempts;
    live = if needed && alloc st.attempts then st.live + 1 else st.live;
  },
)

pub cbh_free : Bool → Storage → Storage
cbh_free taken st = record st { live = if taken then st.live - 1 else st.live }

-- The label `out`.
pub raise : Storage → Bool × Storage
raise st = (true, record st { hwm = st.hwm + cbh_size })

pub grow_single : (ℕ → Bool) → Storage → Bool × Storage
unfolding cbh_alloc raise
grow_single alloc st =
    let (got, st) = cbh_alloc alloc true st in
    if got then raise (record st { elements1 = true }) else (false, st)

pub grow_double : (ℕ → Bool) → Storage → ℕ → Run (Bool × Storage)
unfolding cbh_alloc cbh_free raise
grow_double alloc st hwm =
    let first = hwm == 0 in
    let (got, st1) = cbh_alloc alloc true st in
    let (got2, st2) = cbh_alloc alloc first st1 in
    let st3 = record st2 { elements2 = if first then true else st2.elements2 } in
    if not got
    then ok (false, st1)
    else (if not got2
        then ok (false, cbh_free true st2)
        else (assert st3.elements2
            >> ok (
                raise
                  (record st3 { frag2 = λ i. if i == hwm / cbh_size then true else st3.frag2 i }))))

-- With the fragment of the second level, if it is new, in its place.
pub attach : Storage → Bool → ℕ → ℕ → Run (Bool × Storage)
unfolding raise
attach st fresh a b =
    if fresh
    then (do
      assert (not (st.frag3 a))
      ok (
          raise (record st {
            frag3 = λ i. if i == a then true else st.frag3 i;
            frag32 = λ i j. if i == a then j == b else st.frag32 i j;
          })))
    else (do
      assert (st.frag3 a)
      ok (raise (record st { frag32 = λ i j. if i == a && j == b then true else st.frag32 i j })))

pub grow_triple : (ℕ → Bool) → Storage → ℕ → Run (Bool × Storage)
unfolding cbh_alloc cbh_free attach
grow_triple alloc st hwm =
    let first = hwm == 0 in
    let fresh = hwm / cbh_size % cbh_size == 0 in
    let (got, st1) = cbh_alloc alloc true st in
    let (got1, st2) = cbh_alloc alloc fresh st1 in
    let (got3, st3) = cbh_alloc alloc first st2 in
    let st4 = record st3 { elements3 = if first then true else st3.elements3 } in
    if leb (cbh_size * cbh_size * cbh_size) hwm
    then ok (false, st)
    else (if not got
        then ok (false, st1)
        else (if not got1
            then ok (false, cbh_free true st2)
            else (if not got3
                then ok (false, cbh_free fresh (cbh_free true st3))
                else (assert st4.elements3
                    >> attach st4 fresh (hwm / (cbh_size * cbh_size))
                        (hwm / cbh_size % cbh_size)))))

-- 0 is true and -ENOMEM is false.
pub grow : (ℕ → Bool) → Storage → Run (Bool × Storage)
unfolding grow_single grow_double grow_triple
grow alloc st = do
  assert (st.hwm % cbh_size == 0)
  if st.hwm == 0
      then ok (grow_single alloc st)
      else (if ltb (st.hwm - cbh_size) (cbh_size * cbh_size)
          then grow_double alloc st (st.hwm - cbh_size)
          else grow_triple alloc st (st.hwm - cbh_size - cbh_size * cbh_size))

-- The `while` of `cfs_binheap_create`; `none` is a null pointer, after the heap is destroyed.
pub preallocate : ℕ → (ℕ → Bool) → ℕ → Storage → Run (Option Storage)
preallocate zero alloc count st = out_of_fuel
preallocate (suc k) alloc count st =
    let round : Run (Option Storage) = do
      (got, st') ← grow alloc st
      let rest = preallocate k alloc count st'
      if got then rest else ok none
    in if ltb st.hwm count then round else ok (some st)

abbrev pub empty_storage : Storage
empty_storage = record {
  hwm = 0;
  elements1 = false;
  elements2 = false;
  frag2 = λ i. false;
  elements3 = false;
  frag3 = λ i. false;
  frag32 = λ i j. false;
  attempts = 0;
  live = 0;
}

-- `cfs_binheap_create`, past the allocation of the heap's own record.
pub create : (ℕ → Bool) → ℕ → Run (Option Storage)
create alloc count = preallocate (count + 1) alloc count empty_storage
