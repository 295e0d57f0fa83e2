-- ===== src/Heap/Growth/Stored.antt =====
-- What `cfs_binheap_grow` and `cfs_binheap_create` keep: the fragments are those below the mark.
use mathlib.Core.Path.{subst}
use lustre_simulator.Base.{
  some, ℕ, zero, suc, ◌+◌, ◌-◌, ◌*◌, ◌/◌, ◌%◌, ◌≤◌, ◌<◌, ◌≡◌, ◌≢◌, refl, ap, Bool, true, false, not,
  arith, ltb, leb, ◌==◌, if◌then◌else◌,
}
use lustre_simulator.Base.Run.{Ends, ends, Ends-if, Ends-bind}
use lustre_simulator.Heap.{cbh_size, Slot, single, double, triple, Storage, pointer}
use lustre_simulator.Heap.Slots.{capacity}
use lustre_simulator.Heap.Growth.{
  cbh_alloc, grow_single, grow_double, grow_triple, grow, preallocate, empty_storage, create,
}

-- Exactly the fragments below the high water mark are allocated.
pub record IsStored (st : Storage) : Type 0 where
  pub aligned : st.hwm % cbh_size ≡ 0
  pub bounded : st.hwm ≤ capacity
  pub first : st.elements1 ≡ ltb 0 st.hwm
  pub second : st.elements2 ≡ ltb cbh_size st.hwm
  pub second_frags : (i : ℕ) → i < cbh_size → st.frag2 i ≡ ltb (cbh_size + i * cbh_size) st.hwm
  pub third : st.elements3 ≡ ltb (cbh_size + cbh_size * cbh_size) st.hwm
  pub third_frags :
      (a : ℕ) → st.frag3 a ≡ ltb (cbh_size + cbh_size * cbh_size + a * (cbh_size * cbh_size)) st.hwm
  pub inner_frags :
      (a b : ℕ)
      → b < cbh_size
      → st.frag32 a b
        ≡ ltb (cbh_size + cbh_size * cbh_size + a * (cbh_size * cbh_size) + b * cbh_size) st.hwm

-- What a call leaves: one fragment more, or nothing new and nothing lost.
abbrev pub Grown : Storage → Bool × Storage → Type 0
Grown st (got, st') =
    IsStored st'
    × (got ≡ true → st'.hwm ≡ st.hwm + cbh_size)
    × (got ≡ false → (st'.hwm ≡ st.hwm) × (st'.live ≡ st.live))

grow_single_lem :
    (alloc : ℕ → Bool) (st : Storage) → IsStored st → st.hwm ≡ 0 → Grown st (grow_single alloc st)
unfolding grow_single
grow_single_lem alloc st v z = (
  record {
    aligned = ground (arith, v.aligned);
    bounded = ground (arith, v.bounded);
    first = ground (arith, v.first);
    second = ground (arith, v.second);
    second_frags = λ i p. ground (arith, v.second_frags i);
    third = ground (arith, v.third);
    third_frags = λ a. ground (arith, v.third_frags a);
    inner_frags = λ a b p. ground (arith, v.inner_frags a b);
  },
  ground arith,
  ground arith,
)

IsStored-same :
    {st : Storage} (a l : ℕ) → IsStored st → IsStored (record st { attempts = a; live = l })
IsStored-same a l v = record {
  aligned = v.aligned;
  bounded = v.bounded;
  first = v.first;
  second = v.second;
  second_frags = v.second_frags;
  third = v.third;
  third_frags = v.third_frags;
  inner_frags = v.inner_frags;
}

module _ (alloc : ℕ → Bool) (st : Storage) (v : IsStored st) where
  grow_double_lem :
      st.hwm ≢ 0
      → st.hwm - cbh_size < cbh_size * cbh_size
      → Ends (Grown st) (grow_double alloc st (st.hwm - cbh_size))
  unfolding grow_double
  grow_double_lem nz small =
      let first = st.hwm - cbh_size == 0 in
      let second : (if first then true else st.elements2) ≡ true =
        ground (arith, v.second, v.aligned) in
      Ends-if (not (alloc st.attempts))
        (λ f. ends (IsStored-same _ _ v, λ t. cc, λ _. ground arith))
        λ t.
          Ends-if (not (if first then alloc (st.attempts + 1) else true))
            (λ f. ends (IsStored-same _ _ v, λ t. cc, λ _. ground arith))
            λ u. rw second (
              ends (
                record {
                  aligned = ground (arith, v.aligned);
                  bounded = ground (arith, v.bounded, v.aligned);
                  first = ground (arith, v.first);
                  second = ground (arith, v.second);
                  second_frags = λ i p. ground (arith, v.second_frags i, v.aligned);
                  third = ground (arith, v.third, v.aligned);
                  third_frags = λ a. ground (arith, v.third_frags a, v.aligned);
                  inner_frags = λ a b p. ground (arith, v.inner_frags a b, v.aligned);
                },
                λ _. refl,
                λ e. cc,
              ))

  grow_triple_lem :
      cbh_size ≤ st.hwm
      → cbh_size * cbh_size ≤ st.hwm - cbh_size
      → Ends (Grown st) (grow_triple alloc st (st.hwm - cbh_size - cbh_size * cbh_size))
  unfolding grow_triple
  grow_triple_lem some_first some_second =
      let hwm = st.hwm - cbh_size - cbh_size * cbh_size in
      let first = hwm == 0 in
      let fresh = hwm / cbh_size % cbh_size == 0 in
      let a = hwm / (cbh_size * cbh_size) in
      let second : (if first then true else st.elements3) ≡ true =
        ground (arith, v.third, v.aligned) in
      Ends-if (leb (cbh_size * cbh_size * cbh_size) hwm)
        (λ f. ends (IsStored-same _ _ v, λ t. cc, λ _. ground arith))
        λ room.
          Ends-if (not (alloc st.attempts))
            (λ f. ends (IsStored-same _ _ v, λ t. cc, λ _. ground arith))
            λ t.
              Ends-if (not (if fresh then alloc (st.attempts + 1) else true))
                (λ f. ends (IsStored-same _ _ v, λ t. cc, λ _. ground arith))
                λ u.
                  Ends-if
                    (not
                      (cbh_alloc alloc first
                        (cbh_alloc alloc fresh (cbh_alloc alloc true st).1).1).0)
                    (λ f. ends (IsStored-same _ _ v, λ t. cc, λ _. ground arith))
                    λ w. rw second (
                      Ends-if fresh
                        (λ new.
                          let empty : not (st.frag3 a) ≡ true =
                            ground (arith, v.third_frags a, v.aligned) in
                          rw empty (
                            ends (
                              record {
                                aligned = ground (arith, v.aligned);
                                bounded = ground (arith, v.bounded, v.aligned);
                                first = ground (arith, v.first);
                                second = ground (arith, v.second);
                                second_frags = λ i p. ground (arith, v.second_frags i, v.aligned);
                                third = ground (arith, v.third, v.aligned);
                                third_frags = λ a. ground (arith, v.third_frags a, v.aligned);
                                inner_frags = λ a b p. ground (arith, v.inner_frags a b, v.aligned);
                              },
                              λ _. refl,
                              λ e. cc,
                            )))
                        λ old.
                          let full : st.frag3 a ≡ true =
                            ground (arith, v.third_frags a, v.aligned) in
                          rw full (
                            ends (
                              record {
                                aligned = ground (arith, v.aligned);
                                bounded = ground (arith, v.bounded, v.aligned);
                                first = ground (arith, v.first);
                                second = ground (arith, v.second);
                                second_frags = λ i p. ground (arith, v.second_frags i, v.aligned);
                                third = ground (arith, v.third, v.aligned);
                                third_frags = λ a. ground (arith, v.third_frags a, v.aligned);
                                inner_frags = λ a b p. ground (arith, v.inner_frags a b, v.aligned);
                              },
                              λ _. refl,
                              λ e. cc,
                            )))

-- A heap whose fragments fit its high water mark grows without a failed assertion: on success by
-- one fragment, and on failure with no change of the mark and no fragment lost. Either way exactly
-- the fragments below the mark are allocated.
pub grow_lem : (alloc : ℕ → Bool) (st : Storage) → IsStored st → Ends (Grown st) (grow alloc st)
unfolding grow
grow_lem alloc st v =
    let pass : (st.hwm % cbh_size == 0) ≡ true = ground (arith, v.aligned) in
    rw pass (
      Ends-if (st.hwm == 0) (λ z. ends (grow_single_lem alloc st v (ground arith)))
        λ nz.
          Ends-if (ltb (st.hwm - cbh_size) (cbh_size * cbh_size))
            (λ small. grow_double_lem alloc st v (ground arith) (ground arith))
            λ large. grow_triple_lem alloc st v (ground (arith, v.aligned)) (ground arith))

-- The fragments that lead to a place.
abbrev pub IsAllocated : Storage → Slot → Type 0
IsAllocated st (single a) = st.elements1 ≡ true
IsAllocated st (double a b) = (st.elements2 ≡ true) × (st.frag2 a ≡ true)
IsAllocated st (triple a b c) = (st.elements3 ≡ true) × (st.frag3 a ≡ true) × (st.frag32 a b ≡ true)

-- Every index below the high water mark has all its fragments.
pub pointer-IsAllocated :
    (st : Storage) (i : ℕ) → IsStored st → i < st.hwm → IsAllocated st (pointer i)
unfolding pointer
pointer-IsAllocated st i v h =
    let rest = i - cbh_size - cbh_size * cbh_size in
    let a = rest / (cbh_size * cbh_size) in
    ground (
      arith,
      v.first,
      v.second,
      v.second_frags ((i - cbh_size) / cbh_size),
      v.third,
      v.third_frags a,
      v.inner_frags a (rest / cbh_size % cbh_size),
      v.aligned,
    )

preallocate_lem :
    (k : ℕ) (alloc : ℕ → Bool) (count : ℕ) (st : Storage)
    → count - st.hwm < k
    → IsStored st
    → Ends
        (λ r. (st' : Storage) → r ≡ some st' → IsStored st' × (count ≤ st'.hwm))
        (preallocate k alloc count st)
unfolding preallocate
preallocate_lem zero alloc count st f v = absurd (omega arith)
preallocate_lem (suc k) alloc count st f v =
    Ends-if (ltb st.hwm count)
      (λ more. Ends-bind (grow_lem alloc st v) λ (got, st') (v', up, _).
        Ends-if got (λ g. preallocate_lem k alloc count st' (ground (arith, up g)) v')
          λ n. ends λ s e. cc)
      λ enough. ends λ s e.
        let same : st ≡ s = cc in
        (subst IsStored same v, ground (arith, ap (λ (t : Storage). t.hwm) same))

empty-IsStored : IsStored empty_storage
empty-IsStored = record {
  aligned = omega arith;
  bounded = omega arith;
  first = refl;
  second = refl;
  second_frags = λ i p. ground arith;
  third = refl;
  third_frags = λ a. ground arith;
  inner_frags = λ a b p. ground arith;
}

-- A heap that is created with room for `count` nodes has it, and exactly the fragments below its
-- high water mark are allocated; the call ends whatever the allocator does.
pub create_lem :
    (alloc : ℕ → Bool) (count : ℕ)
    → Ends (λ r. (st : Storage) → r ≡ some st → IsStored st × (count ≤ st.hwm)) (create alloc count)
unfolding create
create_lem alloc count =
    preallocate_lem (count + 1) alloc count empty_storage (omega arith) empty-IsStored
