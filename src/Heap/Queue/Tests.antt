-- ===== src/Heap/Queue/Tests.antt =====
-- The heap's theorems at a heap of two nodes, and runs of its operations.
use lustre_simulator.Base.{
  ℕ, zero, suc, ◌-◌, ◌/◌, ◌≤◌, ◌<◌, ◌≡◌, refl, Bool, true, arith, ltb, ◌==◌, if◌then◌else◌, some,
  [], ◌∷◌,
}
use lustre_simulator.Base.Run.{ok, ◌>>=◌, Ends}
use lustre_simulator.Heap.{
  Storage, Binheap, single, slot_eq, pointer, read, write, set_index, settle, relocate, find,
  bubble, bubble_loop, sink, sink_loop, choose_child,
}
use lustre_simulator.Heap.Hole.{IsOrder, Holds, HasHole, Filled}
use lustre_simulator.Heap.Growth.{empty_storage, grow, create}
use lustre_simulator.Heap.Growth.Stored.{IsStored, Grown, grow_lem, create_lem}
use lustre_simulator.Heap.Queue.{inserted, insert, place_last, remove, remove_root}
use lustre_simulator.Heap.Queue.Well.{IsWell, relocate_lem}
use lustre_simulator.Heap.Queue.Insert.{Inserted, insert_lem}
use lustre_simulator.Heap.Queue.Remove.{Removed, RootRemoved, remove_lem, remove_root_lem}

abbrev rank : ℕ → ℕ
rank x = x

abbrev always : ℕ → Bool
always n = true

rank-IsOrder : IsOrder rank ltb
rank-IsOrder a b = ground arith

abbrev one_fragment : Storage
one_fragment = record empty_storage { hwm = 512; elements1 = true; attempts = 1; live = 1 }

one_fragment-IsStored : IsStored one_fragment
one_fragment-IsStored = record {
  aligned = omega arith;
  bounded = omega arith;
  first = refl;
  second = refl;
  second_frags = λ i p. ground arith;
  third = refl;
  third_frags = λ a. ground arith;
  inner_frags = λ a b p. ground arith;
}

-- The node 5 above the node 9.
abbrev sample : Binheap
sample = record {
  elements = λ s. if slot_eq s (single 0) then 5 else 9;
  chn_index = λ x. if x == 9 then 1 else 0;
  nelements = 2;
  storage = one_fragment;
  exits = [];
}

sample-read : (i : ℕ) → i < 2 → read sample i ≡ (if i == 0 then 5 else 9)
unfolding read pointer
sample-read zero h = refl
sample-read (suc zero) h = refl
sample-read (suc (suc i)) h = absurd (omega arith)

sample-IsWell : IsWell rank sample
sample-IsWell = record {
  heap = record {
    indexed = λ i p. ground (arith, sample-read i p);
    ordered = λ i z p. ground (arith, sample-read i, sample-read ((i - 1) / 2));
  };
  stored = one_fragment-IsStored;
  room = omega arith;
}

sample-Holds : Holds sample 5
sample-Holds = (omega arith, ground (arith, sample-read 0 (omega arith)))

sample-lacks : ¬ (Holds sample 3)
sample-lacks h = ground (arith, sample-read 0 (omega arith))

sample-HasHole : HasHole rank sample 9 1
sample-HasHole = record {
  inside = omega arith;
  indexed = λ i p ne. ground (arith, sample-read i p);
  others = λ i p ne. ground (arith, sample-read i p);
  ordered = λ i z p ne np. absurd (omega arith);
  bridged = λ i z p np z'. absurd (omega arith);
}

grow_lem_example : Ends (Grown one_fragment) (grow always one_fragment)
grow_lem_example = grow_lem always one_fragment one_fragment-IsStored

create_lem_example :
    Ends (λ r. (st : Storage) → r ≡ some st → IsStored st × (600 ≤ st.hwm)) (create always 600)
create_lem_example = create_lem always 600

relocate_lem_example : Ends (Filled rank sample 9 1) (relocate ltb sample 9)
relocate_lem_example =
    relocate_lem rank ltb rank-IsOrder sample 9 1 refl (sample-read 1 (omega arith)) sample-HasHole

insert_lem_example :
    Ends
      (λ r. Inserted rank sample 3 r × (2 < 512 → ◌≡◌ {A = ℕ} 0 0 → r.1 ≡ inserted))
      (insert ltb (λ e. 0) always sample 3)
insert_lem_example =
    insert_lem rank ltb rank-IsOrder (λ e. 0) always sample 3 sample-IsWell sample-lacks

remove_lem_example : Ends (Removed rank sample 5) (remove ltb sample 5)
remove_lem_example = remove_lem rank ltb rank-IsOrder sample 5 sample-IsWell sample-Holds

remove_root_lem_example : Ends (RootRemoved rank sample) (remove_root ltb sample)
remove_root_lem_example = remove_root_lem rank ltb rank-IsOrder sample sample-IsWell

-- The two nodes come out in order, and a node put in below the mark goes to the root.
drained :
    (do (h, a) ← remove_root ltb sample; (h', b) ← remove_root ltb h; ok (a ∷ b ∷ []))
    ≡ ok (some 5 ∷ some 9 ∷ [])
unfolding remove_root remove relocate bubble bubble_loop sink sink_loop choose_child find settle
    write set_index read pointer
drained = refl

inserted_first :
    (do (h, _) ← insert ltb (λ e. 0) always sample 3; ok (read h 0 ∷ read h 1 ∷ read h 2 ∷ []))
    ≡ ok (3 ∷ 9 ∷ 5 ∷ [])
unfolding insert place_last bubble bubble_loop settle write set_index read pointer
inserted_first = refl
