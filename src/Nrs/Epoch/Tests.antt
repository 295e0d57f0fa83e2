-- ===== src/Nrs/Epoch/Tests.antt =====
-- The theorems of the scheduler by time slices at two classes, and a run of it.
use lustre_simulator.Base.{
  ℕ, ◌+◌, ◌<◌, ◌^◌, ◌≡◌, refl, true, none, some, [], ◌∷◌, ◌==◌, if◌then◌else◌, arith,
}
use lustre_simulator.Base.Run.{fault, ◌>>=◌, Ends}
use lustre_simulator.Nrs.Epoch.{NrsEpoch, init, dequeue, time_slice_expire, enqueue}
use lustre_simulator.Nrs.Epoch.Work.{IsEpoch, IsSliceServed, dequeue-IsSliceServed}
use lustre_simulator.Nrs.Epoch.Arrival.{enqueue-IsEpoch}
use lustre_simulator.Base.Words.{u64, sub_u64}
use lustre_simulator.Nrs.Epoch.End.{enqueue-fault}
use lustre_simulator.Nrs.Epoch.Timer.{time_slice_expire-enqueue}

-- Class 1 is current and has no request; class 0 has one.
abbrev two_classes : NrsEpoch
two_classes = record {
  size = 1;
  qvec = λ i.
      if i == 0
      then (record { quota = 700; start = 0; q = record { size = 1; queue = 4 ∷ [] } })
      else (record { quota = 300; start = 0; q = record { size = 0; queue = [] } });
  num = 2;
  cur = 1;
  on = true;
  timer = some 9;
  nrs = 1;
}

two_classes-IsEpoch : IsEpoch two_classes
two_classes-IsEpoch = record {
  classes = omega arith;
  current = omega arith;
  pointer = refl;
  size = refl;
  few = omega arith;
}

dequeue-IsSliceServed_example : Ends (IsSliceServed two_classes) (dequeue two_classes)
dequeue-IsSliceServed_example = dequeue-IsSliceServed two_classes two_classes-IsEpoch

time_slice_expire-enqueue_example :
    Ends
      (λ s'. (s'.timer ≡ none) × (s'.on ≡ true) × (s'.size ≡ 1) × (s'.cur ≡ 1))
      (time_slice_expire 5 (record (init 0 2) { on = true }) >>= enqueue 8 2 6 (λ e. e) 3)
time_slice_expire-enqueue_example =
    time_slice_expire-enqueue 8 2 5 6 (λ e. e) 3 (record (init 0 2) { on = true })
      (λ e. absurd (ground arith)) (λ e. absurd (ground arith)) (λ e. absurd (ground arith)) refl
      refl

some_quotas : (i : ℕ) → 0 < (two_classes.qvec i).quota
some_quotas i = ground arith

early_enough : (i : ℕ) → 6 + (two_classes.qvec i).quota < 2 ^ 64
early_enough i = ground arith

enqueue-fault_example : enqueue 8 2 700000005 (λ e. e) 3 (init 5 2) ≡ fault
enqueue-fault_example =
    enqueue-fault 8 2 700000005 (λ e. e) 3 (init 5 2) (λ e. absurd (ground arith))
      (λ e. absurd (ground arith)) (λ e. absurd (ground arith)) refl refl refl (omega arith)
      (unfold sub_u64 u64 in refl)

enqueue-IsEpoch_example :
    Ends (λ t. IsEpoch t × (t.size ≡ 2)) (enqueue 8 2 6 (λ e. e) 3 two_classes)
enqueue-IsEpoch_example =
    enqueue-IsEpoch 8 2 6 (λ e. e) 3 two_classes (λ e. absurd (ground arith))
      (λ e. absurd (ground arith)) (omega arith) some_quotas early_enough (λ e. absurd cc)
      two_classes-IsEpoch
