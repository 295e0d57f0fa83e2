-- ===== src/Elevator/Tests.antt =====
-- The theorems of the elevator at two requests, and runs of it.
use lustre_simulator.Base.{
  ℕ, ◌≡◌, refl, true, false, none, some, List, [], ◌∷◌, ◌==◌, if◌then◌else◌, arith,
}
use lustre_simulator.Base.Run.{ok, Ends}
use lustre_simulator.Base.Words.{u64}
use lustre_simulator.Elevator.{reads, writes, Ioreq, Elevator, back_merge, enqueue, merge_with_last}
use lustre_simulator.Elevator.Bytes.{queued_bytes}
use lustre_simulator.Elevator.Dispatch.{dequeue}
use lustre_simulator.Elevator.Dispatch.Given.{IsGiven, dequeue_lem}
use lustre_simulator.Elevator.Enqueue.{IsTold, enqueue_lem}
use lustre_simulator.Elevator.Lists.{IsElevator}

-- Request 1 writes the bytes 0 to 3, and request 2 the bytes 6 and 7.
abbrev two_requests : Elevator
two_requests = record {
  requests = λ r.
      if r == 1
      then (record { cmd = writes; off = 0; count = 4; stops = false; batch = 10 ∷ [] })
      else (record { cmd = writes; off = 6; count = 2; stops = false; batch = 11 ∷ [] });
  queue = 1 ∷ 2 ∷ [];
  dispatch = [];
  hash = 2 ∷ 1 ∷ [];
  last = some 1;
  counts = λ c. 2;
  sorted = 0;
  inflight = 0;
  endpos = 0;
  boundary = none;
  maxsize = 100;
  unplug_threshold = 3;
}

two_requests-IsElevator : IsElevator two_requests
two_requests-IsElevator = record {
  distinct = ground arith;
  last = λ l e. ground arith;
  hashed = λ x h. ground arith;
  filled = λ x h. ground arith;
}

abbrev gap : Ioreq
gap = record { cmd = writes; off = 4; count = 2 }

enqueue_lem_example :
    Ends
      (λ t. (queued_bytes t.elevator ≡ 8) × IsElevator t.elevator × IsTold two_requests 3 true t)
      (enqueue 12 gap 3 true two_requests)
enqueue_lem_example =
    enqueue_lem 12 gap 3 true two_requests two_requests-IsElevator refl refl (omega arith)

dequeue_lem_example :
    (two_requests.queue ≡ [] → dequeue two_requests ≡ ok (none, two_requests))
    × ((r : ℕ) (rest : List ℕ)
        → two_requests.queue ≡ r ∷ rest
        → Ends (IsGiven r rest two_requests) (dequeue two_requests))
dequeue_lem_example = dequeue_lem two_requests refl two_requests-IsElevator

-- The last request takes an I/O request of the other kind.
merge_of_kinds :
    merge_with_last (two_requests.requests 1) (record { cmd = reads; off = 4; count = 2 })
    ≡ back_merge
unfolding merge_with_last u64
merge_of_kinds = refl
