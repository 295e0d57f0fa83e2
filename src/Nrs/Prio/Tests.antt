-- ===== src/Nrs/Prio/Tests.antt =====
-- Runs of the priority scheduler, and its theorems at two queued requests.
use lustre_simulator.Base.{
  ℕ, ◌≡◌, refl, true, false, none, some, [], ◌∷◌, ◌==◌, if◌then◌else◌, arith,
}
use lustre_simulator.Base.Run.{out_of_fuel, Ends}
use lustre_simulator.Base.Words.{pos}
use lustre_simulator.Nrs.Fifo.{NrsFifo}
use lustre_simulator.Nrs.Fifo.Size.{empty_iff}
use lustre_simulator.Nrs.Prio.{
  Request, NrsPrio, Env, strict, enqueue, dequeue, strict_prio_dequeue, quantum_prio_loop,
  quantum_prio_dequeue, chosen_queue,
}
use lustre_simulator.Nrs.Prio.Order.{served, strict_prio_dequeue_lem}
use lustre_simulator.Nrs.Prio.Count.{IsCounted, queued, queued_bytes, enqueue-IsCounted}
use lustre_simulator.Nrs.Prio.Taken.{IsTaken, dequeue-IsTaken}
use lustre_simulator.Nrs.Prio.Quantum.{IsQuantum, quantum_prio_loop_lem, quantum_prio_dequeue_lem}

-- Request 3 is of high priority, the others are of low priority.
abbrev memory : ℕ → Request
memory e =
    if e == 3
    then (record { prio = 1; count = 10; deadline = 100 })
    else (record { prio = 0; count = 7; deadline = 50 })

abbrev line_of : ℕ → NrsFifo
line_of e = record { size = 1; queue = e ∷ [] }

abbrev both : NrsPrio
both = record {
  size = 2;
  num_serviced = 0;
  num_queued = 2;
  io_queued = 17;
  io_serviced = 0;
  queues = λ i.
      if i == 0
      then (record { dynamic_wt = true; prio = 0; quantum = pos 1; pq = line_of 5; wt = 0 })
      else (record { dynamic_wt = false; prio = 1; quantum = pos 10; pq = line_of 3; wt = 40 });
  working = none;
  idx = 1;
  requests = memory;
}

both-IsCounted : IsCounted both
both-IsCounted = record {
  low = (refl, omega arith);
  high = (refl, omega arith);
  size = refl;
  num_queued = refl;
  io_queued = refl;
  few = omega arith;
  small = omega arith;
}

-- The scheduler whose working queue is that of high priority, which is empty.
abbrev stuck : NrsPrio
stuck = record both {
  queues = λ i.
      if i == 0
      then (record { dynamic_wt = true; prio = 0; quantum = pos 1; pq = line_of 5; wt = 0 })
      else (record {
        dynamic_wt = false;
        prio = 1;
        quantum = pos 4;
        pq = record { size = 0; queue = [] };
        wt = 40;
      });
  working = some 1;
}

abbrev env : Env
env = record { clock = 20; bw = 2; time_unit = 3; delta = 5; scale = λ x. x }

strict_prio_dequeue_lem_example : strict_prio_dequeue both ≡ (some 3, served 1 [] both)
strict_prio_dequeue_lem_example =
    (strict_prio_dequeue_lem both (refl, omega arith) (refl, omega arith)).0 [] 3 refl

enqueue-IsCounted_example :
    Ends (λ s'. IsCounted s' × (queued s' ≡ 3) × (queued_bytes s' ≡ 24)) (enqueue env 8 both)
enqueue-IsCounted_example =
    enqueue-IsCounted env both both-IsCounted 8 (λ e. absurd (ground arith)) (omega arith)
      (omega arith) (omega arith)

dequeue-IsTaken_example : Ends (IsTaken both) (dequeue strict 20 both)
dequeue-IsTaken_example = dequeue-IsTaken 20 both both-IsCounted

quantum_prio_loop_lem_example : quantum_prio_loop 1000 stuck ≡ out_of_fuel
unfolding chosen_queue
quantum_prio_loop_lem_example =
    quantum_prio_loop_lem 1000 stuck ((empty_iff (stuck.queues 1).pq (refl, omega arith)).0 refl)

quantum_prio_dequeue_lem_example : Ends (IsQuantum 1 [] 3 both) (quantum_prio_dequeue both)
unfolding chosen_queue
quantum_prio_dequeue_lem_example = quantum_prio_dequeue_lem both [] 3 (refl, omega arith) refl
