-- ===== src/Pool/Tests.antt =====
-- Runs of a pool on the first-come-first-served queue, and the pool's theorems at a pool of three
-- threads.
use lustre_simulator.Base.{◌≡◌, refl, false, [], ◌∷◌, arith}
use lustre_simulator.Base.Run.{Ends}
use lustre_simulator.Nrs.Fifo.{NrsFifo}
use lustre_simulator.Nrs.Fifo
use lustre_simulator.Pool.{PoolState, idle_state, Pool, Scheduler, add_new_task}
use lustre_simulator.Pool.Dispatch.{IsPool}
use lustre_simulator.Pool.Tasks.{IsAwake, add_new_task_lem}

abbrev fifo : Scheduler
fifo = record {
  Queue = NrsFifo;
  enqueue = λ e q. (0, Fifo.enqueue e q);
  dequeue = Fifo.dequeue;
  throttling = λ q. false;
  finish = λ e q. q;
}

-- Thread 0 works on message 40; threads 1 and 2 are idle.
abbrev in_state : PoolState → Pool
in_state x = record {
  idle_q = 1 ∷ 2 ∷ [];
  idle = 2;
  num = 3;
  rnum = 3;
  counter = 3;
  state = x;
  running = (0, 40) ∷ [];
  signals = 0;
  queued = false;
}

abbrev waiting : NrsFifo
waiting = record { size = 3; queue = 9 ∷ 8 ∷ 7 ∷ [] }

asleep-IsPool : IsPool (in_state idle_state)
asleep-IsPool = record {
  counted = refl;
  threads = refl;
  busy = λ z. absurd (omega arith);
  loaded = λ f. absurd cc;
  quiet = λ _ _. refl;
}

add_new_task_lem_example :
    Ends
      (λ (p', q'). IsPool p' × IsAwake (in_state idle_state) p' × (q' ≡ Fifo.enqueue 6 waiting))
      (add_new_task fifo 6 (in_state idle_state) waiting)
add_new_task_lem_example = add_new_task_lem fifo 6 (in_state idle_state) waiting asleep-IsPool refl
