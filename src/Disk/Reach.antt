-- ===== src/Disk/Reach.antt =====
-- lustre/disk.cpp: the disk from its start, through every order of I/O requests and events.
use lustre_simulator.Base.{ℕ, ◌+◌, ◌^◌, ◌<◌, ◌≡◌, refl, sym, ◌∙◌, Bool, true, false, not, [], ltb}
use lustre_simulator.Base.Run.{ok, Ends-value}
use lustre_simulator.Base.Words.{u64}
use lustre_simulator.Elevator.{Ioreq, Request, is_empty, on_hash}
use lustre_simulator.Elevator.Bytes.{queued_bytes}
use lustre_simulator.Disk.{
  DiskState, idle_state, work_state, req_finished_state, DiskParams, Disk, Env, is_idle, is_running,
  submit_ioreq, disk_unplug_work, process, new_elevator, new_disk,
}
use lustre_simulator.Disk.Counts.{serving}
use lustre_simulator.Disk.Awake.{IsDisk, submit_ioreq-IsDisk, disk_unplug_work-IsDisk}
use lustre_simulator.Disk.Process.{IsRun, process-IsRun}
use lustre_simulator.Disk.Search.{HasBandwidth}

-- What may happen to a disk: an I/O request is submitted, with a new request at an address that is
-- free; the plug's timer runs; the disk's thread runs.
pub data Step (d d' : Disk) : Type 0 where
  submits :
      (env : Env) (e : ℕ) (io : Ioreq) (r : ℕ)
      → on_hash r d.elevator.queue ≡ false
      → on_hash r d.elevator.hash ≡ false
      → on_hash r d.ready ≡ false
      → on_hash r (serving d) ≡ false
      → queued_bytes d.elevator + io.count < 2 ^ 64
      → ltb env.now (u64 (env.now + d.delay)) ≡ true
      → submit_ioreq env e io r d ≡ ok d'
      → Step d d'
  unplugs : (env : Env) → is_running d.timer ≡ true → disk_unplug_work env d ≡ ok d' → Step d d'
  runs :
      (params : DiskParams) (env : Env)
      → HasBandwidth params
      → is_running d.thread ≡ true
      → process params env d ≡ ok d'
      → Step d d'

pub data Reach (start : Disk) : Disk → Type 0 where
  here : Reach start start
  next : {d d' : Disk} → Reach start d → Step d d' → Reach start d'

Step-IsDisk : {d d' : Disk} → Step d d' → IsDisk d → IsDisk d'
Step-IsDisk {d} {d'} (submits env e io r new unhashed not_ready not_served small later is) v =
    Ends-value (submit_ioreq-IsDisk env e io r d v new unhashed not_ready not_served small later) d'
      is
Step-IsDisk {d} {d'} (unplugs env running is) v =
    Ends-value (disk_unplug_work-IsDisk env d v running) d' is
Step-IsDisk {d} {d'} (runs params env able running is) v =
    let done : IsRun d d' = Ends-value (process-IsRun params env d able v running) d' is in
    done.disk

pub Reach-IsDisk : {start d : Disk} → Reach start d → IsDisk start → IsDisk d
Reach-IsDisk here v = v
Reach-IsDisk (next before step) v = Step-IsDisk step (Reach-IsDisk before v)

pub new_disk-IsDisk :
    (requests : ℕ → Request) (maxsize threshold delay : ℕ)
    → IsDisk (new_disk delay (new_elevator requests maxsize threshold))
unfolding new_disk new_elevator
new_disk-IsDisk requests maxsize threshold delay = record {
  lists = record {
    distinct = tt;
    last = λ l e. absurd cc;
    hashed = λ x e. absurd cc;
    filled = λ x e. absurd cc;
  };
  drained = refl;
  plugs = refl;
  timed = refl;
  awake = refl;
  rest = λ _ _. refl;
  current = λ e. absurd cc;
  exact = λ c. refl;
  apart = λ x e. absurd cc;
}

nothing_left :
    (d : Disk)
    → IsDisk d
    → is_running d.timer ≡ false
    → is_running d.thread ≡ false
    → (is_empty d.elevator ≡ true) × (d.ready ≡ []) × (d.state ≡ idle_state)
nothing_left d v timer thread =
    let bare : d.pluged ≡ false = sym v.timed ∙ timer in
    let empty : is_empty d.elevator ≡ true = emptied (is_empty d.elevator) (sym bare ∙ v.plugs) in
    let idle : d.state ≡ idle_state = idles d.state (sym thread ∙ v.awake) in
    (empty, v.rest idle bare, idle)
  where
    emptied : (b : Bool) → false ≡ not b → b ≡ true
    emptied true e = refl
    emptied false e = cc

    idles : (state : DiskState) → false ≡ not (is_idle state) → state ≡ idle_state
    idles idle_state e = refl
    idles work_state e = cc
    idles req_finished_state e = cc

-- However a disk has come from its start, in any order of I/O requests, runs of the plug's timer
-- and runs of its thread: where neither the timer nor the thread is in the queue of events, nothing
-- is left to do. The elevator is empty, no request is ready and none is being served. A new request
-- comes at an address that is free, the bytes stay below 2^64, the plug's delay takes the clock
-- forward and the bandwidths are not 0.
pub asleep_lem :
    (requests : ℕ → Request) (maxsize threshold delay : ℕ) (d : Disk)
    → Reach (new_disk delay (new_elevator requests maxsize threshold)) d
    → is_running d.timer ≡ false
    → is_running d.thread ≡ false
    → (is_empty d.elevator ≡ true) × (d.ready ≡ []) × (d.state ≡ idle_state)
asleep_lem requests maxsize threshold delay d reach =
    nothing_left d (Reach-IsDisk reach (new_disk-IsDisk requests maxsize threshold delay))
