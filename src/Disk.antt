-- ===== src/Disk.antt =====
-- lustre/disk.cpp with the parts of lustre/timer.cpp and lustre/event.cpp that it calls: the disk
-- that takes its requests from the elevator, one at a time. `ready` is the source's `Queue`, and
-- `completed` lists the I/O requests whose completion has been called. `timer` and `thread` say when
-- the plug's timer and the disk's thread run next, if they are in the queue of events at all. The
-- clock and the random draws are arguments, and the statistics are left out.
pub mod Awake
pub mod Counts
pub mod Process
pub mod Reach
pub mod Search
pub mod Unplug
mod Tests
use lustre_simulator.Base.{
  ℕ, zero, suc, ◌+◌, ◌*◌, ◌/◌, Bool, true, false, not, Option, none, some, List, [], ◌∷◌, ◌++◌,
  length, ltb, ◌==◌, if◌then◌else◌,
}
use lustre_simulator.Base.Run.{Run, ok, fault, out_of_fuel, ◌>>=◌, ◌>>◌, assert, or_fault}
use lustre_simulator.Base.Words.{u64}
use lustre_simulator.Elevator.{
  Command, reads, writes, Ioreq, Request, Elevator, set_request, enqueue,
}
use lustre_simulator.Elevator.Dispatch.{dequeue, put_request}

pub data DiskState : Type 0 where
  idle_state work_state req_finished_state : DiskState

pub record DiskParams : Type 0 where
  pub latency : ℕ
  pub seek_ticks : ℕ
  pub time_unit : ℕ
  pub read_bandwidth : ℕ
  pub write_bandwidth : ℕ

pub record Disk : Type 0 where
  pub elevator : Elevator
  pub pluged : Bool
  pub timer : Option ℕ
  pub thread : Option ℕ
  pub ready : List ℕ
  pub state : DiskState
  pub curq : Option ℕ
  pub headpos : ℕ
  pub seeknr : ℕ
  pub delay : ℕ
  pub completed : List ℕ

-- What a call reads from its surroundings: the clock, the time that a signalled thread needs to
-- wake, and the deviations of a latency and of a seek.
pub record Env : Type 0 where
  pub now : ℕ
  pub switch_ticks : ℕ
  pub latency_random : ℕ
  pub seek_random : ℕ

abbrev pub is_idle : DiskState → Bool
is_idle idle_state = true
is_idle _ = false

abbrev pub is_running : Option ℕ → Bool
is_running none = false
is_running (some time) = true

-- `Event::RunAfter` of the disk's thread.
pub run_after : ℕ → ℕ → Disk → Run Disk
run_after now ticks d =
    assert (not (is_running d.thread)) >> ok (record d { thread = some (u64 (now + ticks)) })

-- `Timer::ModTimer`
pub mod_timer : ℕ → ℕ → Disk → Run Disk
mod_timer now expire d =
    let run_at : Run Disk = assert (ltb now expire) >> ok (record d { timer = some expire }) in
    elim d.timer [ none ↦ run_at | some time ↦ if expire == time then ok d else run_at ]

-- `Thread::Signal` runs the thread as `RunAfter` does.
pub submit_rq : Env → ℕ → Disk → Run Disk
submit_rq env r d =
    let queued = record d { ready = d.ready ++ r ∷ [] } in
    let wakes : Run Disk = do
      woken ← run_after env.now env.switch_ticks queued
      ok (record woken { state = work_state })
    in if is_idle d.state then wakes else ok queued

-- The loop of `Request`.
pub request : ℕ → Env → Disk → Run Disk
request zero env d = out_of_fuel
request (suc k) env d = do
  (got, elevator) ← dequeue d.elevator
  elim got [
    | none ↦ ok (record d { elevator = elevator })
    | some r ↦ submit_rq env r (record d { elevator = elevator }) >>= request k env
  ]

pub plug : Env → Disk → Run Disk
plug env d =
    if not d.pluged
    then mod_timer env.now (u64 (env.now + d.delay)) (record d { pluged = true })
    else ok d

-- Whether there was a plug, and the disk without it.
pub remove_plug : Disk → Bool × Disk
remove_plug d =
    if not d.pluged then (false, d) else (true, record d { timer = none; pluged = false })

-- A round for each request that the elevator has, and one that finds nothing.
abbrev pub rounds : Elevator → ℕ
rounds s = suc (length s.dispatch + length s.queue)

pub unplug : Env → Disk → Run Disk
unplug env d =
    let (removed, bare) = remove_plug d in
    if not removed then ok d else request (rounds bare.elevator) env bare

-- `SubmitIoreq` of the I/O request at the address `e`. A new request would stand at `r`.
pub submit_ioreq : Env → ℕ → Ioreq → ℕ → Disk → Run Disk
submit_ioreq env e io r d = do
  told ← enqueue e io r d.pluged d.elevator
  plugged ← if told.plugs then plug env d else ok d
  let taken = record plugged { elevator = told.elevator }
  if told.unplugs then unplug env taken else ok taken

-- `DiskUnplugWork`: the timer has left the queue of events.
pub disk_unplug_work : Env → Disk → Run Disk
disk_unplug_work env d = unplug env (record d { timer = none })

-- The I/O requests of the batch are completed one after another.
pub end_ioreqs : List ℕ → Disk → Disk
end_ioreqs [] d = d
end_ioreqs (e ∷ batch) d = end_ioreqs batch (record d { completed = d.completed ++ e ∷ [] })

-- `RequestCompletion` of the elevator puts the request.
pub end_request : ℕ → Disk → Run Disk
end_request r d =
    let q = d.elevator.requests r in
    let emptied = set_request r (record q { batch = [] }) d.elevator in
    let served = end_ioreqs q.batch (record d { elevator = emptied }) in
    (do elevator ← put_request r served.elevator; ok (record served { elevator = elevator }))

abbrev pub bandwidth : DiskParams → Command → ℕ
bandwidth params reads = params.read_bandwidth
bandwidth params writes = params.write_bandwidth

-- How long the disk is busy with a request, of a head that stands at `headpos`.
pub request_ticks : DiskParams → Env → ℕ → Request → Run ℕ
request_ticks params env headpos q = do
  let start =
      if not (headpos == q.off)
      then params.seek_ticks + env.seek_random
      else params.latency + env.latency_random
  let rate = bandwidth params q.cmd
  _ ← assert (not (rate == 0))
  ok (u64 (start + (q.count / rate) * params.time_unit))

-- `disk_WorkState`
pub work : DiskParams → Env → Disk → Run Disk
work params env d = elim d.ready [
  | [] ↦ ok (record d { curq = none; state = idle_state })
  | r ∷ rest ↦ do
    let q = d.elevator.requests r
    ticks ← request_ticks params env d.headpos q
    let seeks = if not (d.headpos == q.off) then d.seeknr + 1 else d.seeknr
    started ← run_after env.now ticks (record d { ready = rest; curq = some r; seeknr = seeks })
    ok (record started { state = req_finished_state })
]

-- `disk_ReqFinishedState`
pub req_finished : DiskParams → Env → Disk → Run Disk
req_finished params env d = do
  r ← or_fault d.curq
  let q = d.elevator.requests r
  ended ← end_request r (record d { headpos = u64 (q.off + q.count) })
  if ended.pluged
      then ok (record ended { state = idle_state })
      else work params env (record ended { state = work_state })

pub disk_state_machine : DiskParams → Env → Disk → Run Disk
disk_state_machine params env d = elim d.state [
  | work_state ↦ work params env d
  | req_finished_state ↦ req_finished params env d
  | idle_state ↦ ok d
]

-- `Process`: the thread has left the queue of events.
pub process : DiskParams → Env → Disk → Run Disk
process params env d = disk_state_machine params env (record d { thread = none })

-- The elevator as it starts, with what the memory of requests holds.
pub new_elevator : (ℕ → Request) → ℕ → ℕ → Elevator
new_elevator requests maxsize unplug_threshold = record {
  requests = requests;
  queue = [];
  dispatch = [];
  hash = [];
  last = none;
  counts = λ c. 0;
  sorted = 0;
  inflight = 0;
  endpos = 0;
  boundary = none;
  maxsize = maxsize;
  unplug_threshold = unplug_threshold;
}

-- The disk as it starts, with a new elevator.
pub new_disk : ℕ → Elevator → Disk
new_disk delay elevator = record {
  elevator = elevator;
  pluged = false;
  timer = none;
  thread = none;
  ready = [];
  state = idle_state;
  curq = none;
  headpos = 0;
  seeknr = 0;
  delay = delay;
  completed = [];
}
