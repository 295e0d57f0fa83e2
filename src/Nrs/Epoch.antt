-- ===== src/Nrs/Epoch.antt =====
-- lustre/nrsepoch.cpp and lustre/nrsepoch.h, with what they call of lustre/timer.cpp: a queue for each class of clients, served by time
-- slices. `cid` is the client of a request, by the request's address; the clock is an argument.
-- `nrs` is the index of the queue that the source's pointer `nrs` points to, and `timer` is the time
-- for which the timer is set.
pub mod Arrival
pub mod End
pub mod Work
pub mod Timer
mod Tests
use lustre_simulator.Base.{
  ℕ, zero, suc, ◌+◌, ◌-◌, ◌/◌, ◌%◌, Bool, true, false, not, Option, none, some, ltb, ◌==◌,
  if◌then◌else◌,
}
use lustre_simulator.Base.Run.{Run, ok, fault, out_of_fuel, ◌>>=◌, ◌>>◌, assert, or_fault}
use lustre_simulator.Base.Words.{u64, sub_u64}
use lustre_simulator.Nrs.Fifo.{NrsFifo, new_fifo}
use lustre_simulator.Nrs.Fifo

pub record QueueClass : Type 0 where
  pub quota : ℕ
  pub start : ℕ
  pub q : NrsFifo

pub record NrsEpoch : Type 0 where
  pub size : ℕ
  pub qvec : ℕ → QueueClass
  pub num : ℕ
  pub cur : ℕ
  pub on : Bool
  pub timer : Option ℕ
  pub nrs : ℕ

-- `Init`, for the configured number of classes; `ts` has two entries.
abbrev pub init : ℕ → ℕ → NrsEpoch
init clock num = record {
  size = 0;
  qvec =
      λ i. record { quota = if i == 0 then 700000000 else 300000000; start = clock; q = new_fifo };
  num = num;
  cur = 0;
  on = false;
  timer = none;
  nrs = 0;
}

abbrev pub set_class : ℕ → QueueClass → NrsEpoch → NrsEpoch
set_class i c s = record s { qvec = λ j. if j == i then c else s.qvec j }

abbrev pub set_fifo : ℕ → NrsFifo → NrsEpoch → NrsEpoch
set_fifo i q s = set_class i (record (s.qvec i) { q = q }) s

-- `Timer::ModTimer`, with the assertion of `Event::RunAt` that the time is to come.
pub mod_timer : ℕ → ℕ → NrsEpoch → Run NrsEpoch
mod_timer clock expire s =
    let run_at : Run NrsEpoch =
      assert (ltb clock expire) >> ok (record s { timer = some expire }) in
    elim s.timer [ none ↦ run_at | some time ↦ if expire == time then ok s else run_at ]

pub switch_queue : ℕ → NrsEpoch → Run NrsEpoch
switch_queue clock s = do
  assert (not (s.num == 0))
  let next = (s.cur + 1) % s.num
  let class = record (s.qvec next) { start = clock }
  let moved = record (set_class next class s) { cur = next; nrs = next; timer = none }
  let starts : Run NrsEpoch = do
    timed ← mod_timer clock (u64 (clock + class.quota)) moved
    ok (record timed { on = true })
  if ltb 0 s.size then starts else ok moved

-- `TimeSliceExpire`: the timer is no longer set when its function is called.
pub time_slice_expire : ℕ → NrsEpoch → Run NrsEpoch
time_slice_expire clock s = switch_queue clock (record s { timer = none })

pub start_timer : ℕ → NrsEpoch → Run NrsEpoch
start_timer clock s =
    let class = s.qvec s.cur in
    let used = sub_u64 clock class.start in
    let starts : Run NrsEpoch = do
      assert (ltb 0 s.size)
      if ltb class.quota used
          then switch_queue clock s
          else mod_timer clock (sub_u64 (u64 (clock + class.quota)) used) s
    in if s.on then ok s else starts

-- `clients` and `sets` are `params.cluster.ClientCount` and `ClientSet`.
pub get_queue_class : ℕ → ℕ → ℕ → NrsEpoch → Run ℕ
get_queue_class clients sets cid s = do
  assert (not (sets == 0))
  assert (not (clients / sets == 0))
  assert (not (s.num == 0))
  ok (cid / (clients / sets) % s.num)

pub enqueue : ℕ → ℕ → ℕ → (ℕ → ℕ) → ℕ → NrsEpoch → Run NrsEpoch
enqueue clients sets clock cid e s = do
  c ← get_queue_class clients sets (cid e) s
  assert (ltb c s.num)
  let queued = record (set_fifo c (Fifo.enqueue e (s.qvec c).q) s) { size = u64 (s.size + 1) }
  if queued.size == 1 then start_timer clock queued else ok queued

-- One queue's `Dequeue`.
pub dequeue_from : ℕ → NrsEpoch → Option ℕ × NrsEpoch
dequeue_from i s = let (e, rest) = Fifo.dequeue (s.qvec i).q in (e, set_fifo i rest s)

-- The `while` over the other queues.
pub dequeue_loop : ℕ → ℕ → NrsEpoch → Run (Option ℕ × NrsEpoch)
dequeue_loop zero idx s = out_of_fuel
dequeue_loop (suc k) idx s =
    let (got, taken) = dequeue_from idx s in
    let next = dequeue_loop k ((idx + 1) % s.num) taken in
    if idx == s.cur then ok (none, s) else elim got [ none ↦ next | some e ↦ ok (some e, taken) ]

-- There are `num` queues to visit, the current one included.
pub dequeue : NrsEpoch → Run (Option ℕ × NrsEpoch)
dequeue s =
    let (got, taken) = dequeue_from s.nrs s in
    let others : Run (Option ℕ × NrsEpoch) = do
      assert (not (s.num == 0))
      dequeue_loop s.num ((s.cur + 1) % s.num) taken
    in let takes : Run (Option ℕ × NrsEpoch) = do
      (e, left) ← elim got [ none ↦ others | some e ↦ ok (some e, taken) ]
      ok (e, record left { size = sub_u64 left.size 1 })
      in if s.size == 0 then ok (none, s) else takes

pub erase : ℕ → ℕ → (ℕ → ℕ) → ℕ → NrsEpoch → Run NrsEpoch
erase clients sets cid e s = do
  c ← get_queue_class clients sets (cid e) s
  ok (record (set_fifo c (Fifo.erase e (s.qvec c).q) s) { size = sub_u64 s.size 1 })

pub requeue : ℕ → ℕ → (ℕ → ℕ) → ℕ → NrsEpoch → Run NrsEpoch
requeue clients sets cid e s = do
  c ← get_queue_class clients sets (cid e) s
  ok (record (set_fifo c (Fifo.requeue e (s.qvec c).q) s) { size = u64 (s.size + 1) })
