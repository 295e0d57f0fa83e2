-- ===== src/Nrs/Prio.antt =====
-- lustre/nrsprio.cpp and lustre/nrsprio.h: two queues by priority, served by strict priority, by
-- quanta, by deadline, or by both. `requests` is the memory of the requests, by address. The clock
-- and the configuration are the argument `env`; `coef` is a `float`, so the product with it is the
-- function `scale`.
pub mod Count
pub mod Order
pub mod Quantum
pub mod Taken
mod Tests
use lustre_simulator.Base.{
  ℕ, zero, suc, ◌+◌, ◌-◌, ◌*◌, ◌/◌, ◌%◌, ◌^◌, Bool, true, false, ◌||◌, not, Option, none, some,
  List, [], ◌∷◌, ltb, leb, ◌==◌, if◌then◌else◌,
}
use lustre_simulator.Base.Run.{Run, ok, fault, out_of_fuel, ◌>>=◌, ◌>>◌, assert, or_fault}
use lustre_simulator.Base.Words.{u64, sub_u64, ℤ, pos, pred, is_zero}
use lustre_simulator.Nrs.Fifo.{NrsFifo, new_fifo}
use lustre_simulator.Nrs.Fifo

pub record Request : Type 0 where
  pub prio : ℕ
  pub count : ℕ
  pub deadline : ℕ

pub record PrioQueue : Type 0 where
  pub dynamic_wt : Bool
  pub prio : ℕ
  pub quantum : ℤ
  pub pq : NrsFifo
  pub wt : ℕ

-- `working` is the index of the queue that `wq` points to.
pub record NrsPrio : Type 0 where
  pub size : ℕ
  pub num_serviced : ℕ
  pub num_queued : ℕ
  pub io_queued : ℕ
  pub io_serviced : ℕ
  pub queues : ℕ → PrioQueue
  pub working : Option ℕ
  pub idx : ℕ
  pub requests : ℕ → Request

pub record Env : Type 0 where
  pub clock : ℕ
  pub bw : ℕ
  pub time_unit : ℕ
  pub delta : ℕ
  pub scale : ℕ → ℕ

pub data Flavor : Type 0 where
  strict quantum_only deadline_only dqps : Flavor

abbrev pub prio_queue_num : ℕ
prio_queue_num = 2

abbrev pub quantum_of : ℕ → ℤ
quantum_of prio = if prio == 0 then pos 1 else pos 10

-- The constructor, with `InitPrioQueues`.
abbrev pub new_prio : (ℕ → Request) → NrsPrio
new_prio requests = record {
  size = 0;
  num_serviced = 0;
  num_queued = 0;
  io_queued = 0;
  io_serviced = 0;
  queues = λ i.
      if i == 0
      then (record { dynamic_wt = true; prio = 0; quantum = pos 1; pq = new_fifo; wt = 0 })
      else (record {
        dynamic_wt = false;
        prio = 1;
        quantum = pos 10;
        pq = new_fifo;
        wt = 5000000000;
      });
  working = none;
  idx = prio_queue_num - 1;
  requests = requests;
}

abbrev pub set_queue : ℕ → PrioQueue → NrsPrio → NrsPrio
set_queue i q s = record s { queues = λ j. if j == i then q else s.queues j }

pub get_dynamic_max_deadline : NrsPrio → Run ℕ
get_dynamic_max_deadline s =
    let q = (s.queues 0).pq in
    if Fifo.empty q then ok 0 else (do e ← or_fault (Fifo.last q); ok (s.requests e).deadline)

pub get_dynamic_waitime : Env → NrsPrio → Run ℕ
get_dynamic_waitime env s = do
  assert (not (env.bw == 0))
  ok (env.scale (u64 (s.io_queued + s.io_serviced) / env.bw))

pub get_dynamic_deadline : Env → NrsPrio → Run ℕ
get_dynamic_deadline env s = do
  assert (not (env.bw == 0))
  let dl =
      u64 (env.scale (u64 (u64 (s.io_queued + s.io_serviced) / env.bw * env.time_unit)) + env.clock)
  max_dl ← get_dynamic_max_deadline s
  ok (if ltb dl max_dl then u64 (max_dl + env.delta) else dl)

-- With its deadline in place.
pub accept : ℕ → ℕ → NrsPrio → NrsPrio
accept e deadline s =
    let io = s.requests e in
    let q = s.queues io.prio in
    let queued = set_queue io.prio (record q { pq = Fifo.enqueue e q.pq }) s in
    record queued {
      requests = λ m. if m == e then record io { deadline = deadline } else s.requests m;
      num_queued = u64 (s.num_queued + 1);
      io_queued = u64 (s.io_queued + io.count);
      size = u64 (s.size + 1);
    }

pub enqueue : Env → ℕ → NrsPrio → Run NrsPrio
enqueue env e s = do
  let io = s.requests e
  assert (ltb io.prio prio_queue_num)
  let q = s.queues io.prio
  deadline ← if q.dynamic_wt then get_dynamic_deadline env s else ok (u64 (env.clock + q.wt))
  ok (accept e deadline s)

pub get_message_from_pq : ℕ → NrsPrio → Option ℕ × NrsPrio
get_message_from_pq i s =
    let q = s.queues i in
    let (e, rest) = Fifo.dequeue q.pq in (e, set_queue i (record q { pq = rest }) s)

-- The loop from the last queue down, over the queues below `k`.
pub strict_prio_loop : ℕ → NrsPrio → Option ℕ × NrsPrio
strict_prio_loop zero s = (none, s)
strict_prio_loop (suc i) s =
    let rest = strict_prio_loop i s in
    if Fifo.empty (s.queues i).pq then rest else get_message_from_pq i s

pub strict_prio_dequeue : NrsPrio → Option ℕ × NrsPrio
strict_prio_dequeue s = strict_prio_loop prio_queue_num s

-- `quantum` is an `int`, which goes below 0 where it was 0. That it passes the least `int`, after 2 ^ 31
-- requests more, is left out.
pub take_quantum : ℕ → NrsPrio → Run (ℕ × NrsPrio)
take_quantum w s = do
  let (got, taken) = get_message_from_pq w s
  let q = taken.queues w
  let left = pred q.quantum
  let spent = set_queue w (record q { quantum = left }) taken
  e ← or_fault got
  ok (
    e,
    if is_zero left
        then record spent { working = none; idx = (s.idx + 1) % prio_queue_num }
        else spent,
  )

-- The queue that `wq` points to, after `wq = &Q[idx % PRIO_QUEUE_NUM]` where it is null.
pub chosen_queue : NrsPrio → ℕ
chosen_queue s = elim s.working [ none ↦ s.idx % prio_queue_num | some w ↦ w ]

-- The rounds from `repeat` on.
pub quantum_prio_loop : ℕ → NrsPrio → Run (ℕ × NrsPrio)
quantum_prio_loop zero s = out_of_fuel
quantum_prio_loop (suc k) s =
    let w = chosen_queue s in
    let q = s.queues w in
    let chosen = record s { working = some w } in
    let refilled = record (set_queue w (record q { quantum = quantum_of q.prio }) chosen) {
      idx = s.idx + 1;
    } in
    let again = quantum_prio_loop k refilled in
    if Fifo.empty q.pq then again else take_quantum w chosen

-- A round that finds the chosen queue empty is followed by the same round for ever, so one round of
-- fuel is enough where the call returns at all.
pub quantum_prio_dequeue : NrsPrio → Run (ℕ × NrsPrio)
quantum_prio_dequeue s = quantum_prio_loop 1 s

-- The message stays where it is.
pub deadline_check_loop : ℕ → ℕ → NrsPrio → Run (Option ℕ)
deadline_check_loop zero clock s = ok none
deadline_check_loop (suc i) clock s =
    let rest = deadline_check_loop i clock s in
    (do
      e ← or_fault (Fifo.first (s.queues i).pq)
      if leb clock (s.requests e).deadline then ok (some e) else rest)

pub deadline_check_dequeue : ℕ → NrsPrio → Run (Option ℕ)
deadline_check_dequeue clock s = deadline_check_loop prio_queue_num clock s

pub dl_prio_dequeue : ℕ → NrsPrio → Run (Option ℕ × NrsPrio)
dl_prio_dequeue clock s = do
  urgent ← deadline_check_dequeue clock s
  elim urgent [ some e ↦ ok (some e, s) | none ↦ ok (strict_prio_dequeue s) ]

pub dqps_dequeue : ℕ → NrsPrio → Run (Option ℕ × NrsPrio)
dqps_dequeue clock s = do
  urgent ← deadline_check_dequeue clock s
  elim urgent [
    | some e ↦ ok (some e, s)
    | none ↦ quantum_prio_dequeue s >>= λ (e, s'). ok (some e, s')
  ]

pub choose : Flavor → ℕ → NrsPrio → Run (Option ℕ × NrsPrio)
choose strict clock s = ok (strict_prio_dequeue s)
choose quantum_only clock s = quantum_prio_dequeue s >>= λ (e, s'). ok (some e, s')
choose deadline_only clock s = dl_prio_dequeue clock s
choose dqps clock s = dqps_dequeue clock s

-- The counters of a request that leaves the queues.
pub leave : ℕ → NrsPrio → NrsPrio
leave e s =
    let io = s.requests e in
    record s {
      num_queued = sub_u64 s.num_queued 1;
      num_serviced = u64 (s.num_serviced + 1);
      io_queued = sub_u64 s.io_queued io.count;
      io_serviced = u64 (s.io_serviced + io.count);
      size = sub_u64 s.size 1;
    }

pub dequeue : Flavor → ℕ → NrsPrio → Run (Option ℕ × NrsPrio)
dequeue flavor clock s =
    let chooses : Run (Option ℕ × NrsPrio) = do
      (got, taken) ← choose flavor clock s
      e ← or_fault got
      ok (some e, leave e taken)
    in if s.size == 0 then ok (none, s) else chooses

pub finish : ℕ → NrsPrio → NrsPrio
finish e s = record s {
  num_serviced = sub_u64 s.num_serviced 1;
  io_serviced = sub_u64 s.io_serviced (s.requests e).count;
}
