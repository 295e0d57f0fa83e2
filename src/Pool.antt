-- ===== src/Pool.antt =====
-- lustre/processor.cpp and lustre/processor.h: the pool of threads that a client or a server handles
-- its messages with. A thread is its `id`; `running` pairs each thread that works with its message.
-- The scheduler is a section's parameter, with the operations of lustre/scheduler.h that the pool
-- calls; `signals` counts the calls of `Signal`, and `queued` says that the pool's own thread is in the
-- queue of events.
pub mod Dispatch
pub mod Resize
pub mod Tasks
mod Tests
use lustre_simulator.Base.{
  ℕ, zero, suc, ◌+◌, ◌-◌, Bool, true, false, ◌&&◌, not, Option, none, some, List, [], ◌∷◌, ◌++◌,
  ltb, leb, ◌==◌, if◌then◌else◌,
}
use lustre_simulator.Base.Run.{Run, ok, fault, out_of_fuel, ◌>>=◌, ◌>>◌, assert, or_fault}

pub data PoolState : Type 0 where
  start_state idle_state run_state full_load_state last_state : PoolState

abbrev pub is_idle : PoolState → Bool
is_idle idle_state = true
is_idle _ = false

abbrev pub is_full_load : PoolState → Bool
is_full_load full_load_state = true
is_full_load _ = false

abbrev pub is_run : PoolState → Bool
is_run run_state = true
is_run _ = false

-- `poolState <= pool_IdleState`
abbrev pub at_most_idle : PoolState → Bool
at_most_idle start_state = true
at_most_idle idle_state = true
at_most_idle _ = false

pub record Pool : Type 0 where
  pub idle_q : List ℕ
  pub idle : ℕ
  pub num : ℕ
  pub rnum : ℕ
  pub counter : ℕ
  pub state : PoolState
  pub running : List (ℕ × ℕ)
  pub signals : ℕ
  pub queued : Bool

-- What the pool calls of a scheduler. A code that is not 0 makes `Enqueue` a failure.
pub record Scheduler : Type 1 where
  pub Queue : Type 0
  pub enqueue : ℕ → Queue → ℕ × Queue
  pub dequeue : Queue → Option ℕ × Queue
  pub throttling : Queue → Bool
  pub finish : ℕ → Queue → Queue

-- `Attach`, on the pool as it is constructed.
abbrev pub attach : ℕ → Pool
attach threads = record {
  idle_q = [];
  idle = 0;
  num = threads;
  rnum = threads;
  counter = threads;
  state = start_state;
  running = [];
  signals = 0;
  queued = false;
}

-- The loop of `InitThreadPool`, from the thread number `i`.
abbrev pub create_threads : ℕ → ℕ → List ℕ → List ℕ
create_threads zero i q = q
create_threads (suc k) i q = create_threads k (i + 1) (q ++ i ∷ [])

pub init_thread_pool : Pool → Run Pool
init_thread_pool p = do
  assert (ltb 0 p.num)
  ok (record p { idle_q = create_threads p.num 0 p.idle_q; idle = p.num })

-- `Start`, with `RunAfter`, which asserts that the pool's own thread is not in the queue of events.
pub start : Pool → Run Pool
start p = do p' ← init_thread_pool p; assert (not p'.queued); ok (record p' { queued = true })

-- `Signal`, which asserts that the thread is not in the queue of events, and the pool's new state.
pub signal_run : Pool → Run Pool
signal_run p =
    assert (not p.queued)
    >> ok (record p { signals = p.signals + 1; queued = true; state = run_state })

pub wakeup : Pool → Run Pool
wakeup p = if is_idle p.state then (assert (ltb 0 p.idle) >> signal_run p) else ok p

pub next_idle_thread_from_pool : Pool → Option ℕ × Pool
next_idle_thread_from_pool p = elim p.idle_q [
  | [] ↦ (none, p)
  | t ∷ rest ↦ (
    some t,
    record p {
      idle_q = rest;
      idle = p.idle - 1;
      state = if p.idle - 1 == 0 then full_load_state else p.state;
    },
  )
]

-- The thread `t` leaves the running ones.
abbrev pub stop_running : ℕ → List (ℕ × ℕ) → List (ℕ × ℕ)
stop_running t [] = []
stop_running t ((u, m) ∷ rest) =
    let kept = stop_running t rest in if u == t then rest else (u, m) ∷ kept

-- The other cases of the `switch` of `PoolStateMachine`.
abbrev pub start_to_idle : PoolState → PoolState
start_to_idle start_state = idle_state
start_to_idle state = state

module _ (S : Scheduler) where
  pub add_new_task : ℕ → Pool → S.Queue → Run (Pool × S.Queue)
  add_new_task msg p q = do
    let (rc, q') = S.enqueue msg q
    assert (rc == 0)
    p' ← if at_most_idle p.state then wakeup p else ok p
    ok (p', q')

  -- A thread that is one too many is deleted.
  pub task_completion : ℕ → ℕ → Pool → S.Queue → Run (Pool × S.Queue)
  task_completion t m p q =
      let stopped = record p { running = stop_running t p.running } in
      let kept =
        if ltb p.num (p.idle + 1)
        then stopped
        else record stopped { idle_q = p.idle_q ++ t ∷ []; idle = p.idle + 1 } in
      (do
        next ← if ltb 0 kept.idle && is_full_load kept.state then signal_run kept else ok kept
        ok (next, S.finish m q))

  -- One call for each message that is handed out, and one more.
  pub pool_state_machine : ℕ → Pool → S.Queue → Run (Pool × S.Queue)
  pool_state_machine zero p q = out_of_fuel
  pool_state_machine (suc k) p q =
      let (got, q') = S.dequeue q in
      let (thread, p') = next_idle_thread_from_pool p in
      let again =
        λ (t m : ℕ). pool_state_machine k (record p' { running = (t, m) ∷ p'.running }) q' in
      let round : Run (Pool × S.Queue) =
        if S.throttling q then ok (record p { state = idle_state }, q) else elim got [
          | none ↦ ok (record p { state = idle_state }, q')
          | some m ↦ or_fault thread >>= λ t. again t m
        ] in
      if is_run p.state then round else ok (record p { state = start_to_idle p.state }, q)

  -- `ThreadPoolManger`, after its thread has left the queue of events: each message takes an idle
  -- thread.
  pub thread_pool_manager : Pool → S.Queue → Run (Pool × S.Queue)
  thread_pool_manager p q = pool_state_machine (p.idle + 1) (record p { queued = false }) q

-- The first `while` of `AdjustThreadPool`: idle threads go until `rnum` is `c`.
pub shrink_loop : ℕ → ℕ → Pool → Pool
shrink_loop zero c p = p
shrink_loop (suc k) c p =
    let (thread, p') = next_idle_thread_from_pool p in
    let rest = shrink_loop k c (record p' { rnum = p'.rnum - 1 }) in
    if ltb c p.rnum then elim thread [ none ↦ p' | some t ↦ rest ] else p

-- The second: new threads come until `rnum` is `c`.
pub extend_loop : ℕ → ℕ → Pool → Pool
extend_loop zero c p = p
extend_loop (suc k) c p =
    let more = record p {
      counter = p.counter + 1;
      idle_q = p.idle_q ++ p.counter ∷ [];
      rnum = p.rnum + 1;
      idle = p.idle + 1;
    } in
    let rest = extend_loop k c more in if ltb p.rnum c then rest else p

-- The loops end at `rnum ≡ c` at the latest, so the difference bounds their rounds.
pub adjust_thread_pool : ℕ → Bool → Pool → Run (ℕ × Pool)
adjust_thread_pool c check p =
    let set = record p { num = c } in
    let shrunk = shrink_loop (p.rnum - c) c set in
    let extended = extend_loop (c - p.rnum) c set in
    let after : Run Pool =
      if ltb c p.rnum
      then ok (if shrunk.idle == 0 then record shrunk { state = full_load_state } else shrunk)
      else (if is_full_load extended.state && ltb 0 extended.idle && check
          then signal_run extended
          else ok extended) in
    let changes : Run (ℕ × Pool) = do p' ← after; ok (p'.rnum, p')
    in if p.num == c then ok (p.rnum, p) else changes
