-- ===== src/Pool/Dispatch.antt =====
-- How messages reach threads, and threads come back.
use lustre_simulator.Base.{
  ◌≢◌, ℕ, ◌+◌, ◌-◌, ◌<◌, ◌≡◌, ◌⊎◌, refl, true, false, none, some, List, [], ◌∷◌, ◌==◌,
  if◌then◌else◌, length, arith,
}
use lustre_simulator.Pool.{
  idle_state, start_state, run_state, full_load_state, Pool, Scheduler, next_idle_thread_from_pool,
}

-- The count of idle threads is right, every thread is idle or works, and the pool is under full load
-- exactly when no thread is idle; its own thread is in the queue of events only where it is to run or
-- the pool has just started.
pub record IsPool (p : Pool) : Type 0 where
  pub counted : p.idle ≡ length p.idle_q
  pub threads : p.idle + length p.running ≡ p.num
  pub busy : p.idle ≡ 0 → p.state ≡ full_load_state
  pub loaded : p.state ≡ full_load_state → p.idle ≡ 0
  pub quiet : p.state ≢ run_state → p.state ≢ start_state → p.queued ≡ false

-- The pool after its first idle thread has gone.
abbrev pub shorter : List ℕ → Pool → Pool
shorter rest p = record p {
  idle_q = rest;
  idle = p.idle - 1;
  state = if p.idle - 1 == 0 then full_load_state else p.state;
}

pub next_idle_first :
    (p : Pool) (t : ℕ) (rest : List ℕ)
    → p.idle_q ≡ t ∷ rest
    → next_idle_thread_from_pool p ≡ (some t, shorter rest p)
unfolding next_idle_thread_from_pool
next_idle_first p t rest e = rw (e, next_idle_thread_from_pool) refl

pub first_of : (xs : List ℕ) → 0 < length xs → (t : ℕ) × (rest : List ℕ) × (xs ≡ t ∷ rest)
first_of [] pos = absurd (omega arith)
first_of (t ∷ rest) pos = (t, rest, refl)

abbrev assigned : ℕ → ℕ → List ℕ → Pool → Pool
assigned t m rest p = record (shorter rest p) { running = (t, m) ∷ p.running }

-- The messages `ms`, as the scheduler returns them one after another while it is not throttling, go to
-- the idle threads in their order, one to each: from the idle threads `idle`, the running pairs
-- `running` and the queue `q` to `idle'`, `running'` and `q'`.
abbrev pub IsHanded :
    (S : Scheduler)
    → List ℕ
    → List ℕ
    → List (ℕ × ℕ)
    → S.Queue
    → List ℕ
    → List (ℕ × ℕ)
    → S.Queue
    → Type 0
IsHanded S [] idle running q idle' running' q' = (idle' ≡ idle) × (running' ≡ running) × (q' ≡ q)
IsHanded S (m ∷ ms) idle running q idle' running' q' =
    (t : ℕ) × (rest : List ℕ) × (idle ≡ t ∷ rest)
    × (S.throttling q ≡ false)
    × ((S.dequeue q).0 ≡ some m)
    × IsHanded S ms rest ((t, m) ∷ running) (S.dequeue q).1 idle' running' q'

-- Why the pool's own thread stops at the queue `q`, and the queue `q'` that it leaves.
abbrev pub IsAtRest : (S : Scheduler) → Pool → S.Queue → S.Queue → Type 0
IsAtRest S p q q' =
    ((p.state ≡ full_load_state) × (p.idle ≡ 0) × (q' ≡ q))
    ⊎ ((p.state ≡ idle_state)
        × (((S.throttling q ≡ true) × (q' ≡ q))
            ⊎ ((S.throttling q ≡ false) × (S.dequeue q ≡ (none, q')))))

-- What the rounds hand out, what they keep, and where they end.
pub record IsDispatched (S : Scheduler) (p : Pool) (q : S.Queue) (r : Pool × S.Queue) : Type 0 where
  pub pool : IsPool r.0
  pub num : r.0.num ≡ p.num
  pub messages : List ℕ
  pub last : S.Queue
  pub handed : IsHanded S messages p.idle_q p.running q r.0.idle_q r.0.running last
  pub rest : IsAtRest S r.0 last r.1
