-- ===== src/Nrs/Prio/Count.antt =====
-- The counters of the priority scheduler: requests and bytes that are queued.
use native.Mathlib.Decide.{ℕ_discrete}
use lustre_simulator.Base.{
  ℕ, ◌+◌, ◌^◌, ◌<◌, ◌≤◌, ◌≡◌, ◌≢◌, refl, sym, ap, ◌∙◌, true, not, List, [], ◌∷◌, ◌++◌, ◌==◌, ltb,
  if◌then◌else◌, length, arith,
}
use lustre_simulator.Base.Run.{Ends, ends, Ends-bind, Ends-if, Ends-map}
use lustre_simulator.Base.Words.{u64_id}
use lustre_simulator.Nrs.Fifo.{NrsFifo, empty}
use lustre_simulator.Nrs.Fifo
use lustre_simulator.Nrs.Fifo.Order.{enqueue_queue}
use lustre_simulator.Nrs.Fifo.Size.{IsSized, enqueue-IsSized, last_lem, empty-queue}
use lustre_simulator.Nrs.Prio.{
  Request, NrsPrio, Env, accept, enqueue, get_dynamic_deadline, get_dynamic_max_deadline,
  prio_queue_num,
}
use lustre_simulator.Nrs.Prio.Order.{waiting_in}

-- The bytes of the requests of a list.
abbrev pub bytes : (ℕ → Request) → List ℕ → ℕ
bytes requests [] = 0
bytes requests (e ∷ es) = (requests e).count + bytes requests es

abbrev pub queued_bytes : NrsPrio → ℕ
queued_bytes s = bytes s.requests (waiting_in 0 s) + bytes s.requests (waiting_in 1 s)

abbrev pub queued : NrsPrio → ℕ
queued s = length (waiting_in 0 s) + length (waiting_in 1 s)

-- The counters say what is in the queues, and do not wrap.
pub record IsCounted (s : NrsPrio) : Type 0 where
  pub low : IsSized (s.queues 0).pq
  pub high : IsSized (s.queues 1).pq
  pub size : s.size ≡ queued s
  pub num_queued : s.num_queued ≡ queued s
  pub io_queued : s.io_queued ≡ queued_bytes s
  pub few : queued s < 2 ^ 64
  pub small : queued_bytes s < 2 ^ 64

pub bytes-append :
    (requests : ℕ → Request) (xs ys : List ℕ)
    → bytes requests (xs ++ ys) ≡ bytes requests xs + bytes requests ys
bytes-append requests [] ys = omega arith
bytes-append requests (x ∷ xs) ys = omega (arith, bytes-append requests xs ys)

-- A new deadline changes no bytes.
bytes_update :
    (requests : ℕ → Request) (e : ℕ) (r : Request) (xs : List ℕ)
    → r.count ≡ (requests e).count
    → bytes (λ m. if m == e then r else requests m) xs ≡ bytes requests xs
bytes_update requests e r [] same = refl
bytes_update requests e r (x ∷ xs) same = ground (arith, bytes_update requests e r xs same)

bytes-enqueue :
    (requests : ℕ → Request) (e : ℕ) (r : Request) (q : NrsFifo)
    → r.count ≡ (requests e).count
    → bytes (λ m. if m == e then r else requests m) (Fifo.enqueue e q).queue
      ≡ (requests e).count + bytes requests q.queue
bytes-enqueue requests e r q same =
    rw (enqueue_queue e q) (ground (arith, bytes_update requests e r q.queue same))

module _ (e deadline : ℕ) (s : NrsPrio) (v : IsCounted s) (few : queued s + 1 < 2 ^ 64)
    (small : queued_bytes s + (s.requests e).count < 2 ^ 64) where
  accept-IsCounted : (s.requests e).prio < prio_queue_num → IsCounted (accept e deadline s)
  unfolding accept
  accept-IsCounted prio =
      let one_more = u64_id (queued s + 1) few in
      let bytes_more = u64_id (queued_bytes s + (s.requests e).count) small in
      let requests = s.requests in
      elim (ℕ_discrete (s.requests e).prio 0) [
        | yes low ↦
            let grown = enqueue-IsSized (s.queues 0).pq v.low e (omega arith) in
            let io : Request = record {
              prio = 0;
              count = (requests e).count;
              deadline = deadline;
            } in
            let in_low = bytes-enqueue requests e io (s.queues 0).pq refl in
            let in_high = bytes_update requests e io (waiting_in 1 s) refl in
            let line = enqueue_queue e (s.queues 0).pq in
            rw low (record {
              low = grown.0;
              high = v.high;
              size = ground (arith, line, v.size, one_more);
              num_queued = ground (arith, line, v.num_queued, one_more);
              io_queued = rw (v.io_queued, bytes_more) (omega (arith, in_low, in_high));
              few = ground (arith, line);
              small = omega (arith, in_low, in_high);
            })
        | no other ↦
            let high : (s.requests e).prio ≡ 1 = ground arith in
            let grown = enqueue-IsSized (s.queues 1).pq v.high e (omega arith) in
            let io : Request = record {
              prio = 1;
              count = (requests e).count;
              deadline = deadline;
            } in
            let in_high = bytes-enqueue requests e io (s.queues 1).pq refl in
            let in_low = bytes_update requests e io (waiting_in 0 s) refl in
            let line = enqueue_queue e (s.queues 1).pq in
            rw high (record {
              low = v.low;
              high = grown.0;
              size = ground (arith, line, v.size, one_more);
              num_queued = ground (arith, line, v.num_queued, one_more);
              io_queued = rw (v.io_queued, bytes_more) (omega (arith, in_low, in_high));
              few = ground (arith, line);
              small = omega (arith, in_low, in_high);
            })
      ]

  accept_more :
      (s.requests e).prio < prio_queue_num
      → (queued (accept e deadline s) ≡ queued s + 1)
        × (queued_bytes (accept e deadline s) ≡ queued_bytes s + (s.requests e).count)
  unfolding accept
  accept_more prio =
      let v' = accept-IsCounted prio in
      (
        sym v'.num_queued ∙ rw v.num_queued (u64_id (queued s + 1) few),
        sym v'.io_queued ∙ rw v.io_queued (u64_id (queued_bytes s + (s.requests e).count) small),
      )

module _ (env : Env) (s : NrsPrio) (v : IsCounted s) where
  -- With the bandwidth configured, the deadline of a request of low priority is computed, and is not
  -- before that of the newest one that waits, while the sum with `delta` does not wrap.
  pub get_dynamic_deadline_lem :
      env.bw ≢ 0
      → Ends
          (λ d.
            (x : ℕ) (rest : List ℕ)
            → waiting_in 0 s ≡ x ∷ rest
            → (s.requests x).deadline + env.delta < 2 ^ 64
            → (s.requests x).deadline ≤ d)
          (get_dynamic_deadline env s)
  unfolding get_dynamic_deadline get_dynamic_max_deadline
  get_dynamic_deadline_lem b =
      let pass : not (env.bw == 0) ≡ true = ground arith in
      rw pass (
        Ends-bind max_deadline λ m newest. ends λ x rest line small.
          let n : m ≡ (s.requests x).deadline = newest x rest line in
          let id = u64_id (m + env.delta) in ground arith)
    where
      max_deadline :
          Ends
            (λ m. (x : ℕ) (rest : List ℕ) → waiting_in 0 s ≡ x ∷ rest → m ≡ (s.requests x).deadline)
            (get_dynamic_max_deadline s)
      max_deadline =
          Ends-if (Fifo.empty (s.queues 0).pq)
            (λ t.
              ends λ x rest line. let drained = empty-queue (s.queues 0).pq v.low t in absurd cc)
            λ f.
              let (e, more, line, at) = last_lem (s.queues 0).pq v.low f in
              rw at (
                ends λ x rest line'.
                  let same : e ≡ x = cc in ap (λ (y : ℕ). (s.requests y).deadline) same)

  -- A request of one of the two priorities, for which the counters have room, is queued without a
  -- fault where the bandwidth is not 0: the counters stay right, with one request and its bytes more.
  pub enqueue-IsCounted :
      (e : ℕ)
      → env.bw ≢ 0
      → (s.requests e).prio < prio_queue_num
      → queued s + 1 < 2 ^ 64
      → queued_bytes s + (s.requests e).count < 2 ^ 64
      → Ends
          (λ s'.
            IsCounted s'
            × (queued s' ≡ queued s + 1)
            × (queued_bytes s' ≡ queued_bytes s + (s.requests e).count))
          (enqueue env e s)
  unfolding enqueue
  enqueue-IsCounted e b prio few small =
      let pass : ltb (s.requests e).prio prio_queue_num ≡ true = ground arith in
      rw pass (
        Ends-bind {0, 0, 0, 0} {Mid = λ _. Unit {0}}
          (Ends-if (s.queues (s.requests e).prio).dynamic_wt
            (λ _. Ends-map (get_dynamic_deadline_lem b) λ _ _. tt) λ _. ends tt)
          λ deadline _.
            let (one, bytes_more) = accept_more e deadline s v few small prio in
            ends (accept-IsCounted e deadline s v few small prio, one, bytes_more))
