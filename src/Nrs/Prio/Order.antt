-- ===== src/Nrs/Prio/Order.antt =====
-- Which request `StrictPrioDequeue` takes.
use lustre_simulator.Base.{ℕ, ◌≡◌, refl, none, some, List, [], ◌∷◌, ◌++◌}
use lustre_simulator.Base.Words.{sub_u64}
use lustre_simulator.Nrs.Fifo.Order.{dequeue_back}
use lustre_simulator.Nrs.Fifo.Size.{IsSized, empty_iff}
use lustre_simulator.Nrs.Prio.{
  NrsPrio, set_queue, get_message_from_pq, strict_prio_loop, strict_prio_dequeue,
}

-- The scheduler with the list `ys` left in the queue number `i`.
abbrev pub served : ℕ → List ℕ → NrsPrio → NrsPrio
served i ys s =
    let q = s.queues i in
    set_queue i (record q { pq = record { size = sub_u64 q.pq.size 1; queue = ys } }) s

abbrev pub waiting_in : ℕ → NrsPrio → List ℕ
waiting_in i s = (s.queues i).pq.queue

pub get_message_lem :
    (i : ℕ) (s : NrsPrio) (ys : List ℕ) (y : ℕ)
    → waiting_in i s ≡ ys ++ y ∷ []
    → get_message_from_pq i s ≡ (some y, served i ys s)
unfolding get_message_from_pq
get_message_lem i s ys y e = rw (dequeue_back (s.queues i).pq ys y e) refl

module _ (s : NrsPrio) (low : IsSized (s.queues 0).pq) (high : IsSized (s.queues 1).pq) where
  -- Of queues whose sizes are right, the oldest request of high priority is served first, the oldest
  -- of low priority only when none of high priority waits, and nothing when none waits.
  pub strict_prio_dequeue_lem :
      ((ys : List ℕ) (y : ℕ)
        → waiting_in 1 s ≡ ys ++ y ∷ []
        → strict_prio_dequeue s ≡ (some y, served 1 ys s))
      × (waiting_in 1 s ≡ []
          → ((ys : List ℕ) (y : ℕ)
              → waiting_in 0 s ≡ ys ++ y ∷ []
              → strict_prio_dequeue s ≡ (some y, served 0 ys s))
            × (waiting_in 0 s ≡ [] → strict_prio_dequeue s ≡ (none, s)))
  unfolding strict_prio_dequeue strict_prio_loop
  strict_prio_dequeue_lem =
      let high_empty = empty_iff (s.queues 1).pq high in
      let low_empty = empty_iff (s.queues 0).pq low in
      (
        (λ ys y e. rw (high_empty.1 ys y e) (get_message_lem 1 s ys y e)),
        λ n. (
          (λ ys y e. rw (high_empty.0 n, low_empty.1 ys y e) (get_message_lem 0 s ys y e)),
          λ m. rw (high_empty.0 n, low_empty.0 m) refl,
        ),
      )
