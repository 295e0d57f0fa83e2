-- ===== src/Nrs/Prio/Taken.antt =====
-- What `Dequeue` takes by strict priority, and the counters that it leaves.
use lustre_simulator.Base.{
  ℕ, zero, suc, ◌+◌, ◌<◌, ◌≡◌, refl, ap, ◌∙◌, inl, inr, Option, none, some, List, [], ◌∷◌, ◌++◌,
  ◌==◌, length, length-append, arith,
}
use lustre_simulator.Base.Run.{Ends, ends, Ends-if}
use lustre_simulator.Base.Words.{u64, sub_u64_lem}
use lustre_simulator.Nrs.Prio.{NrsPrio, strict, leave, dequeue, choose, prio_queue_num}
use lustre_simulator.Nrs.Prio.Order.{served, waiting_in, strict_prio_dequeue_lem}
use lustre_simulator.Nrs.Fifo.Order.{back_cases}
use lustre_simulator.Nrs.Prio.Count.{IsCounted, bytes, bytes-append, queued, queued_bytes}

-- What a dequeue leaves: nothing where nothing waits, and else one request and its bytes less.
abbrev pub IsTaken : NrsPrio → Option ℕ × NrsPrio → Type 0
IsTaken s (none, s') = (queued s ≡ 0) × (s' ≡ s)
IsTaken s (some e, s') =
    IsCounted s'
    × (queued s' + 1 ≡ queued s)
    × (queued_bytes s' + (s.requests e).count ≡ queued_bytes s)
    × (s'.num_serviced ≡ u64 (s.num_serviced + 1))
    × (s'.io_serviced ≡ u64 (s.io_serviced + (s.requests e).count))

module _ (i e : ℕ) (ys : List ℕ) (s : NrsPrio) (v : IsCounted s)
    (line : waiting_in i s ≡ ys ++ e ∷ []) where
  one_less : length (waiting_in i s) ≡ length ys + 1
  one_less = ap (λ (t : List ℕ). length t) line ∙ length-append ys (e ∷ [])

  bytes_less : bytes s.requests (waiting_in i s) ≡ bytes s.requests ys + ((s.requests e).count + 0)
  bytes_less = ap (λ (t : List ℕ). bytes s.requests t) line ∙ bytes-append s.requests ys (e ∷ [])

-- The counters after the request `e`, which waited at the back of queue `i`, has left.
leave-IsCounted :
    (i e : ℕ) (ys : List ℕ) (s : NrsPrio)
    → IsCounted s
    → i < prio_queue_num
    → waiting_in i s ≡ ys ++ e ∷ []
    → IsTaken s (some e, leave e (served i ys s))
unfolding leave
leave-IsCounted zero e ys s v low line =
    let len = one_less 0 e ys s v line in
    let total = bytes_less 0 e ys s v line in
    let count = (s.requests e).count in
    (
      record {
        low = (sub_u64_lem _ 1 (omega arith) (omega arith) ∙ omega arith, omega arith);
        high = v.high;
        size = sub_u64_lem s.size 1 (omega arith) (omega arith) ∙ omega arith;
        num_queued = sub_u64_lem s.num_queued 1 (omega arith) (omega arith) ∙ omega arith;
        io_queued = sub_u64_lem s.io_queued count (omega arith) (omega arith) ∙ omega arith;
        few = omega arith;
        small = omega arith;
      },
      omega arith,
      omega arith,
      refl,
      refl,
    )
leave-IsCounted (suc zero) e ys s v low line =
    let len = one_less 1 e ys s v line in
    let total = bytes_less 1 e ys s v line in
    let count = (s.requests e).count in
    (
      record {
        low = v.low;
        high = (sub_u64_lem _ 1 (omega arith) (omega arith) ∙ omega arith, omega arith);
        size = sub_u64_lem s.size 1 (omega arith) (omega arith) ∙ omega arith;
        num_queued = sub_u64_lem s.num_queued 1 (omega arith) (omega arith) ∙ omega arith;
        io_queued = sub_u64_lem s.io_queued count (omega arith) (omega arith) ∙ omega arith;
        few = omega arith;
        small = omega arith;
      },
      omega arith,
      omega arith,
      refl,
      refl,
    )
leave-IsCounted (suc (suc i)) e ys s v low line = absurd (omega arith)

-- With the counters right, a dequeue by strict priority does not fault: it returns nothing where
-- nothing waits, and else a request, with the counters right for what is left.
pub dequeue-IsTaken :
    (clock : ℕ) (s : NrsPrio) → IsCounted s → Ends (IsTaken s) (dequeue strict clock s)
unfolding dequeue choose
dequeue-IsTaken clock s v =
    let (from_high, rest) = strict_prio_dequeue_lem s v.low v.high in
    Ends-if (s.size == 0) (λ z. ends (ground (arith, v.size), refl))
      λ n. elim (back_cases (waiting_in 1 s)) [
        | inr (ys, y, line) ↦
            rw (from_high ys y line) (ends (leave-IsCounted 1 y ys s v (omega arith) line))
        | inl none_high ↦ elim (back_cases (waiting_in 0 s)) [
          | inr (ys, y, line) ↦
              rw ((rest none_high).0 ys y line)
                (ends (leave-IsCounted 0 y ys s v (omega arith) line))
          | inl none_low ↦
              let no_high : length (waiting_in 1 s) ≡ 0 = ap (λ (t : List ℕ). length t) none_high in
              let no_low : length (waiting_in 0 s) ≡ 0 = ap (λ (t : List ℕ). length t) none_low in
              absurd (ground (arith, v.size))
        ]
      ]
