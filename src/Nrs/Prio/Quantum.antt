-- ===== src/Nrs/Prio/Quantum.antt =====
-- When `QuantumPrioDequeue` and the dequeues by deadline return, and what they leave.
use mathlib.Core.Path.{subst}
use lustre_simulator.Base.{
  ℕ, zero, suc, ◌+◌, ◌%◌, ◌≡◌, ◌≢◌, refl, sym, ◌∙◌, ap, true, false, none, some, List, [], ◌∷◌,
  ◌++◌, ◌==◌, Bool-cases, inl, inr, ==_refl, arith,
}
use lustre_simulator.Base.Words.{ℤ, pos, negsuc, pred, is_zero}
use lustre_simulator.Base.Run.{out_of_fuel, Ends, ends}
use lustre_simulator.Nrs.Fifo.{empty}
use lustre_simulator.Nrs.Fifo.Size.{IsSized, empty_iff}
use lustre_simulator.Nrs.Prio.{
  PrioQueue, NrsPrio, set_queue, chosen_queue, take_quantum, quantum_prio_loop,
  quantum_prio_dequeue, prio_queue_num,
}
use lustre_simulator.Nrs.Prio.Order.{served, waiting_in, get_message_lem}

-- Where the chosen queue is empty no number of rounds is enough, whatever waits in the other queue.
pub quantum_prio_loop_lem :
    (k : ℕ) (s : NrsPrio)
    → empty (s.queues (chosen_queue s)).pq ≡ true
    → quantum_prio_loop k s ≡ out_of_fuel
unfolding quantum_prio_loop chosen_queue
quantum_prio_loop_lem zero s e = refl
quantum_prio_loop_lem (suc k) s e =
    rw e (quantum_prio_loop_lem k _ (rw (==_refl (chosen_queue s)) e))

-- The quantum of a queue that is served goes down by one, below 0 as well.
abbrev pub IsLess : ℤ → ℤ → Type 0
IsLess (pos zero) after = after ≡ negsuc 0
IsLess (pos (suc n)) after = after ≡ pos n
IsLess (negsuc n) after = after ≡ negsuc (n + 1)

-- What a dequeue by quantum leaves of the queue `w`, which held `ys` and `y` behind, and of the others.
pub record IsQuantum (w : ℕ) (ys : List ℕ) (y : ℕ) (s : NrsPrio) (r : ℕ × NrsPrio) : Type 0 where
  pub oldest : r.0 ≡ y
  pub waiting : waiting_in w r.1 ≡ ys
  pub others : (i : ℕ) → i ≢ w → r.1.queues i ≡ s.queues i
  pub quantum : IsLess (s.queues w).quantum (r.1.queues w).quantum
  pub ends_turn :
      (s.queues w).quantum ≡ pos 1 → (r.1.working ≡ none) × (r.1.idx ≡ (s.idx + 1) % prio_queue_num)
  pub keeps_turn : (s.queues w).quantum ≢ pos 1 → (r.1.working ≡ some w) × (r.1.idx ≡ s.idx)

pred-IsLess : (n : ℤ) → IsLess n (pred n)
pred-IsLess (pos zero) = refl
pred-IsLess (pos (suc n)) = refl
pred-IsLess (negsuc n) = ap negsuc (omega arith)

pos_one : {n : ℕ} → pos (suc n) ≡ pos 1 → n ≡ 0
pos_one {n} e = let whole : suc n ≡ 1 = cc in omega arith

pred_zero : (n : ℤ) → (is_zero (pred n) ≡ true → n ≡ pos 1) × (is_zero (pred n) ≡ false → n ≢ pos 1)
pred_zero (pos zero) = ((λ e. absurd cc), λ _ e. absurd cc)
pred_zero (pos (suc n)) = (
  (λ e. let z : n ≡ 0 = ground arith in ap (λ k. pos (suc k)) z),
  λ f e. let z : n ≡ 0 = pos_one e in ground arith,
)
pred_zero (negsuc n) = ((λ e. absurd cc), λ _ e. absurd cc)

own_queue : (w : ℕ) (q : PrioQueue) (s : NrsPrio) → (set_queue w q s).queues w ≡ q
own_queue w q s = rw (==_refl w) refl

-- Where the chosen queue is not empty, `QuantumPrioDequeue` returns its oldest request, leaves the
-- other queue as it was, and takes one from the queue's quantum, below 0 as well. With the last of
-- its quantum the queue's turn ends; in every other case, one of a quantum of 0 or less included, the
-- same queue is served next.
pub quantum_prio_dequeue_lem :
    (s : NrsPrio) (ys : List ℕ) (y : ℕ)
    → IsSized (s.queues (chosen_queue s)).pq
    → waiting_in (chosen_queue s) s ≡ ys ++ y ∷ []
    → Ends (IsQuantum (chosen_queue s) ys y s) (quantum_prio_dequeue s)
unfolding quantum_prio_dequeue quantum_prio_loop take_quantum
quantum_prio_dequeue_lem s ys y v line =
    let w = chosen_queue s in
    let held = (empty_iff (s.queues w).pq v).1 ys y line in
    let self = ==_refl w in
    let taken = served w ys (record s { working = some w }) in
    let spent =
      set_queue w (record (taken.queues w) { quantum = pred (taken.queues w).quantum }) taken in
    let own : spent.queues w ≡ record (taken.queues w) { quantum = pred (taken.queues w).quantum } =
      own_queue w _ taken in
    let before : (taken.queues w).quantum ≡ (s.queues w).quantum =
      ap (λ q. q.quantum) (own_queue w _ (record s { working = some w })) in
    let waits : waiting_in w spent ≡ ys =
      ap (λ q. q.pq.queue) own
      ∙ ap (λ q. q.pq.queue) (own_queue w _ (record s { working = some w })) in
    let less : IsLess (s.queues w).quantum (spent.queues w).quantum =
      subst (IsLess (s.queues w).quantum) (sym (ap (λ q. q.quantum) own ∙ ap pred before))
        (pred-IsLess (s.queues w).quantum) in
    rw (held, get_message_lem w (record s { working = some w }) ys y line)
      (elim (Bool-cases (is_zero (pred (taken.queues w).quantum))) [
        | inl last ↦
            let turn =
              (pred_zero (s.queues w).quantum).0 (ap (λ n. is_zero (pred n)) (sym before) ∙ last) in
            rw last (
              ends (record {
                oldest = refl;
                waiting = waits;
                others = λ i apart. let f : (i == w) ≡ false = ground arith in rw f refl;
                quantum = less;
                ends_turn = λ _. (refl, refl);
                keeps_turn = λ other. absurd (other turn);
              }))
        | inr more ↦
            let stays =
              (pred_zero (s.queues w).quantum).1 (ap (λ n. is_zero (pred n)) (sym before) ∙ more) in
            rw more (
              ends (record {
                oldest = refl;
                waiting = waits;
                others = λ i apart. let f : (i == w) ≡ false = ground arith in rw f refl;
                quantum = less;
                ends_turn = λ one. absurd (stays one);
                keeps_turn = λ _. (refl, refl);
              }))
      ])
