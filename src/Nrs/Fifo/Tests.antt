-- ===== src/Nrs/Fifo/Tests.antt =====
-- Runs of the first-come-first-served queue, and its theorems at a queue of three requests.
use lustre_simulator.Base.{◌+◌, ◌-◌, ◌%◌, ◌^◌, ◌≡◌, refl, none, some, [], ◌∷◌, arith}
use lustre_simulator.Nrs.Fifo.{NrsFifo, enqueue, erase, dequeue, first, last}
use lustre_simulator.Nrs.Fifo.Order.{
  enqueues, requeues, erases, dequeues, outputs, waiting_outputs, waiting, outputs_lem,
}
use lustre_simulator.Nrs.Fifo.Size.{IsSized, occurrences, erase-IsSized}

abbrev three : NrsFifo
three = record { size = 3; queue = 9 ∷ 4 ∷ 7 ∷ [] }

three-IsSized : IsSized three
three-IsSized = (refl, omega arith)

serves_oldest :
    outputs (dequeues ∷ dequeues ∷ enqueues 5 ∷ dequeues ∷ dequeues ∷ dequeues ∷ []) three
    ≡ some 7 ∷ some 4 ∷ none ∷ some 9 ∷ some 5 ∷ none ∷ []
unfolding enqueue dequeue
serves_oldest = refl

both_ends : (first three ≡ some 7) × (last three ≡ some 9)
unfolding first last
both_ends = (refl, refl)

outputs_lem_example :
    outputs (dequeues ∷ requeues 7 ∷ erases 4 ∷ dequeues ∷ dequeues ∷ []) three
    ≡ waiting_outputs (dequeues ∷ requeues 7 ∷ erases 4 ∷ dequeues ∷ dequeues ∷ []) (waiting three)
outputs_lem_example =
    outputs_lem (dequeues ∷ requeues 7 ∷ erases 4 ∷ dequeues ∷ dequeues ∷ []) three

erase-IsSized_example :
    (occurrences 4 three.queue ≡ 1 → IsSized (erase 4 three))
    × (occurrences 4 three.queue ≡ 0
        → ((erase 4 three).queue ≡ three.queue)
          × ((erase 4 three).size ≡ (3 + 2 ^ 64 - 1) % 2 ^ 64))
erase-IsSized_example = erase-IsSized three three-IsSized 4
