-- ===== src/Nrs/Fifo/Size.antt =====
-- The size of the first-come-first-served queue, which `Scheduler::Empty` reads.
use lustre_simulator.Base.{
  ℕ, ◌+◌, ◌-◌, ◌%◌, ◌^◌, ◌<◌, ◌≡◌, ◌≢◌, refl, ap, ◌∙◌, true, false, Option, none, some, List, [],
  ◌∷◌, ◌++◌, ◌==◌, if◌then◌else◌, length, length-append, arith,
}
use lustre_simulator.Base.Words.{u64, sub_u64, u64_id, sub_u64_lem}
use lustre_simulator.Nrs.Fifo.{
  NrsFifo, split_back, list_remove, enqueue, requeue, erase, dequeue, empty, last,
}
use lustre_simulator.Nrs.Fifo.Order.{IsSplit, serve_back, split_back-IsSplit}

abbrev pub IsSized : NrsFifo → Type 0
IsSized q = (q.size ≡ length q.queue) × (length q.queue < 2 ^ 64)

abbrev pub occurrences : ℕ → List ℕ → ℕ
occurrences e [] = 0
occurrences e (x ∷ xs) = if x == e then occurrences e xs + 1 else occurrences e xs

length-list_remove :
    (e : ℕ) (xs : List ℕ) → length (list_remove e xs) + occurrences e xs ≡ length xs
length-list_remove e [] = refl
length-list_remove e (x ∷ xs) = ground (arith, length-list_remove e xs)

list_remove_absent : (e : ℕ) (xs : List ℕ) → occurrences e xs ≡ 0 → list_remove e xs ≡ xs
list_remove_absent e [] h = refl
list_remove_absent e (x ∷ xs) h = ground (arith, list_remove_absent e xs)

-- What `Dequeue` returns and leaves.
abbrev pub IsServed : NrsFifo → Option ℕ × NrsFifo → Type 0
IsServed q (got, q') =
    IsSized q' × (empty q ≡ true → got ≡ none) × (empty q ≡ false → (e : ℕ) × (got ≡ some e))

module _ (q : NrsFifo) (v : IsSized q) where
  -- With room for one more, `Enqueue` and `Requeue` keep the size equal to the length of the list
  -- and add one to it.
  pub enqueue-IsSized :
      (e : ℕ)
      → length q.queue + 1 < 2 ^ 64
      → IsSized (enqueue e q)
        × IsSized (requeue e q)
        × ((enqueue e q).size ≡ q.size + 1)
        × ((requeue e q).size ≡ q.size + 1)
  unfolding enqueue requeue
  enqueue-IsSized e room =
      let same : u64 (q.size + 1) ≡ q.size + 1 = u64_id (q.size + 1) (omega (arith, v)) in
      let more = length-append q.queue (e ∷ []) in (omega arith, omega arith, same, same)

  serve_back-IsServed : (o : Option (List ℕ × ℕ)) → IsSplit q.queue o → IsServed q (serve_back q o)
  unfolding empty
  serve_back-IsServed none e =
      let none_left : length q.queue ≡ 0 = ap (λ (t : List ℕ). length t) e in
      (v, (λ _. refl), λ f. absurd (ground arith))
  serve_back-IsServed (some (ys, y)) e =
      let more : length q.queue ≡ length ys + 1 =
        ap (λ (t : List ℕ). length t) e ∙ length-append ys (y ∷ []) in
      (
        (sub_u64_lem q.size 1 (omega arith) (omega arith) ∙ omega arith, omega arith),
        (λ t. absurd (ground arith)),
        λ _. (y, refl),
      )

  -- `Dequeue` keeps the size equal to the length of the list, and finds a request exactly where
  -- `Empty` says that there is one.
  pub dequeue-IsServed : IsServed q (dequeue q)
  unfolding dequeue
  dequeue-IsServed = serve_back-IsServed (split_back q.queue) (split_back-IsSplit q.queue)

  -- `Erase` keeps the size equal to the length of the list where the request is queued exactly once;
  -- where it is not queued, the list stays and the size is one less, 2 ^ 64 - 1 for an empty list.
  pub erase-IsSized :
      (e : ℕ)
      → (occurrences e q.queue ≡ 1 → IsSized (erase e q))
        × (occurrences e q.queue ≡ 0
            → ((erase e q).queue ≡ q.queue)
              × ((erase e q).size ≡ (length q.queue + 2 ^ 64 - 1) % 2 ^ 64))
  unfolding erase sub_u64 u64
  erase-IsSized e =
      let split = length-list_remove e q.queue in
      (
        (λ once. (
          sub_u64_lem q.size 1 (omega (arith, split)) (omega arith) ∙ omega (arith, split),
          omega (arith, split),
        )),
        λ absent. (list_remove_absent e q.queue absent, omega (arith, v)),
      )

pub empty_iff :
    (q : NrsFifo)
    → IsSized q
    → (q.queue ≡ [] → empty q ≡ true)
      × ((ys : List ℕ) (y : ℕ) → q.queue ≡ ys ++ y ∷ [] → empty q ≡ false)
unfolding empty
empty_iff q v = (
  (λ e. let none_left : length q.queue ≡ 0 = ap (λ (t : List ℕ). length t) e in ground arith),
  λ ys y e.
      let more : length q.queue ≡ length ys + 1 =
        ap (λ (t : List ℕ). length t) e ∙ length-append ys (y ∷ []) in
      ground arith,
)

pub last_lem :
    (q : NrsFifo)
    → IsSized q
    → empty q ≡ false
    → (e : ℕ) × (rest : List ℕ) × (q.queue ≡ e ∷ rest) × (last q ≡ some e)
unfolding empty last
last_lem q v some_left = front q.queue (ground arith)
  where
    front :
        (xs : List ℕ)
        → length xs ≢ 0
        → (e : ℕ) × (rest : List ℕ) × (xs ≡ e ∷ rest)
          × ((elim xs [ [] ↦ none | e ∷ rest ↦ some e ]) ≡ some e)
    front [] n = absurd (n refl)
    front (x ∷ xs) n = (x, xs, refl, refl)

pub empty-queue : (q : NrsFifo) → IsSized q → empty q ≡ true → q.queue ≡ []
unfolding empty
empty-queue q v e = none_left q.queue (ground arith)
  where
    none_left : (xs : List ℕ) → length xs ≡ 0 → xs ≡ []
    none_left [] z = refl
    none_left (x ∷ xs) z = absurd (omega arith)
