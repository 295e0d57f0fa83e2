-- ===== src/Nrs/Fifo/Order.antt =====
-- The first in, first out order: the list's front is the newest request.
use lustre_simulator.Base.{
  ℕ, ◌≡◌, refl, sym, ap, ◌∙◌, ◌⊎◌, Option, none, some, List, [], ◌∷◌, ◌++◌, ◌==◌, Bool-cases, inl,
  inr, arith,
}
use lustre_simulator.Base.Words.{sub_u64}
use lustre_simulator.Nrs.Fifo.{
  NrsFifo, split_back, list_remove, enqueue, requeue, erase, dequeue, first,
}

-- What a scheduler is asked to do.
pub data Call : Type 0 where
  enqueues requeues erases : ℕ → Call
  dequeues : Call

abbrev pub apply : Call → NrsFifo → Option ℕ × NrsFifo
apply (enqueues e) q = (none, enqueue e q)
apply (requeues e) q = (none, requeue e q)
apply (erases e) q = (none, erase e q)
apply dequeues q = dequeue q

-- The abstract queue: the requests in the order in which they are to be served.
abbrev pub apply_to_waiting : Call → List ℕ → Option ℕ × List ℕ
apply_to_waiting (enqueues e) w = (none, w ++ e ∷ [])
apply_to_waiting (requeues e) w = (none, e ∷ w)
apply_to_waiting (erases e) w = (none, list_remove e w)
apply_to_waiting dequeues [] = (none, [])
apply_to_waiting dequeues (e ∷ w) = (some e, w)

-- What the calls return, one after the other.
abbrev pub outputs : List Call → NrsFifo → List (Option ℕ)
outputs [] q = []
outputs (c ∷ cs) q = (apply c q).0 ∷ outputs cs (apply c q).1

abbrev pub waiting_outputs : List Call → List ℕ → List (Option ℕ)
waiting_outputs [] w = []
waiting_outputs (c ∷ cs) w = (apply_to_waiting c w).0 ∷ waiting_outputs cs (apply_to_waiting c w).1

abbrev pub backwards : List ℕ → List ℕ
backwards [] = []
backwards (x ∷ xs) = backwards xs ++ x ∷ []

abbrev pub waiting : NrsFifo → List ℕ
waiting q = backwards q.queue

append_assoc : (xs ys zs : List ℕ) → (xs ++ ys) ++ zs ≡ xs ++ (ys ++ zs)
append_assoc [] ys zs = refl
append_assoc (x ∷ xs) ys zs = ap (λ (t : List ℕ). x ∷ t) (append_assoc xs ys zs)

backwards-append : (xs : List ℕ) (e : ℕ) → backwards (xs ++ e ∷ []) ≡ e ∷ backwards xs
backwards-append [] e = refl
backwards-append (x ∷ xs) e = ap (λ (t : List ℕ). t ++ x ∷ []) (backwards-append xs e)

list_remove-append :
    (e : ℕ) (xs ys : List ℕ) → list_remove e (xs ++ ys) ≡ list_remove e xs ++ list_remove e ys
list_remove-append e [] ys = refl
list_remove-append e (x ∷ xs) ys = ground (arith, list_remove-append e xs ys)

append_nil : (xs : List ℕ) → xs ++ [] ≡ xs
append_nil [] = refl
append_nil (x ∷ xs) = ap (λ (t : List ℕ). x ∷ t) (append_nil xs)

backwards-list_remove :
    (e : ℕ) (xs : List ℕ) → backwards (list_remove e xs) ≡ list_remove e (backwards xs)
backwards-list_remove e [] = refl
backwards-list_remove e (x ∷ xs) = elim (Bool-cases (x == e)) [
  | inl t ↦
      rw (list_remove-append e (backwards xs) (x ∷ []), t, backwards-list_remove e xs)
        (sym (append_nil _))
  | inr f ↦ rw (list_remove-append e (backwards xs) (x ∷ []), f, backwards-list_remove e xs) refl
]

-- A list seen from its back.
abbrev pub IsSplit : List ℕ → Option (List ℕ × ℕ) → Type 0
IsSplit xs none = xs ≡ []
IsSplit xs (some (ys, y)) = xs ≡ ys ++ y ∷ []

IsSplit-cons :
    (x : ℕ) (xs : List ℕ) (o : Option (List ℕ × ℕ))
    → IsSplit xs o
    → IsSplit (x ∷ xs) (elim o [ none ↦ some ([], x) | some (ys, y) ↦ some (x ∷ ys, y) ])
IsSplit-cons x xs none e = ap (λ (t : List ℕ). x ∷ t) e
IsSplit-cons x xs (some (ys, y)) e = ap (λ (t : List ℕ). x ∷ t) e

pub split_back-IsSplit : (xs : List ℕ) → IsSplit xs (split_back xs)
split_back-IsSplit [] = refl
split_back-IsSplit (x ∷ xs) = IsSplit-cons x xs (split_back xs) (split_back-IsSplit xs)

-- What `Dequeue` makes of a list seen from its back.
abbrev pub serve_back : NrsFifo → Option (List ℕ × ℕ) → Option ℕ × NrsFifo
serve_back q o = elim o [
  | none ↦ (none, q)
  | some (rest, e) ↦ (some e, record { size = sub_u64 q.size 1; queue = rest })
]

serve_back_lem :
    (q : NrsFifo) (o : Option (List ℕ × ℕ))
    → IsSplit q.queue o
    → ((serve_back q o).0 ≡ (apply_to_waiting dequeues (waiting q)).0)
      × (waiting (serve_back q o).1 ≡ (apply_to_waiting dequeues (waiting q)).1)
serve_back_lem q none e = rw e (refl, refl)
serve_back_lem q (some (ys, y)) e =
    let w : waiting q ≡ y ∷ backwards ys = ap backwards e ∙ backwards-append ys y in
    rw w (refl, refl)

-- One call does to the list what it does to the abstract queue.
apply_lem :
    (c : Call) (q : NrsFifo)
    → ((apply c q).0 ≡ (apply_to_waiting c (waiting q)).0)
      × (waiting (apply c q).1 ≡ (apply_to_waiting c (waiting q)).1)
unfolding enqueue requeue erase dequeue
apply_lem (enqueues e) q = (refl, refl)
apply_lem (requeues e) q = (refl, backwards-append q.queue e)
apply_lem (erases e) q = (refl, backwards-list_remove e q.queue)
apply_lem dequeues q = serve_back_lem q (split_back q.queue) (split_back-IsSplit q.queue)

-- Whatever is asked of the scheduler, in whatever order, it answers as the abstract queue does that
-- starts with the same requests: it serves first come, first served, and a request that is put back
-- is the next.
pub outputs_lem : (cs : List Call) (q : NrsFifo) → outputs cs q ≡ waiting_outputs cs (waiting q)
outputs_lem [] q = refl
outputs_lem (c ∷ cs) q =
    let (same, next) = apply_lem c q in rw (same, outputs_lem cs (apply c q).1, next) refl

split_back-append : (ys : List ℕ) (y : ℕ) → split_back (ys ++ y ∷ []) ≡ some (ys, y)
split_back-append [] y = refl
split_back-append (x ∷ ys) y = rw (split_back-append ys y) refl

-- What the operations that look at the back find there.
module _ (q : NrsFifo) (ys : List ℕ) (y : ℕ) (e : q.queue ≡ ys ++ y ∷ []) where
  back_lem : split_back q.queue ≡ some (ys, y)
  back_lem = ap split_back e ∙ split_back-append ys y

  pub dequeue_back : dequeue q ≡ (some y, record { size = sub_u64 q.size 1; queue = ys })
  unfolding dequeue
  dequeue_back = rw (back_lem, dequeue) refl

  pub first_back : first q ≡ some y
  unfolding first
  first_back = rw (back_lem, first) refl

pub first_none : (q : NrsFifo) → q.queue ≡ [] → first q ≡ none
unfolding first
first_none q e =
    ap (λ (xs : List ℕ). elim (split_back xs) [ none ↦ none | some (rest, y) ↦ some y ]) e

pub enqueue_queue : (e : ℕ) (q : NrsFifo) → (enqueue e q).queue ≡ e ∷ q.queue
unfolding enqueue
enqueue_queue e q = refl

pub back_cases : (xs : List ℕ) → (xs ≡ []) ⊎ ((ys : List ℕ) × (y : ℕ) × (xs ≡ ys ++ y ∷ []))
back_cases xs = views (split_back xs) (split_back-IsSplit xs)
  where
    views :
        (o : Option (List ℕ × ℕ))
        → IsSplit xs o
        → (xs ≡ []) ⊎ ((ys : List ℕ) × (y : ℕ) × (xs ≡ ys ++ y ∷ []))
    views none e = inl e
    views (some (ys, y)) e = inr (ys, y, e)

pub dequeue_none : (q : NrsFifo) → q.queue ≡ [] → dequeue q ≡ (none, q)
unfolding dequeue
dequeue_none q e = ap (λ (xs : List ℕ). serve_back q (split_back xs)) e
