-- ===== src/Elevator/Dispatch/Given.antt =====
-- Which request the disk is given.
use mathlib.Core.Path.{subst}
use lustre_simulator.Base.{
  inl, inr, ℕ, ◌+◌, ◌≡◌, refl, sym, ap, ◌∙◌, ◌==◌, if◌then◌else◌, true, false, Option, none, some,
  List, [], ◌∷◌, Bool-cases, arith,
}
use lustre_simulator.Base.Run.{ok, Ends, ends}
use lustre_simulator.Base.Words.{u64, sub_u64}
use lustre_simulator.Elevator.{no_ioreq, Elevator, elv_rqhash_del, on_hash, without}
use lustre_simulator.Elevator.Dispatch.{
  elv_dispatch_sort, dispatch_one, elv_next_request, is_boundary, take_request, dequeue,
}
use lustre_simulator.Elevator.Lists.{IsElevator, IsFilled, set-batch, without_member}
use lustre_simulator.Elevator.Tally.{SameKinds, set-cmd}
use lustre_simulator.Elevator.Bytes.{on_hash-without}

-- What is left when the request `r`, the first of the policy's list, has been given to the disk.
abbrev pub IsGiven : ℕ → List ℕ → Elevator → Option ℕ × Elevator → Type 0
IsGiven r rest s (got, s') =
    (got ≡ some r)
    × (s'.queue ≡ rest)
    × (s'.dispatch ≡ [])
    × (on_hash r s'.hash ≡ false)
    × (s'.last ≡ none)
    × (s'.inflight ≡ u64 (s.inflight + 1))
    × (s'.counts ≡ s.counts)
    × SameKinds s s'
    × IsElevator s'

take_lem :
    (r : ℕ) (rest : List ℕ) (s t : Elevator)
    → t.queue ≡ rest
    → t.dispatch ≡ []
    → on_hash r t.hash ≡ false
    → t.last ≡ none
    → t.inflight ≡ s.inflight
    → t.counts ≡ s.counts
    → t.requests ≡ s.requests
    → IsElevator t
    → IsGiven r rest s (some r, take_request r t)
unfolding take_request
take_lem r rest s t queue dispatch hash last inflight counts requests w =
    let kinds : (x : ℕ)
        → (if x == r then (record (t.requests r) { stops = true }) else t.requests x).cmd
          ≡ (s.requests x).cmd =
      λ x.
        set-cmd t.requests r (record (t.requests r) { stops = true }) refl x
        ∙ ap (λ f. (f x).cmd) requests in
    let more : u64 (t.inflight + 1) ≡ u64 (s.inflight + 1) = ap (λ (n : ℕ). u64 (n + 1)) inflight in
    let filled : IsFilled
        (λ x. if x == r then (record (t.requests r) { stops = true }) else t.requests x) t.queue =
      λ x here.
        ap no_ioreq (set-batch t.requests r (record (t.requests r) { stops = true }) refl x)
        ∙ w.filled x here in
    elim (Bool-cases (is_boundary t.boundary r)) [
      | inl y ↦ rw y (
        refl,
        queue,
        dispatch,
        hash,
        last,
        more,
        counts,
        kinds,
        record { distinct = w.distinct; last = w.last; hashed = w.hashed; filled = filled },
      )
      | inr n ↦ rw n (
        refl,
        queue,
        dispatch,
        hash,
        last,
        more,
        counts,
        kinds,
        record { distinct = w.distinct; last = w.last; hashed = w.hashed; filled = filled },
      )
    ]

-- The first request leaves the list and the table.
first_gone-IsElevator :
    (r : ℕ) (rest : List ℕ) (s : Elevator)
    → IsElevator (record s { dispatch = []; queue = r ∷ rest })
    → IsElevator (record s {
      dispatch = [];
      queue = rest;
      last = none;
      hash = without r s.hash;
      sorted = sub_u64 s.sorted 1;
    })
first_gone-IsElevator r rest s v = record {
  distinct = v.distinct.1;
  last = λ l e. absurd cc;
  hashed = λ x here. left x here;
  filled = λ x here. v.filled x (ground arith);
}
  where
    left : (x : ℕ) → on_hash x (without r s.hash) ≡ true → on_hash x rest ≡ true
    left x here = elim (Bool-cases (r == x)) [
      | inl same ↦
          let e : r ≡ x = ground arith in
          let out : on_hash x (without r s.hash) ≡ false =
            ap (λ (i : ℕ). on_hash i (without r s.hash)) (sym e) ∙ on_hash-without r s.hash in
          absurd cc
      | inr other ↦
          let before : on_hash x (r ∷ rest) ≡ true = v.hashed x (without_member r x s.hash here) in
          ground arith
    ]

-- The same with both lists written out.
given_lem :
    (r : ℕ) (rest : List ℕ) (s : Elevator)
    → IsElevator (record s { dispatch = []; queue = r ∷ rest })
    → Ends
        (IsGiven r rest (record s { dispatch = []; queue = r ∷ rest }))
        (dequeue (record s { dispatch = []; queue = r ∷ rest }))
unfolding dequeue elv_next_request dispatch_one elv_dispatch_sort elv_rqhash_del
given_lem r rest s v = ends (
    take_lem r rest (record s { dispatch = []; queue = r ∷ rest })
      (record s {
        dispatch = [];
        queue = rest;
        last = none;
        hash = without r s.hash;
        sorted = sub_u64 s.sorted 1;
      })
      refl refl (on_hash-without r s.hash) refl refl refl refl (first_gone-IsElevator r rest s v))

nothing_lem :
    (s : Elevator)
    → dequeue (record s { dispatch = []; queue = [] })
      ≡ ok (none, record s { dispatch = []; queue = [] })
unfolding dequeue elv_next_request dispatch_one
nothing_lem s = refl

written_out :
    (s : Elevator) (d q : List ℕ)
    → s.dispatch ≡ d
    → s.queue ≡ q
    → record s { dispatch = d; queue = q } ≡ s
written_out s d q e f =
    ap (λ (l : List ℕ). record s { dispatch = l; queue = q }) (sym e)
    ∙ ap (λ (l : List ℕ). record s { queue = l }) (sym f)

-- With nothing in the elevator's own list, the disk is given the requests in the order of the
-- policy's list, one for each call, and nothing when that is empty; a request that it is given is
-- hashed no more, no request is the one merged last, one more is in flight, the counts and the
-- requests' kinds stay, and the lists, which were in order, stay in order.
pub dequeue_lem :
    (s : Elevator)
    → s.dispatch ≡ []
    → IsElevator s
    → (s.queue ≡ [] → dequeue s ≡ ok (none, s))
      × ((r : ℕ) (rest : List ℕ) → s.queue ≡ r ∷ rest → Ends (IsGiven r rest s) (dequeue s))
dequeue_lem s idle v = (
  (λ none_left.
      subst (λ (t : Elevator). dequeue t ≡ ok (none, t)) (written_out s [] [] idle none_left)
        (nothing_lem s)),
  λ r rest line.
      subst (λ (t : Elevator). Ends (IsGiven r rest t) (dequeue t))
        (written_out s [] (r ∷ rest) idle line)
        (given_lem r rest s (subst IsElevator (sym (written_out s [] (r ∷ rest) idle line)) v)),
)
