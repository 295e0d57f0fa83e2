-- ===== src/Interval/Search.antt =====
-- lustre/intervaltree.cpp: the later without recursion meets the recursive algorithm in the
-- comment above it.
use mathlib.Core.List.{append_assoc, append-nil}
use lustre_simulator.Base.{
  ℕ, zero, suc, ◌+◌, ◌≤◌, ◌<◌, ◌≡◌, refl, sym, ap, ◌∙◌, true, false, List, [], ◌∷◌, ◌++◌, ltb,
  arith, inl, inr, Bool-cases, ◌⊎◌,
}
use lustre_simulator.Base.Run.{ok}
use lustre_simulator.Interval.{
  Extent, IntervalNode, IntervalIter, Tree, leaf, node, Frame, from_left, from_right, Step,
  finished, moved, is_leaf, overlapped, may_overlap, climb, descend, after_call, visit, search_loop,
  size, interval_search,
}
use lustre_simulator.Interval.Order.{IsTree, found, call_each, found-past, found-before}

-- What is still to be reported when the later leaves a subtree.
abbrev rest : Extent → List Frame → List IntervalNode
rest e [] = []
rest e (from_left p r ∷ up) = found e r ++ rest e up
rest e (from_right p ∷ up) = rest e up

-- The nodes that may still be visited from above.
abbrev weight : List Frame → ℕ
weight [] = 0
weight (from_left p r ∷ up) = size r + weight up
weight (from_right p ∷ up) = weight up

-- All that the frames have still before them starts at `hi` or later, and the later may end at a
-- parent that cannot overlap.
abbrev IsPath : Extent → ℕ → List Frame → Type 0
IsPath e hi [] = Unit {0}
IsPath e hi (from_left p r ∷ up) =
    (top : ℕ) × (hi ≤ p.low)
    × (p.low ≤ top)
    × IsTree p.low top r
    × (may_overlap p e ≡ false → found e r ++ rest e up ≡ [])
    × IsPath e top up
IsPath e hi (from_right p ∷ up) = IsPath e hi up

rest-before :
    (e : Extent) (hi : ℕ) (path : List Frame) → IsPath e hi path → e.end < hi → rest e path ≡ []
rest-before e hi [] good before = refl
rest-before e hi (from_right p ∷ up) good before = rest-before e hi up good before
rest-before e hi (from_left p r ∷ up) (top, a, b, t, skip, good) before =
    rw (found-before e p.low top r t (omega arith), rest-before e top up good (omega arith))

IntervalIter-cases : (rc : IntervalIter) → (rc ≡ IntervalIter.stop) ⊎ (rc ≡ IntervalIter.cont)
IntervalIter-cases IntervalIter.stop = inl refl
IntervalIter-cases IntervalIter.cont = inr refl

before-overlapped :
    (e : Extent) (n : IntervalNode)
    → ltb e.end n.low ≡ true
    → (e.end < n.low) × (overlapped e n ≡ false)
before-overlapped e n h = ground arith

-- A leaf has nothing to report.
pub found-leaf : (e : Extent) (t : Tree) → is_leaf t ≡ true → found e t ≡ []
unfolding is_leaf found
found-leaf e leaf h = refl
found-leaf e (node n l r) h = cc

module _ {D : Type 0} (func : IntervalNode → D → IntervalIter × D) (e : Extent) where
  -- A step of the later leads to the calls that are due, with the given rounds left.
  abbrev Leads : ℕ → Step D → List IntervalNode → D → Type 0
  Leads fuel (finished rc d') ns d = (rc, d') ≡ call_each func ns d
  Leads fuel (moved t path d') ns d = search_loop func fuel e t path d' ≡ ok (call_each func ns d)

  -- What the later does from each of its states, with so many rounds.
  abbrev Searches : ℕ → Type 0
  Searches fuel =
      (lo hi : ℕ) (t : Tree) (path : List Frame) (d : D)
      → IsTree lo hi t
      → IsPath e hi path
      → lo ≤ hi
      → is_leaf t ≡ false
      → size t + weight path < fuel
      → search_loop func fuel e t path d ≡ ok (call_each func (found e t ++ rest e path) d)

  climb_lem :
      (fuel hi : ℕ) (path : List Frame) (d : D)
      → Searches fuel
      → IsPath e hi path
      → weight path < fuel
      → Leads fuel (climb e path d) (rest e path) d
  unfolding climb call_each
  climb_lem fuel hi [] d later good enough = refl
  climb_lem fuel hi (from_right p ∷ up) d later good enough =
      climb_lem fuel hi up d later good enough
  climb_lem fuel hi (from_left p r ∷ up) d later (top, a, b, t, skip, good) enough =
      elim (Bool-cases (is_leaf r)) [
        | inl none_left ↦
            rw (none_left, found-leaf e r none_left)
              (climb_lem fuel top up d later good (omega arith))
        | inr some_left ↦ elim (Bool-cases (may_overlap p e)) [
          | inl may ↦
              rw (some_left, may)
                (later p.low top r (from_right p ∷ up) d t good b some_left enough)
          | inr cannot ↦ rw (some_left, cannot, skip cannot) refl
        ]
      ]

  descend_lem :
      (fuel lo hi : ℕ) (n : IntervalNode) (l r : Tree) (path : List Frame) (d : D)
      → Searches fuel
      → IsTree lo hi (node n l r)
      → IsPath e hi path
      → size l + size r + weight path < fuel
      → may_overlap n e ≡ true
      → Leads fuel (descend e n l r path d) (found e l ++ (found e r ++ rest e path)) d
  unfolding descend
  descend_lem fuel lo hi n l r path d later (a, b, c, m, x, y) good enough may =
      elim (Bool-cases (is_leaf l)) [
        | inr left ↦ rw left (
            later lo n.low l (from_left n r ∷ path) d x (hi, omega arith, b, y, λ cannot. cc, good)
              a left (omega arith))
        | inl no_left ↦ elim (Bool-cases (is_leaf r)) [
          | inr right ↦
              rw (no_left, right, found-leaf e l no_left)
                (later n.low hi r (from_right n ∷ path) d y good b right (omega arith))
          | inl no_right ↦
              rw (no_left, no_right, found-leaf e l no_left, found-leaf e r no_right)
                (climb_lem fuel hi path d later good (omega arith))
        ]
      ]

  Leads-loop :
      (fuel : ℕ) (t : Tree) (path : List Frame) (d : D) (ns : List IntervalNode) (step : Step D)
      → visit func e t path d ≡ step
      → Leads fuel step ns d
      → search_loop func (suc fuel) e t path d ≡ ok (call_each func ns d)
  unfolding search_loop
  Leads-loop fuel t path d ns (finished rc d') same leads = rw (same, search_loop) (ap ok leads)
  Leads-loop fuel t path d ns (moved t' path' d') same leads = rw (same, search_loop) leads

  before_lem :
      (fuel lo hi : ℕ) (n : IntervalNode) (l r : Tree) (path : List Frame) (d : D)
      → Searches fuel
      → IsTree lo hi (node n l r)
      → IsPath e hi path
      → size l + size r + weight path < fuel
      → ltb e.end n.low ≡ true
      → Leads fuel (visit func e (node n l r) path d) (found e (node n l r) ++ rest e path) d
  unfolding visit found
  before_lem fuel lo hi n l r path d later (a, b, c, m, x, y) good enough before =
      let (end, out) = before-overlapped e n before in
      let right = found-before e n.low hi r y end in
      let above = rest-before e hi path good (omega arith) in
      elim (Bool-cases (is_leaf l)) [
        | inr left ↦
            rw (before, left, out, append_assoc)
              (later lo n.low l (from_left n r ∷ path) d x
                (hi, omega arith, b, y, λ cannot. rw right above, good) a left (omega arith))
        | inl no_left ↦
            rw (before, no_left, out, found-leaf e l no_left, right)
              (climb_lem fuel hi path d later good (omega arith))
      ]

  call_each-stop :
      (n : IntervalNode) (ns : List IntervalNode) (d : D)
      → (func n d).0 ≡ IntervalIter.stop
      → (IntervalIter.stop, (func n d).1) ≡ call_each func (n ∷ ns) d
  unfolding call_each
  call_each-stop n ns d stops = ground (arith, stops)

  call_each-cont :
      (n : IntervalNode) (ns : List IntervalNode) (d : D)
      → (func n d).0 ≡ IntervalIter.cont
      → call_each func (n ∷ ns) d ≡ call_each func ns (func n d).1
  unfolding call_each
  call_each-cont n ns d goes_on = ground (arith, goes_on)

  Leads-call :
      (fuel : ℕ) (step : Step D) (ns ms : List IntervalNode) (d d' : D)
      → call_each func ns d ≡ call_each func ms d'
      → Leads fuel step ms d'
      → Leads fuel step ns d
  Leads-call fuel (finished rc x) ns ms d d' same leads = leads ∙ sym same
  Leads-call fuel (moved t path x) ns ms d d' same leads = leads ∙ ap ok (sym same)

  call_lem :
      (fuel lo hi : ℕ) (n : IntervalNode) (l r : Tree) (path : List Frame) (d : D)
      → Searches fuel
      → IsTree lo hi (node n l r)
      → IsPath e hi path
      → size l + size r + weight path < fuel
      → may_overlap n e ≡ true
      → Leads fuel
          (after_call e n l r path (func n d).0 (func n d).1)
          (n ∷ (found e l ++ (found e r ++ rest e path)))
          d
  unfolding after_call
  call_lem fuel lo hi n l r path d later t good enough may =
      elim (IntervalIter-cases (func n d).0) [
        | inl stops ↦
            let below = found e l ++ (found e r ++ rest e path) in
            rw stops (call_each-stop n below d stops)
        | inr goes_on ↦
            let below = found e l ++ (found e r ++ rest e path) in
            let d' = (func n d).1 in
            rw goes_on (
              Leads-call fuel (descend e n l r path d') (n ∷ below) below d d'
                (call_each-cont n below d goes_on)
                (descend_lem fuel lo hi n l r path d' later t good enough may))
      ]

  visit_lem :
      (fuel lo hi : ℕ) (t : Tree) (path : List Frame) (d : D)
      → Searches fuel
      → IsTree lo hi t
      → IsPath e hi path
      → is_leaf t ≡ false
      → size t + weight path < suc fuel
      → Leads fuel (visit func e t path d) (found e t ++ rest e path) d
  unfolding visit found size is_leaf
  visit_lem fuel lo hi leaf path d later t good some enough = cc
  visit_lem fuel lo hi (node n l r) path d later t good some enough =
      elim (Bool-cases (ltb e.end n.low)) [
        | inl before ↦ before_lem fuel lo hi n l r path d later t good (omega arith) before
        | inr not_before ↦ elim (Bool-cases (may_overlap n e)) [
          | inl may ↦ elim (Bool-cases (overlapped e n)) [
            | inl over ↦
                rw (not_before, may, over, append_assoc)
                  (call_lem fuel lo hi n l r path d later t good (omega arith) may)
            | inr out ↦
                rw (not_before, may, out, append_assoc)
                  (descend_lem fuel lo hi n l r path d later t good (omega arith) may)
          ]
          | inr cannot ↦
              rw (not_before, cannot, found-past e lo hi (node n l r) t (ground arith))
                (climb_lem fuel hi path d later good (omega arith))
        ]
      ]

  loop_lem : (fuel : ℕ) → Searches fuel
  loop_lem zero lo hi t path d ordered good order some enough = elim enough [ ]
  loop_lem (suc fuel) lo hi t path d ordered good order some enough =
      Leads-loop fuel t path d (found e t ++ rest e path) (visit func e t path d) refl
        (visit_lem fuel lo hi t path d (loop_lem fuel) ordered good some enough)

  -- In an ordered tree the search ends within its rounds, and calls the callback for just the
  -- intervals that overlap, each before those below it, until one of the calls stops it.
  pub interval_search_lem :
      (lo hi : ℕ) (t : Tree) (d : D)
      → lo ≤ hi
      → IsTree lo hi t
      → interval_search func t e d ≡ ok (call_each func (found e t) d)
  unfolding interval_search search_loop visit found is_leaf call_each
  interval_search_lem lo hi leaf d order ordered = refl
  interval_search_lem lo hi (node n l r) d order ordered =
      loop_lem (suc (size (node n l r))) lo hi (node n l r) [] d ordered tt order refl (omega arith)
      ∙ ap (λ ns. ok (call_each func ns d)) (append-nil (found e (node n l r)))
