-- ===== src/Interval.antt =====
-- lustre/intervaltree.cpp: the queries of the interval tree. A tree is its shape, with the fields
-- of a node as a record; `address` stands for the node's own address, which a caller turns into the
-- structure around it. A pointer to a parent is the list of the frames above a node.
pub mod Order
pub mod Search
pub mod Expand
pub mod Insert
pub mod Tests
use lustre_simulator.Base.{
  ℕ, zero, suc, ◌+◌, ◌-◌, ◌^◌, Bool, true, false, ◌&&◌, not, List, [], ◌∷◌, Option, none, some, ltb,
  leb, ◌==◌, if◌then◌else◌,
}
use lustre_simulator.Base.Run.{Run, ok, out_of_fuel, assert, ◌>>◌, ◌>>=◌}

-- `interval_node_extent`.
pub record Extent : Type 0 where
  pub start : ℕ
  pub end : ℕ

pub record IntervalNode : Type 0 where
  pub low : ℕ
  pub high : ℕ
  pub max_high : ℕ
  pub address : ℕ
  pub red : Bool

pub data Tree : Type 0 where
  leaf : Tree
  node : IntervalNode → Tree → Tree → Tree

pub data IntervalIter : Type 0 where
  cont stop : IntervalIter

-- A parent, as seen from its left child, which has the other child still before it, or from its right.
pub data Frame : Type 0 where
  from_left : IntervalNode → Tree → Frame
  from_right : IntervalNode → Frame

unfoldable pub is_leaf : Tree → Bool
is_leaf leaf = true
is_leaf (node n l r) = false

abbrev pub overlapped : Extent → IntervalNode → Bool
overlapped e n = leb e.start n.high && leb n.low e.end

abbrev pub may_overlap : IntervalNode → Extent → Bool
may_overlap n e = leb e.start n.max_high && leb n.low e.end

pub extent_compare : Extent → IntervalNode → ℕ
extent_compare e n =
    if e.start == n.low
    then (if ltb e.end n.high then 0 else if ltb n.high e.end then 2 else 1)
    else (if ltb e.start n.low then 0 else 2)

-- The comparison's -1, 0 and 1 are 0, 1 and 2 here.
pub interval_find : Tree → Extent → Option IntervalNode
interval_find leaf e = none
interval_find (node n l r) e =
    let left = interval_find l e in
    let right = interval_find r e in
    let rc = extent_compare e n in if rc == 1 then some n else if rc == 0 then left else right

-- One round of the search's outer loop ends it, or moves to another node.
pub data Step (D : Type 0) : Type 0 where
  finished : IntervalIter → D → Step D
  moved : Tree → List Frame → D → Step D

module _ {D : Type 0} where
  pub climb : Extent → List Frame → D → Step D
  climb e [] d = finished IntervalIter.cont d
  climb e (from_right p ∷ up) d = climb e up d
  climb e (from_left p r ∷ up) d =
      let higher = climb e up d in
      if is_leaf r
      then higher
      else if may_overlap p e
      then moved r (from_right p ∷ up) d
      else finished IntervalIter.cont d

  pub descend : Extent → IntervalNode → Tree → Tree → List Frame → D → Step D
  descend e n l r path d =
      if not (is_leaf l)
      then moved l (from_left n r ∷ path) d
      else if not (is_leaf r)
      then moved r (from_right n ∷ path) d
      else climb e path d

  pub after_call : Extent → IntervalNode → Tree → Tree → List Frame → IntervalIter → D → Step D
  after_call e n l r path IntervalIter.stop d = finished IntervalIter.stop d
  after_call e n l r path IntervalIter.cont d = descend e n l r path d

  module _ (func : IntervalNode → D → IntervalIter × D) where
    pub visit : Extent → Tree → List Frame → D → Step D
    visit e leaf path d = finished IntervalIter.cont d
    visit e (node n l r) path d =
        if ltb e.end n.low
        then (if not (is_leaf l) then moved l (from_left n r ∷ path) d else climb e path d)
        else if may_overlap n e
        then (if overlapped e n
            then after_call e n l r path (func n d).0 (func n d).1
            else descend e n l r path d)
        else climb e path d

    pub search_loop : ℕ → Extent → Tree → List Frame → D → Run (IntervalIter × D)
    search_loop zero e t path d = out_of_fuel
    search_loop (suc fuel) e t path d = elim (visit e t path d) [
      | finished rc d' ↦ ok (rc, d')
      | moved t' path' d' ↦ search_loop fuel e t' path' d'
    ]

pub size : Tree → ℕ
size leaf = 0
size (node n l r) = suc (size l + size r)

-- A round for each node, and one more.
pub interval_search :
    {D : Type 0}
    → (IntervalNode → D → IntervalIter × D)
    → Tree
    → Extent
    → D
    → Run (IntervalIter × D)
interval_search func root e d = search_loop func (suc (size root)) e root [] d

abbrev pub interval_overlap_cb : IntervalNode → Bool → IntervalIter × Bool
interval_overlap_cb n has = (IntervalIter.stop, true)

pub interval_is_overlapped : Tree → Extent → Run Bool
interval_is_overlapped root e = do
  (rc, has) ← interval_search interval_overlap_cb root e false
  ok has

pub interval_expand_low : Tree → ℕ → ℕ
interval_expand_low root low = if is_leaf root then 0 else low

pub expand_high : Tree → ℕ → ℕ → ℕ
expand_high leaf high result = result
expand_high (node n l r) high result =
    let nearer = expand_high l high (n.low - 1) in
    let farther = expand_high r high result in
    if ltb n.max_high high then result else if ltb high n.low then nearer else farther

pub interval_expand_high : Tree → ℕ → ℕ
interval_expand_high root high = expand_high root high (2 ^ 64 - 1)

-- The extent that is grown; a caller has a limiter in every use.
pub interval_expand : Tree → Extent → Extent → Run Extent
interval_expand root e limiter = do
  free ← interval_is_overlapped root e
  assert (not free)
  let low = if ltb limiter.start e.start then interval_expand_low root e.start else e.start
  let high = if ltb e.end limiter.end then interval_expand_high root e.end else e.end
  let grown : Extent = record { start = low; end = high }
  still ← interval_is_overlapped root grown
  assert (not still)
  ok grown
