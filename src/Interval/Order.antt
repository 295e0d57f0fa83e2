-- ===== src/Interval/Order.antt =====
-- The order of an interval tree, and what its searches report: the reference definitions.
use lustre_simulator.Base.{
  ℕ, ◌≤◌, ◌<◌, ◌≡◌, refl, false, List, [], ◌∷◌, ◌++◌, ltb, if◌then◌else◌, arith, inl, inr,
  Bool-cases,
}
use lustre_simulator.Interval.{Extent, IntervalNode, IntervalIter, Tree, leaf, node, overlapped}

abbrev pub max_u64 : ℕ → ℕ → ℕ
max_u64 x y = if ltb y x then x else y

abbrev pub tree_max : Tree → ℕ
tree_max leaf = 0
tree_max (node n l r) = n.max_high

-- The starts are in order and between two bounds, and `max_high` is the greatest end below a node.
abbrev pub IsTree : ℕ → ℕ → Tree → Type 0
IsTree lo hi leaf = Unit {0}
IsTree lo hi (node n l r) =
    (lo ≤ n.low)
    × (n.low ≤ hi)
    × (n.low ≤ n.high)
    × (n.max_high ≡ max_u64 n.high (max_u64 (tree_max l) (tree_max r)))
    × IsTree lo n.low l
    × IsTree n.low hi r

-- The intervals that overlap an extent, each before those below it.
unfoldable pub found : Extent → Tree → List IntervalNode
found e leaf = []
found e (node n l r) =
    let below = found e l ++ found e r in if overlapped e n then n ∷ below else below

-- A callback is called for each, until it stops.
unfoldable pub call_each :
    {D : Type 0} → (IntervalNode → D → IntervalIter × D) → List IntervalNode → D → IntervalIter × D
call_each func [] d = (IntervalIter.cont, d)
call_each func (n ∷ ns) d = elim (func n d).0 [
  | IntervalIter.stop ↦ (IntervalIter.stop, (func n d).1)
  | IntervalIter.cont ↦ call_each func ns (func n d).1
]

pub max_bounds : (a b c : ℕ) {m : ℕ} → m ≡ max_u64 a (max_u64 b c) → (a ≤ m) × (b ≤ m) × (c ≤ m)
max_bounds a b c h = ground arith

pub found-node :
    (e : Extent) (n : IntervalNode) (l r : Tree)
    → overlapped e n ≡ false
    → found e l ≡ []
    → found e r ≡ []
    → found e (node n l r) ≡ []
unfolding found
found-node e n l r out x y = rw (out, x) y

-- Nothing overlaps an extent that starts after the greatest end, or ends before every start.
pub found-past :
    (e : Extent) (lo hi : ℕ) (t : Tree) → IsTree lo hi t → tree_max t < e.start → found e t ≡ []
unfolding found
found-past e lo hi leaf ordered past = refl
found-past e lo hi (node n l r) (a, b, c, m, x, y) past =
    let (own, left, right) = max_bounds n.high (tree_max l) (tree_max r) m in
    found-node e n l r (ground arith) (found-past e lo n.low l x (omega arith))
      (found-past e n.low hi r y (omega arith))

pub found-before :
    (e : Extent) (lo hi : ℕ) (t : Tree) → IsTree lo hi t → e.end < lo → found e t ≡ []
unfolding found
found-before e lo hi leaf ordered before = refl
found-before e lo hi (node n l r) (a, b, c, m, x, y) before =
    found-node e n l r (ground arith) (found-before e lo n.low l x before)
      (found-before e n.low hi r y (omega arith))

nothing_in : (x y : List IntervalNode) → x ++ y ≡ [] → (x ≡ []) × (y ≡ [])
nothing_in [] y none_there = (refl, none_there)
nothing_in (n ∷ x) y none_there = cc

cons_nil :
    {P : Type 0} {n : IntervalNode} {ns : List IntervalNode}
    → ◌≡◌ {A = List IntervalNode} (n ∷ ns) []
    → P
cons_nil h = cc

pub found-nothing :
    (e : Extent) (n : IntervalNode) (l r : Tree)
    → found e (node n l r) ≡ []
    → (overlapped e n ≡ false) × (found e l ≡ []) × (found e r ≡ [])
unfolding found
found-nothing e n l r nothing = elim (Bool-cases (overlapped e n)) [
  | inl over ↦ (cons_nil (rw over at nothing))
  | inr out ↦ let (x, y) = nothing_in (found e l) (found e r) (rw out at nothing) in (out, x, y)
]

outside_still :
    (outer inner : Extent) (n : IntervalNode)
    → outer.start ≤ inner.start
    → inner.end ≤ outer.end
    → overlapped outer n ≡ false
    → overlapped inner n ≡ false
outside_still outer inner n a b out = ground arith

-- What is free stays free in a part of it.
pub found-inside :
    (outer inner : Extent) (t : Tree)
    → outer.start ≤ inner.start
    → inner.end ≤ outer.end
    → found outer t ≡ []
    → found inner t ≡ []
unfolding found
found-inside outer inner leaf a b free = refl
found-inside outer inner (node n l r) a b free =
    let (out, x, y) = found-nothing outer n l r free in
    found-node inner n l r (outside_still outer inner n a b out) (found-inside outer inner l a b x)
      (found-inside outer inner r a b y)
