-- ===== src/Interval/Insert.antt =====
-- lustre/intervaltree.cpp: `interval_insert`, with the rotations that keep the tree balanced.
pub mod Context
mod Color
pub mod Stored
use lustre_simulator.Base.{
  ℕ, zero, suc, ◌+◌, ◌<◌, Bool, true, false, ◌&&◌, not, List, [], ◌∷◌, Option, none, some, ltb,
  ◌==◌, if◌then◌else◌,
}
use lustre_simulator.Base.Run.{Run, ok, fault, ◌>>=◌}
use lustre_simulator.Interval.{Extent, IntervalNode, Tree, leaf, node, extent_compare}
use lustre_simulator.Interval.Order.{max_u64, tree_max}

-- A parent and its other child, seen from the left child or from the right.
pub data Zip : Type 0 where
  left_of right_of : IntervalNode → Tree → Zip

abbrev pub as_child : Zip → Tree → Tree
as_child (left_of p s) t = node p t s
as_child (right_of p s) t = node p s t

abbrev pub rebuild : Tree → List Zip → Tree
rebuild t [] = t
rebuild t (f ∷ up) = rebuild (as_child f t) up

abbrev pub with_color : Bool → Tree → Tree
with_color red leaf = leaf
with_color red (node n l r) = node (record n { red = red }) l r

abbrev pub is_red : Tree → Bool
is_red leaf = false
is_red (node n l r) = n.red

abbrev pub parent_of : Zip → IntervalNode
parent_of (left_of p s) = p
parent_of (right_of p s) = p

abbrev pub new_max : IntervalNode → Tree → Tree → ℕ
new_max n l r = max_u64 n.high (max_u64 (tree_max l) (tree_max r))

-- A rotation follows the pointer to the child that it lifts.
pub rotate_left : Tree → Run Tree
rotate_left (node x a (node y b c)) =
    ok (
      node (record y { max_high = x.max_high }) (node (record x { max_high = new_max x a b }) a b)
        c)
rotate_left t = fault

pub rotate_right : Tree → Run Tree
rotate_right (node x (node y b c) d) =
    ok (
      node (record y { max_high = x.max_high }) b
        (node (record x { max_high = new_max x c d }) c d))
rotate_right t = fault

-- The parent is red and its sibling is not: the tree that takes the grandparent's place.
pub lift : Zip → Zip → Tree → Run Tree
lift (left_of p s) (left_of g uncle) t =
    rotate_right (node (record g { red = true }) (with_color false (node p t s)) uncle)
lift (right_of p s) (left_of g uncle) t = do
  top ← rotate_left (node p s t)
  rotate_right (node (record g { red = true }) (with_color false top) uncle)
lift (right_of p s) (right_of g uncle) t =
    rotate_left (node (record g { red = true }) uncle (with_color false (node p s t)))
lift (left_of p s) (right_of g uncle) t = do
  top ← rotate_right (node p t s)
  rotate_left (node (record g { red = true }) uncle (with_color false top))

abbrev pub uncle_of : Zip → Tree
uncle_of (left_of g u) = u
uncle_of (right_of g u) = u

-- The parent and its sibling are red: both become black, and the grandparent red.
abbrev pub recolor : Zip → Zip → Tree → Tree
recolor f (left_of g u) t =
    node (record g { red = true }) (with_color false (as_child f t)) (with_color false u)
recolor f (right_of g u) t =
    node (record g { red = true }) (with_color false u) (with_color false (as_child f t))

pub interval_insert_color : Tree → List Zip → Run Tree
interval_insert_color t [] = ok (with_color false t)
interval_insert_color t (f ∷ []) =
    if (parent_of f).red then fault else ok (with_color false (as_child f t))
interval_insert_color t (f ∷ g ∷ up) =
    let higher = interval_insert_color (recolor f g t) up in
    if not (parent_of f).red
    then ok (with_color false (rebuild t (f ∷ g ∷ up)))
    else if is_red (uncle_of g)
    then higher
    else (do top ← lift f g t; ok (with_color false (rebuild top up)))

-- The way down to an equal node, or to the place of a new one.
pub data Place : Type 0 where
  equal : IntervalNode → Tree → Place
  empty : List Zip → Place

pub raise_max_high : ℕ → IntervalNode → IntervalNode
raise_max_high high p = record p { max_high = if ltb p.max_high high then high else p.max_high }

abbrev pub extent_of : IntervalNode → Extent
extent_of n = record { start = n.low; end = n.high }

pub walk : IntervalNode → Tree → List Zip → Place
walk n leaf path = empty path
walk n (node p l r) path =
    let p' = raise_max_high n.high p in
    let left = walk n l (left_of p' r ∷ path) in
    let right = walk n r (right_of p' l ∷ path) in
    if p.low == n.low && p.high == n.high
    then equal p (rebuild (node p l r) path)
    else if extent_compare (extent_of n) p == 0
    then left
    else right

pub place : IntervalNode → Place → Run (Option IntervalNode × Tree)
place n (equal p t) = ok (some p, t)
place n (empty path) = do
  t ← interval_insert_color (node (record n { red = true }) leaf leaf) path
  ok (none, t)

-- The node with the same interval, if there is one, and the tree.
pub interval_insert : IntervalNode → Tree → Run (Option IntervalNode × Tree)
interval_insert n root = place n (walk n root [])
