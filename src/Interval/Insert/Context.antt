-- ===== src/Interval/Insert/Context.antt =====
-- lustre/intervaltree.cpp: what the frames above a subtree need of it, and the rotations.
use mathlib.Core.List.{append_assoc}
use lustre_simulator.Base.{ℕ, ◌≤◌, ◌≡◌, refl, sym, List, [], ◌∷◌, ◌++◌, arith}
use lustre_simulator.Interval.{IntervalNode, Tree, leaf, node}
use lustre_simulator.Interval.Order.{IsTree, tree_max, max_u64}
use lustre_simulator.Interval.Insert.{Zip, left_of, right_of, as_child, rebuild, parent_of, new_max}

-- The intervals of a tree, in order.
unfoldable pub spans : Tree → List (ℕ × ℕ)
spans leaf = []
spans (node n l r) = spans l ++ ((n.low, n.high) ∷ spans r)

-- A tree that may stand for another: it is in order too, with the same greatest end and intervals.
pub record IsSame (lo hi : ℕ) (old new : Tree) : Type 0 where
  pub ordered : IsTree lo hi new
  pub max_same : tree_max new ≡ tree_max old
  pub spans_same : spans new ≡ spans old

IsTree-wide :
    (lo lo' hi hi' : ℕ) (t : Tree) → lo' ≤ lo → hi ≤ hi' → IsTree lo hi t → IsTree lo' hi' t
IsTree-wide lo lo' hi hi' leaf a b v = v
IsTree-wide lo lo' hi hi' (node n l r) a b (x, y, z, m, vl, vr) = (
  omega arith,
  omega arith,
  z,
  m,
  IsTree-wide lo lo' n.low n.low l a (omega arith) vl,
  IsTree-wide n.low n.low hi hi' r (omega arith) b vr,
)

-- A subtree between `lo` and `hi`, with the greatest end `m`, makes a parent's between `lo'`, `hi'`.
abbrev pub IsHole : ℕ → ℕ → ℕ → Zip → ℕ → ℕ → Type 0
IsHole lo hi m (left_of p s) lo' hi' =
    (lo' ≤ lo)
    × (hi ≤ p.low)
    × (lo' ≤ p.low)
    × (p.low ≤ hi')
    × (p.low ≤ p.high)
    × (p.max_high ≡ max_u64 p.high (max_u64 m (tree_max s)))
    × IsTree p.low hi' s
IsHole lo hi m (right_of p s) lo' hi' =
    (p.low ≤ lo)
    × (hi ≤ hi')
    × (lo' ≤ p.low)
    × (p.low ≤ hi')
    × (p.low ≤ p.high)
    × (p.max_high ≡ max_u64 p.high (max_u64 (tree_max s) m))
    × IsTree lo' p.low s

-- Such a subtree completes the frames to a tree between `lo'` and `hi'`.
abbrev pub IsContext : ℕ → ℕ → ℕ → List Zip → ℕ → ℕ → Type 0
IsContext lo hi m [] lo' hi' = (lo' ≤ lo) × (hi ≤ hi')
IsContext lo hi m (f ∷ up) lo' hi' =
    (low high : ℕ) × IsHole lo hi m f low high
    × IsContext low high (parent_of f).max_high up lo' hi'

pub as_child_lem :
    (lo hi lo' hi' : ℕ) (f : Zip) (t : Tree)
    → IsTree lo hi t
    → IsHole lo hi (tree_max t) f lo' hi'
    → IsTree lo' hi' (as_child f t) × (tree_max (as_child f t) ≡ (parent_of f).max_high)
as_child_lem lo hi lo' hi' (left_of p s) t v (a, b, c, d, e, m, w) =
    ((c, d, e, m, IsTree-wide lo lo' hi p.low t a b v, w), refl)
as_child_lem lo hi lo' hi' (right_of p s) t v (a, b, c, d, e, m, w) =
    ((c, d, e, m, w, IsTree-wide lo p.low hi hi' t a b v), refl)

pub rebuild_lem :
    (lo hi lo' hi' : ℕ) (path : List Zip) (t : Tree)
    → IsTree lo hi t
    → IsContext lo hi (tree_max t) path lo' hi'
    → IsTree lo' hi' (rebuild t path)
rebuild_lem lo hi lo' hi' [] t v (a, b) = IsTree-wide lo lo' hi hi' t a b v
rebuild_lem lo hi lo' hi' (f ∷ up) t v (low, high, hole, above) =
    let (w, m) = as_child_lem lo hi low high f t v hole in
    rebuild_lem low high lo' hi' up (as_child f t) w (rw m above)

-- The frames keep a subtree's intervals together, whichever tree has them.
pub spans-as_child :
    (f : Zip) (t u : Tree) → spans t ≡ spans u → spans (as_child f t) ≡ spans (as_child f u)
unfolding spans
spans-as_child (left_of p s) t u same = rw same refl
spans-as_child (right_of p s) t u same = rw same refl

pub spans-rebuild :
    (path : List Zip) (t u : Tree)
    → spans t ≡ spans u
    → spans (rebuild t path) ≡ spans (rebuild u path)
spans-rebuild [] t u same = same
spans-rebuild (f ∷ up) t u same =
    spans-rebuild up (as_child f t) (as_child f u) (spans-as_child f t u same)

max_regroup :
    (x y a b c m k : ℕ)
    → m ≡ max_u64 y (max_u64 b c)
    → k ≡ max_u64 x (max_u64 a m)
    → k ≡ max_u64 y (max_u64 (max_u64 x (max_u64 a b)) c)
max_regroup x y a b c m k h e = ground arith

module _ (lo hi : ℕ) (x y : IntervalNode) (a b c : Tree) where
  abbrev pub lifted_left : Tree
  lifted_left =
      node (record y { max_high = x.max_high }) (node (record x { max_high = new_max x a b }) a b) c

  pub rotate_left_lem :
      IsTree lo hi (node x a (node y b c)) → IsSame lo hi (node x a (node y b c)) lifted_left
  unfolding spans
  rotate_left_lem (p, q, r, m, v, (p', q', r', m', w, z)) = record {
    ordered = (
      omega arith,
      q',
      r',
      max_regroup x.high y.high (tree_max a) (tree_max b) (tree_max c) y.max_high x.max_high m' m,
      (p, p', r, refl, v, w),
      z,
    );
    max_same = refl;
    spans_same = append_assoc (spans a) _ _;
  }

max_regroup_right :
    (x y b c d m k : ℕ)
    → m ≡ max_u64 y (max_u64 b c)
    → k ≡ max_u64 x (max_u64 m d)
    → k ≡ max_u64 y (max_u64 b (max_u64 x (max_u64 c d)))
max_regroup_right x y b c d m k h e = ground arith

module _ (lo hi : ℕ) (x y : IntervalNode) (b c d : Tree) where
  abbrev pub lifted_right : Tree
  lifted_right =
      node (record y { max_high = x.max_high }) b (node (record x { max_high = new_max x c d }) c d)

  pub rotate_right_lem :
      IsTree lo hi (node x (node y b c) d) → IsSame lo hi (node x (node y b c) d) lifted_right
  unfolding spans
  rotate_right_lem (p, q, r, m, (p', q', r', m', w, z), v) = record {
    ordered = (
      p',
      omega arith,
      r',
      max_regroup_right x.high y.high (tree_max b) (tree_max c) (tree_max d) y.max_high x.max_high
          m' m,
      w,
      (q', q, r, refl, z, v),
    );
    max_same = refl;
    spans_same = sym (append_assoc (spans b) _ _);
  }
