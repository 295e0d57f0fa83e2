-- ===== src/Interval/Insert/Stored.antt =====
-- lustre/intervaltree.cpp: an insertion keeps the order, and adds one interval or finds it.
use mathlib.Core.Path.{subst}
use mathlib.Core.List.{append_assoc, append-nil}
use lustre_simulator.Base.{
  ℕ, ◌≤◌, ◌≡◌, refl, sym, ap, ◌∙◌, inl, inr, true, false, ◌&&◌, List, [], ◌∷◌, ◌++◌, Option, none,
  some, ltb, ◌==◌, if◌then◌else◌, Bool-cases, arith,
}
use lustre_simulator.Base.Run.{Ends, ends, Ends-bind}
use lustre_simulator.Interval.{IntervalNode, Tree, leaf, node, is_leaf, extent_compare}
use lustre_simulator.Interval.Order.{IsTree, tree_max, max_u64, max_bounds}
use lustre_simulator.Interval.Insert.{
  Zip, left_of, right_of, as_child, rebuild, is_red, parent_of, raise_max_high, extent_of, walk,
  place, interval_insert,
}
use lustre_simulator.Interval.Insert.Context.{spans, IsContext, rebuild_lem, spans-rebuild}
use lustre_simulator.Interval.Insert.Color.{HasBlackRoot, interval_insert_color_lem}

-- The frames put the intervals of a subtree between those before and those after it.
record IsSplit (path : List Zip) : Type 0 where
  before : List (ℕ × ℕ)
  after : List (ℕ × ℕ)
  around : (t : Tree) → spans (rebuild t path) ≡ before ++ (spans t ++ after)

split_lem : (path : List Zip) → IsSplit path
unfolding spans
split_lem [] = record { before = []; after = []; around = λ t. sym (append-nil (spans t)) }
split_lem (left_of p s ∷ up) =
    let v = split_lem up in
    record {
      before = v.before;
      after = ((p.low, p.high) ∷ spans s) ++ v.after;
      around = λ t. v.around (node p t s) ∙ ap (λ x. v.before ++ x) (append_assoc (spans t) _ _);
    }
split_lem (right_of p s ∷ up) =
    let v = split_lem up in
    record {
      before = v.before ++ (spans s ++ ((p.low, p.high) ∷ []));
      after = v.after;
      around = λ t. v.around (node p s t) ∙ simp append_assoc;
    }

-- What an insertion returns: the node with the same interval, with the intervals as they were, or
-- none, with one interval more.
abbrev pub Outcome : List (ℕ × ℕ) → IntervalNode → Option IntervalNode × Tree → Type 0
Outcome old n (none, t) =
    (before after : List (ℕ × ℕ)) × (old ≡ before ++ after)
    × (spans t ≡ before ++ ((n.low, n.high) ∷ after))
Outcome old n (some p, t) = (p.low ≡ n.low) × (p.high ≡ n.high) × (spans t ≡ old)

pub record IsInserted (lo hi : ℕ) (old : List (ℕ × ℕ)) (n : IntervalNode)
    (r : Option IntervalNode × Tree) : Type 0 where
  pub ordered : IsTree lo hi r.1
  pub black : is_red r.1 ≡ false
  pub outcome : Outcome old n r

abbrev IsBlackAt : Tree → List Zip → Type 0
IsBlackAt t [] = is_red t ≡ false
IsBlackAt t (f ∷ up) = HasBlackRoot (f ∷ up)

black_rebuilt : (path : List Zip) (t : Tree) → IsBlackAt t path → is_red (rebuild t path) ≡ false
black_rebuilt [] t black = black
black_rebuilt (left_of p s ∷ []) t black = black
black_rebuilt (right_of p s ∷ []) t black = black
black_rebuilt (f ∷ g ∷ up) t black = black_rebuilt (g ∷ up) (as_child f t) black

black_below :
    (p : IntervalNode) (l r : Tree) (f : Zip) (path : List Zip)
    → (parent_of f).red ≡ p.red
    → IsBlackAt (node p l r) path
    → HasBlackRoot (f ∷ path)
black_below p l r f [] same black = same ∙ black
black_below p l r f (g ∷ up) same black = black

hole_max :
    (k a b h m : ℕ)
    → m ≡ max_u64 k (max_u64 a b)
    → (if ltb m h then h else m) ≡ max_u64 k (max_u64 (max_u64 a h) b)
hole_max k a b h m is = ground arith

hole_max_right :
    (k a b h m : ℕ)
    → m ≡ max_u64 k (max_u64 a b)
    → (if ltb m h then h else m) ≡ max_u64 k (max_u64 a (max_u64 b h))
hole_max_right k a b h m is = ground arith

raised_max : (m h : ℕ) → max_u64 m h ≡ (if ltb m h then h else m)
raised_max m h = ground arith

max_absorbs : (m h k : ℕ) → h ≡ k → k ≤ m → max_u64 m h ≡ m
max_absorbs m h k a b = ground arith

leaf_max : (h : ℕ) {m : ℕ} → m ≡ h → max_u64 0 h ≡ m
leaf_max h is = ground arith

new_max_high : (h : ℕ) {m : ℕ} → m ≡ h → m ≡ max_u64 h (max_u64 0 0)
new_max_high h is = ground arith

black_leaf : (path : List Zip) → IsBlackAt leaf path → HasBlackRoot path
black_leaf [] black = tt
black_leaf (f ∷ up) black = black

compared-left : (n p : IntervalNode) → (extent_compare (extent_of n) p == 0) ≡ true → n.low ≤ p.low
unfolding extent_compare
compared-left n p h = ground arith

compared-right :
    (n p : IntervalNode) → (extent_compare (extent_of n) p == 0) ≡ false → p.low ≤ n.low
unfolding extent_compare
compared-right n p h = ground arith

same_interval :
    (p n : IntervalNode)
    → (p.low == n.low && p.high == n.high) ≡ true
    → (p.low ≡ n.low) × (p.high ≡ n.high)
same_interval p n h = ground arith

module _ (lo' hi' : ℕ) (n : IntervalNode) (order : n.low ≤ n.high) (own : n.max_high ≡ n.high)
    (old : List (ℕ × ℕ)) where
  walk_lem :
      (lo hi : ℕ) (t : Tree) (path : List Zip)
      → IsTree lo hi t
      → lo ≤ n.low
      → n.low ≤ hi
      → IsContext lo hi (max_u64 (tree_max t) n.high) path lo' hi'
      → IsBlackAt t path
      → spans (rebuild t path) ≡ old
      → Ends (IsInserted lo' hi' old n) (place n (walk n t path))
  unfolding walk place raise_max_high spans is_leaf
  walk_lem lo hi leaf path v a b above black is =
      let n' = record n { red = true } in
      let context : IsContext lo hi n.max_high path lo' hi' =
        subst (λ m. IsContext lo hi m path lo' hi') (leaf_max n.high own) above in
      let w = split_lem path in
      Ends-bind
        (interval_insert_color_lem lo' hi' lo hi (node n' leaf leaf) path refl
          (a, b, order, new_max_high n.high own, tt, tt) context (black_leaf path black))
        λ t x. ends (record {
          ordered = x.ordered;
          black = x.black;
          outcome = (
            w.before,
            w.after,
            sym is ∙ w.around leaf,
            x.spans_same ∙ w.around (node n' leaf leaf),
          );
        })
  walk_lem lo hi (node p l r) path (pa, pb, pc, m, vl, vr) a b above black is =
      let p' = raise_max_high n.high p in
      elim (Bool-cases (p.low == n.low && p.high == n.high)) [
        | inl same ↦
            let (x, y) = same_interval p n same in
            let (high, _, _) = max_bounds p.high (tree_max l) (tree_max r) m in
            let absorbs = max_absorbs p.max_high n.high p.high (sym y) high in
            let context : IsContext lo hi p.max_high path lo' hi' =
              subst (λ k. IsContext lo hi k path lo' hi') absorbs above in
            rw same (
              ends (record {
                ordered =
                    rebuild_lem lo hi lo' hi' path (node p l r) (pa, pb, pc, m, vl, vr) context;
                black = black_rebuilt path (node p l r) black;
                outcome = (x, y, is);
              }))
        | inr differs ↦ elim (Bool-cases (extent_compare (extent_of n) p == 0)) [
          | inl left ↦
              rw (differs, left)
                (walk_lem lo p.low l (left_of p' r ∷ path) vl a (compared-left n p left)
                  (
                    lo,
                    hi,
                    (
                      omega arith,
                      omega arith,
                      pa,
                      pb,
                      pc,
                      hole_max p.high (tree_max l) (tree_max r) n.high p.max_high m,
                      vr,
                    ),
                    rw (← raised_max p.max_high n.high) above,
                  )
                  (black_below p l r (left_of p' r) path refl black)
                  (spans-rebuild path (node p' l r) (node p l r) refl ∙ is))
          | inr right ↦
              rw (differs, right)
                (walk_lem p.low hi r (right_of p' l ∷ path) vr (compared-right n p right) b
                  (
                    lo,
                    hi,
                    (
                      omega arith,
                      omega arith,
                      pa,
                      pb,
                      pc,
                      hole_max_right p.high (tree_max l) (tree_max r) n.high p.max_high m,
                      vl,
                    ),
                    rw (← raised_max p.max_high n.high) above,
                  )
                  (black_below p l r (right_of p' l) path refl black)
                  (spans-rebuild path (node p' l r) (node p l r) refl ∙ is))
        ]
      ]

-- In an ordered tree with a black root, an insertion follows no null pointer. If it meets the node
-- with the same interval it returns it and leaves the intervals as they were; else it puts the new
-- interval among them. The tree stays in order between its bounds, and its root is black.
pub interval_insert_lem :
    (lo hi : ℕ) (n : IntervalNode) (t : Tree)
    → n.low ≤ n.high
    → n.max_high ≡ n.high
    → IsTree lo hi t
    → lo ≤ n.low
    → n.low ≤ hi
    → is_red t ≡ false
    → Ends (IsInserted lo hi (spans t) n) (interval_insert n t)
unfolding interval_insert
interval_insert_lem lo hi n t order own v a b black =
    walk_lem lo hi n order own (spans t) lo hi t [] v a b (omega arith, omega arith) black refl
