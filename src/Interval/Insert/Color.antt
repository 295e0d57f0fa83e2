-- ===== src/Interval/Insert/Color.antt =====
-- lustre/intervaltree.cpp: the repair of the colours keeps the order and the intervals.
use lustre_simulator.Base.{
  ℕ, ◌≡◌, refl, ap, ◌∙◌, inl, inr, Bool, true, false, List, [], ◌∷◌, ◌++◌, Bool-cases,
}
use lustre_simulator.Base.Run.{Ends, ends, Ends-bind, Ends-map}
use lustre_simulator.Interval.{IntervalNode, Tree, leaf, node, is_leaf}
use lustre_simulator.Interval.Order.{IsTree, tree_max}
use lustre_simulator.Interval.Insert.{
  Zip, left_of, right_of, as_child, rebuild, with_color, is_red, parent_of, new_max, rotate_left,
  rotate_right, lift, uncle_of, recolor, interval_insert_color,
}
use lustre_simulator.Interval.Insert.Context.{
  spans, IsSame, IsContext, as_child_lem, rebuild_lem, spans-rebuild, rotate_left_lem,
  rotate_right_lem,
}

-- A colour changes nothing of the order.
colored : (lo hi : ℕ) (c : Bool) (t : Tree) → IsTree lo hi t → IsSame lo hi t (with_color c t)
unfolding spans
colored lo hi c leaf v = record { ordered = v; max_same = refl; spans_same = refl }
colored lo hi c (node n l r) v = record { ordered = v; max_same = refl; spans_same = refl }

IsSame-trans : (lo hi : ℕ) (t u w : Tree) → IsSame lo hi t u → IsSame lo hi u w → IsSame lo hi t w
IsSame-trans lo hi t u w v x = record {
  ordered = x.ordered;
  max_same = x.max_same ∙ v.max_same;
  spans_same = x.spans_same ∙ v.spans_same;
}

recolor_lem :
    (lo hi : ℕ) (f g : Zip) (t : Tree)
    → IsTree lo hi (as_child g (as_child f t))
    → IsSame lo hi (as_child g (as_child f t)) (recolor f g t)
unfolding spans
recolor_lem lo hi (left_of p s) (left_of g leaf) t v = record {
  ordered = v;
  max_same = refl;
  spans_same = refl;
}
recolor_lem lo hi (left_of p s) (left_of g (node n l r)) t v = record {
  ordered = v;
  max_same = refl;
  spans_same = refl;
}
recolor_lem lo hi (left_of p s) (right_of g leaf) t v = record {
  ordered = v;
  max_same = refl;
  spans_same = refl;
}
recolor_lem lo hi (left_of p s) (right_of g (node n l r)) t v = record {
  ordered = v;
  max_same = refl;
  spans_same = refl;
}
recolor_lem lo hi (right_of p s) (left_of g leaf) t v = record {
  ordered = v;
  max_same = refl;
  spans_same = refl;
}
recolor_lem lo hi (right_of p s) (left_of g (node n l r)) t v = record {
  ordered = v;
  max_same = refl;
  spans_same = refl;
}
recolor_lem lo hi (right_of p s) (right_of g leaf) t v = record {
  ordered = v;
  max_same = refl;
  spans_same = refl;
}
recolor_lem lo hi (right_of p s) (right_of g (node n l r)) t v = record {
  ordered = v;
  max_same = refl;
  spans_same = refl;
}

again :
    (lo hi : ℕ) {t u w : Tree}
    → IsSame lo hi u w
    → tree_max u ≡ tree_max t
    → spans u ≡ spans t
    → IsSame lo hi t w
again lo hi v m s = record {
  ordered = v.ordered;
  max_same = v.max_same ∙ m;
  spans_same = v.spans_same ∙ s;
}

lift_lem :
    (lo hi : ℕ) (f g : Zip) (n : IntervalNode) (l r : Tree)
    → IsTree lo hi (as_child g (as_child f (node n l r)))
    → Ends (IsSame lo hi (as_child g (as_child f (node n l r)))) (lift f g (node n l r))
unfolding lift rotate_left rotate_right spans
lift_lem lo hi (left_of p s) (left_of g u) n l r v =
    let g' = record g { red = true } in
    let p' = record p { red = false } in
    ends (again lo hi (rotate_right_lem lo hi g' p' (node n l r) s u v) refl refl)
lift_lem lo hi (right_of p s) (right_of g u) n l r v =
    let g' = record g { red = true } in
    let p' = record p { red = false } in
    ends (again lo hi (rotate_left_lem lo hi g' p' u s (node n l r) v) refl refl)
lift_lem lo hi (right_of p s) (left_of g u) n l r (a, b, c, m, v, w) =
    let g' = record g { red = true } in
    let inner = rotate_left_lem lo g.low p n s l r v in
    let n' = record n { max_high = p.max_high; red = false } in
    let p' = record p { max_high = new_max p s l } in
    ends (
      again lo hi (rotate_right_lem lo hi g' n' (node p' s l) r u (a, b, c, m, inner.ordered, w))
        refl (ap (λ x. x ++ ((g.low, g.high) ∷ spans u)) inner.spans_same))
lift_lem lo hi (left_of p s) (right_of g u) n l r (a, b, c, m, w, v) =
    let g' = record g { red = true } in
    let inner = rotate_right_lem g.low hi p n l r s v in
    let n' = record n { max_high = p.max_high; red = false } in
    let p' = record p { max_high = new_max p r s } in
    ends (
      again lo hi (rotate_left_lem lo hi g' n' u l (node p' r s) (a, b, c, m, w, inner.ordered))
        refl (ap (λ x. spans u ++ ((g.low, g.high) ∷ x)) inner.spans_same))

-- The root is black.
abbrev pub HasBlackRoot : List Zip → Type 0
HasBlackRoot [] = Unit
HasBlackRoot (f ∷ []) = (parent_of f).red ≡ false
HasBlackRoot (f ∷ g ∷ up) = HasBlackRoot (g ∷ up)

black_above : (g : Zip) (up : List Zip) → HasBlackRoot (g ∷ up) → HasBlackRoot up
black_above g [] black = tt
black_above g (f ∷ up) black = black

not_red : (t : Tree) → is_red (with_color false t) ≡ false
not_red leaf = refl
not_red (node n l r) = refl

recolor-node : (f g : Zip) (t : Tree) → is_leaf (recolor f g t) ≡ false
unfolding is_leaf
recolor-node f (left_of p s) t = refl
recolor-node f (right_of p s) t = refl

-- A tree in order between the bounds, with a black root and the intervals of another.
pub record IsRoot (lo hi : ℕ) (old new : Tree) : Type 0 where
  pub ordered : IsTree lo hi new
  pub black : is_red new ≡ false
  pub spans_same : spans new ≡ spans old

module _ (lo' hi' : ℕ) where
  -- The tree is whole again: only the root's colour is left.
  root_lem :
      (lo hi : ℕ) (t u : Tree) (up : List Zip)
      → IsSame lo hi t u
      → IsContext lo hi (tree_max t) up lo' hi'
      → IsRoot lo' hi' (rebuild t up) (with_color false (rebuild u up))
  root_lem lo hi t u up v above =
      let w =
        colored lo' hi' false (rebuild u up)
          (rebuild_lem lo hi lo' hi' up u v.ordered (rw v.max_same above)) in
      record {
        ordered = w.ordered;
        black = not_red (rebuild u up);
        spans_same = w.spans_same ∙ spans-rebuild up u t v.spans_same;
      }

  itself : (lo hi : ℕ) (t : Tree) → IsTree lo hi t → IsSame lo hi t t
  itself lo hi t v = record { ordered = v; max_same = refl; spans_same = refl }

  pub interval_insert_color_lem :
      (lo hi : ℕ) (t : Tree) (path : List Zip)
      → is_leaf t ≡ false
      → IsTree lo hi t
      → IsContext lo hi (tree_max t) path lo' hi'
      → HasBlackRoot path
      → Ends (IsRoot lo' hi' (rebuild t path)) (interval_insert_color t path)
  unfolding interval_insert_color is_leaf
  interval_insert_color_lem lo hi leaf path inner v above black = cc
  interval_insert_color_lem lo hi (node n l r) [] inner v above black =
      ends (root_lem lo hi (node n l r) (node n l r) [] (itself lo hi (node n l r) v) above)
  interval_insert_color_lem lo hi (node n l r) (f ∷ []) inner v above black =
      rw black (
        ends
          (root_lem lo hi (node n l r) (node n l r) (f ∷ []) (itself lo hi (node n l r) v) above))
  interval_insert_color_lem lo hi (node n l r) (f ∷ g ∷ up) inner v
        (lo₁, hi₁, hole, (lo₂, hi₂, hole', above)) black =
      let t = node n l r in
      let (v', m) = as_child_lem lo hi lo₁ hi₁ f t v hole in
      let (w, m') = as_child_lem lo₁ hi₁ lo₂ hi₂ g (as_child f t) v' (rw m hole') in
      let two = as_child g (as_child f t) in
      let above' : IsContext lo₂ hi₂ (tree_max two) up lo' hi' = rw m' above in
      elim (Bool-cases (parent_of f).red) [
        | inr is_black ↦
            rw is_black (ends (root_lem lo₂ hi₂ two two up (itself lo₂ hi₂ two w) above'))
        | inl red ↦ elim (Bool-cases (is_red (uncle_of g))) [
          | inr no_uncle ↦
              rw (red, no_uncle)
                (Ends-bind (lift_lem lo₂ hi₂ f g n l r w)
                  λ top x. ends (root_lem lo₂ hi₂ two top up x above'))
          | inl uncle ↦
              let x = recolor_lem lo₂ hi₂ f g t w in
              rw (red, uncle)
                (Ends-map
                  (interval_insert_color_lem lo₂ hi₂ (recolor f g t) up (recolor-node f g t)
                    x.ordered (rw x.max_same above') (black_above g up black))
                  λ root y. record {
                    ordered = y.ordered;
                    black = y.black;
                    spans_same = y.spans_same ∙ spans-rebuild up (recolor f g t) two x.spans_same;
                  })
        ]
      ]
