-- ===== src/Heap/Sink.antt =====
-- `cfs_binheap_sink`, the way down.
use lustre_simulator.Base.{
  ℕ, zero, suc, ◌+◌, ◌-◌, ◌*◌, ◌≤◌, ◌<◌, ◌≡◌, ◌≢◌, Bool, true, false, ◌&&◌, arith, ltb, ◌==◌,
  ==_refl,
}
use lustre_simulator.Base.Run.{Ends, ends, Ends-map, Ends-if}
use lustre_simulator.Heap.{Binheap, read, settle, parent, choose_child, sink_loop, sink}
use lustre_simulator.Heap.Slots.{read-settle, chn_index-settle, nelements-settle}
use lustre_simulator.Heap.Hole.{IsOrder, HasHole, FitsAbove, Filled, settle-Filled, Filled-settle}

-- The child in `m` is not behind the other child.
record IsLeastChild (rank : ℕ → ℕ) (h : Binheap) (cur m : ℕ) : Type 0 where
  inside : m < h.nelements
  child : parent m ≡ cur
  pos : 0 < m
  least : (i : ℕ) → 0 < i → i < h.nelements → parent i ≡ cur → rank (read h m) ≤ rank (read h i)

module _ (rank : ℕ → ℕ) (compare : ℕ → ℕ → Bool) (order : IsOrder rank compare) where
  choose_child_lem :
      (h : Binheap) (cur : ℕ)
      → cur * 2 + 1 < h.nelements
      → IsLeastChild rank h cur (choose_child compare h cur)
  unfolding choose_child
  choose_child_lem h cur p = grind (arith, order (read h (cur * 2 + 1 + 1)) (read h (cur * 2 + 1)))

  module _ (h : Binheap) (e cur m : ℕ) (v : HasHole rank h e cur) (c : IsLeastChild rank h cur m)
      (above : FitsAbove rank h e cur) (low : rank (read h m) ≤ rank e) where
    fall-HasHole : HasHole rank (settle h (read h m) cur) e m
    fall-HasHole =
        let q = read h m in
        let at = read-settle h q cur in
        let field = chn_index-settle h q cur in
        let size = nelements-settle h q cur in
        record {
          inside = omega (arith, size, c.inside);
          indexed = λ i p ne. ground (
            arith,
            at i,
            field (read h i),
            field q,
            size,
            v.indexed i,
            v.indexed m,
            c.inside,
            c.child,
          );
          others = λ i p ne. ground (arith, at i, size, v.others i, v.others m, c.inside, c.child);
          ordered = λ i z p ne np. ground (
            arith,
            at i,
            at (parent i),
            size,
            v.ordered i,
            v.bridged m,
            c.inside,
            c.child,
            c.least i,
            c.pos,
          );
          bridged =
              λ i z p np z'. ground (arith, at i, at (parent m), size, v.ordered i, c.child, c.pos);
        }

    fall-FitsAbove : FitsAbove rank (settle h (read h m) cur) e m
    fall-FitsAbove z = ground (arith, read-settle h (read h m) cur (parent m), c.child, low)

  sink_loop_lem :
      (k : ℕ) (h : Binheap) (e cur : ℕ) (did : Bool)
      → h.nelements - cur < k
      → HasHole rank h e cur
      → FitsAbove rank h e cur
      → Ends (λ r. Filled rank h e cur r.0) (sink_loop compare k h e cur did)
  unfolding sink_loop
  sink_loop_lem zero h e cur did f v above = absurd (omega arith)
  sink_loop_lem (suc k) h e cur did f v above =
      Ends-if (ltb cur h.nelements && ltb (cur * 2 + 1) h.nelements)
        (λ both.
          let room : cur * 2 + 1 < h.nelements = ground arith in
          let m = choose_child compare h cur in
          let c = choose_child_lem h cur room in
          let child = read h m in
          let ne : m ≢ cur = omega (arith, c.child, c.pos) in
          let down : cur < m = omega (arith, c.child, c.pos) in
          let field : h.chn_index child ≡ m = v.indexed m c.inside ne in
          let pass : (h.chn_index child == m) ≡ true = rw field (==_refl m) in
          rw pass (
            Ends-if (compare e child)
              (λ fits. ends (
                settle-Filled rank h e cur v
                  (λ i z p np. omega (arith, (order e child).0 fits, c.least i z p np)) above))
              λ moves.
                let low : rank child ≤ rank e = (order e child).1 moves in
                Ends-map
                  (sink_loop_lem k (settle h child cur) e m true
                    (omega (arith, nelements-settle h child cur, v.inside, c.inside))
                    (fall-HasHole h e cur m v c above low) (fall-FitsAbove h e cur m v c above low))
                  λ r filled. Filled-settle v c.inside ne filled))
        λ leaf.
          ends (settle-Filled rank h e cur v (λ i z p np. absurd (ground (arith, v.inside))) above)

  pub sink_lem :
      (h : Binheap) (e cur : ℕ)
      → h.chn_index e ≡ cur
      → read h cur ≡ e
      → HasHole rank h e cur
      → FitsAbove rank h e cur
      → Ends (λ r. Filled rank h e cur r.0) (sink compare h e)
  unfolding sink
  sink_lem h e cur field at v above =
      rw (field, at, ==_refl e)
        (sink_loop_lem (h.nelements + 1) h e cur false (omega arith) v above)
