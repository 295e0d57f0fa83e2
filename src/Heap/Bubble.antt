-- ===== src/Heap/Bubble.antt =====
-- `cfs_binheap_bubble`, the way up.
use lustre_simulator.Base.{
  ℕ, zero, suc, ◌+◌, ◌≤◌, ◌<◌, ◌≡◌, ◌≢◌, refl, Bool, true, false, arith, ltb, ◌==◌, ==_refl,
}
use lustre_simulator.Base.Run.{Ends, ends, Ends-map, Ends-if}
use lustre_simulator.Heap.{Binheap, read, settle, parent, bubble_loop, bubble}
use lustre_simulator.Heap.Slots.{read-settle, chn_index-settle, nelements-settle}
use lustre_simulator.Heap.Hole.{
  IsOrder, HasHole, FitsBelow, FitsAbove, Filled, settle-Filled, Filled-settle,
}

module _ (rank : ℕ → ℕ) (h : Binheap) (e cur : ℕ) (v : HasHole rank h e cur) (pos : 0 < cur)
    (low : rank e ≤ rank (read h (parent cur))) where
  rise-HasHole : HasHole rank (settle h (read h (parent cur)) cur) e (parent cur)
  rise-HasHole =
      let q = read h (parent cur) in
      let at = read-settle h q cur in
      let field = chn_index-settle h q cur in
      let size = nelements-settle h q cur in
      let up : parent cur < cur = omega arith in
      record {
        inside = omega (arith, size, v.inside);
        indexed = λ i p ne. ground (
          arith,
          at i,
          field (read h i),
          field q,
          size,
          v.indexed i,
          v.indexed (parent cur),
          v.inside,
        );
        others = λ i p ne. ground (arith, at i, size, v.others i, v.others (parent cur), v.inside);
        ordered = λ i z p ne np.
            ground (arith, at i, at (parent i), size, v.ordered i, v.bridged i, v.inside);
        bridged = λ i z p np z'. ground (
          arith,
          at i,
          at (parent (parent cur)),
          size,
          v.ordered i,
          v.ordered (parent cur),
          v.inside,
        );
      }

  rise-FitsBelow : FitsBelow rank (settle h (read h (parent cur)) cur) e (parent cur)
  rise-FitsBelow i z p np =
      let q = read h (parent cur) in
      ground (arith, read-settle h q cur i, nelements-settle h q cur, v.ordered i, v.inside, low)

-- What the way up leaves behind, and whether it moved anything.
abbrev pub Bubbled : (ℕ → ℕ) → Binheap → ℕ → ℕ → Binheap × Bool → Type 0
Bubbled rank h e cur (h', moved) =
    (moved ≡ true → Filled rank h e cur h')
    × (moved ≡ false → (h' ≡ settle h e cur) × FitsAbove rank h e cur)

module _ (rank : ℕ → ℕ) (compare : ℕ → ℕ → Bool) (order : IsOrder rank compare) where
  stay :
      (h : Binheap) (e cur : ℕ) (did : Bool)
      → HasHole rank h e cur
      → (did ≡ true → FitsBelow rank h e cur)
      → FitsAbove rank h e cur
      → Bubbled rank h e cur (settle h e cur, did)
  stay h e cur did v below above =
      (λ d. settle-Filled rank h e cur v (below d) above, λ d. (refl, above))

  bubble_loop_lem :
      (k : ℕ) (h : Binheap) (e cur : ℕ) (did : Bool)
      → cur < k
      → HasHole rank h e cur
      → (did ≡ true → FitsBelow rank h e cur)
      → Ends
          (λ r. Bubbled rank h e cur r × (did ≡ true → r.1 ≡ true))
          (bubble_loop compare k h e cur did)
  unfolding bubble_loop
  bubble_loop_lem zero h e cur did f v below = absurd (omega arith)
  bubble_loop_lem (suc k) h e cur did f v below =
      Ends-if (ltb 0 cur)
        (λ z.
          let pos : 0 < cur = ground arith in
          let p = read h (parent cur) in
          let field : h.chn_index p ≡ parent cur =
            v.indexed (parent cur) (omega (arith, v.inside)) (omega arith) in
          let pass : (h.chn_index p == parent cur) ≡ true = rw field (==_refl (parent cur)) in
          rw pass (
            Ends-if (compare p e)
              (λ above. ends (stay h e cur did v below (λ _. (order p e).0 above), λ d. d))
              λ moves.
                let low : rank e ≤ rank p = (order p e).1 moves in
                let ne : parent cur ≢ cur = omega arith in
                let inside : parent cur < h.nelements = omega (arith, v.inside) in
                Ends-map
                  (bubble_loop_lem k (settle h p cur) e (parent cur) true (omega arith)
                    (rise-HasHole rank h e cur v pos low)
                    (λ _. rise-FitsBelow rank h e cur v pos low))
                  λ (h', moved) (r, kept).
                    let m : moved ≡ true = kept refl in
                    ((λ _. Filled-settle v inside ne (r.0 m), λ n. cc), λ _. m)))
        λ z. ends (stay h e cur did v below (λ pos. absurd (ground arith)), λ d. d)

  pub bubble_lem :
      (h : Binheap) (e cur : ℕ)
      → h.chn_index e ≡ cur
      → read h cur ≡ e
      → HasHole rank h e cur
      → Ends (Bubbled rank h e cur) (bubble compare h e)
  unfolding bubble
  bubble_lem h e cur field at v =
      rw (field, at, ==_refl e)
        (Ends-map (bubble_loop_lem (cur + 1) h e cur false (omega arith) v λ d. cc) λ _ r. r.0)
