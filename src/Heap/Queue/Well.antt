-- ===== src/Heap/Queue/Well.antt =====
-- The invariant of the heap, and `cfs_binheap_relocate`.
use lustre_simulator.Base.{ℕ, ◌≤◌, ◌≡◌, ◌∙◌, Bool, ==_refl}
use lustre_simulator.Base.Run.{Ends, ends, Ends-bind, Ends-if}
use lustre_simulator.Heap.{Binheap, read, settle, relocate}
use lustre_simulator.Heap.Slots.{read-settle, chn_index-settle}
use lustre_simulator.Heap.Hole.{
  IsOrder, IsHeap, HasHole, Filled, HasHole-settle_self, FitsAbove-settle_self, Filled-settle_self,
}
use lustre_simulator.Heap.Bubble.{bubble_lem}
use lustre_simulator.Heap.Sink.{sink_lem}
use lustre_simulator.Heap.Growth.Stored.{IsStored}

pub record IsWell (rank : ℕ → ℕ) (h : Binheap) : Type 0 where
  pub heap : IsHeap rank h
  pub stored : IsStored h.storage
  pub room : h.nelements ≤ h.storage.hwm

module _ (rank : ℕ → ℕ) (compare : ℕ → ℕ → Bool) (order : IsOrder rank compare) where
  -- A node whose rank may have changed, in a heap that is in order but for it, finds its place:
  -- the heap is in order again and holds the same nodes.
  pub relocate_lem :
      (h : Binheap) (e cur : ℕ)
      → h.chn_index e ≡ cur
      → read h cur ≡ e
      → HasHole rank h e cur
      → Ends (Filled rank h e cur) (relocate compare h e)
  unfolding relocate
  relocate_lem h e cur field at v =
      Ends-bind (bubble_lem rank compare order h e cur field at v) λ (h', moved) (up, down).
        Ends-if moved (λ m. ends (up m))
          λ n.
            let (same, above) = down n in
            rw same (
              Ends-bind
                (sink_lem rank compare order (settle h e cur) e cur
                  (chn_index-settle h e cur e ∙ rw (==_refl e))
                  (read-settle h e cur cur ∙ rw (==_refl cur)) (HasHole-settle_self rank h e cur v)
                  (FitsAbove-settle_self rank h e cur above))
                λ r f. ends (Filled-settle_self f))
