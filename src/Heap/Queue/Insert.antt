-- ===== src/Heap/Queue/Insert.antt =====
-- `cfs_binheap_insert`.
use lustre_simulator.Base.{
  ℕ, ◌+◌, ◌≤◌, ◌<◌, ◌≡◌, ◌≢◌, ◌↔◌, refl, ap, ◌∙◌, inl, inr, Bool, true, not, arith, ◌==◌, ==_refl,
  if◌then◌else◌, Bool-cases,
}
use lustre_simulator.Base.Run.{ok, ◌>>=◌, Ends, ends, Ends-map, Ends-bind, Ends-if}
use lustre_simulator.Heap.{Storage, Binheap, read, write, set_index, parent, bubble}
use lustre_simulator.Heap.Slots.{read-write, read-elements}
use lustre_simulator.Heap.Hole.{IsOrder, IsHeap, Holds, HasHole, HeldBeside, Filled, settle-Filled}
use lustre_simulator.Heap.Bubble.{bubble_lem}
use lustre_simulator.Heap.Growth.{grow}
use lustre_simulator.Heap.Growth.Stored.{IsStored, grow_lem}
use lustre_simulator.Heap.Queue.{InsertCode, inserted, place_last, insert}
use lustre_simulator.Heap.Queue.Well.{IsWell}

-- What an insertion leaves: the node is in the heap and no other came or went; or, where the heap
-- could not grow or `hop_enter` refused, the heap holds what it held.
abbrev pub Inserted : (ℕ → ℕ) → Binheap → ℕ → Binheap × InsertCode → Type 0
Inserted rank h e (h', code) =
    IsWell rank h'
    × (code ≡ inserted
        → (h'.nelements ≡ h.nelements + 1)
          × Holds h' e
          × ((x : ℕ) → x ≢ e → Holds h' x ↔ Holds h x))
    × (code ≢ inserted → (h'.nelements ≡ h.nelements) × ((x : ℕ) → Holds h' x ↔ Holds h x))

module _ (rank : ℕ → ℕ) (compare : ℕ → ℕ → Bool) (order : IsOrder rank compare) where
  module _ (h : Binheap) (e : ℕ) (v : IsHeap rank h) (fresh : ¬ (Holds h e)) where
    place_last-nelements : (place_last h e).nelements ≡ h.nelements + 1
    unfolding place_last write set_index
    place_last-nelements = refl

    place_last-storage : (place_last h e).storage ≡ h.storage
    unfolding place_last write set_index
    place_last-storage = refl

    place_last-read : (i : ℕ) → read (place_last h e) i ≡ (if h.nelements == i then e else read h i)
    unfolding place_last set_index
    place_last-read i =
        let grown = record (set_index h e h.nelements) { nelements = h.nelements + 1 } in
        read-write grown h.nelements i e ∙ rw (read-elements grown h i refl)

    place_last-chn_index :
        (x : ℕ) → (place_last h e).chn_index x ≡ (if e == x then h.nelements else h.chn_index x)
    unfolding place_last write set_index
    place_last-chn_index x = refl

    absent : (i : ℕ) → i < h.nelements → read h i ≢ e
    absent i p same =
        let index : h.chn_index e ≡ i = rw same at (v.indexed i p) in
        fresh (omega arith, rw index same)

    place_last-HasHole : HasHole rank (place_last h e) e h.nelements
    place_last-HasHole =
        let at = place_last-read in
        let field = place_last-chn_index in
        let size = place_last-nelements in
        record {
          inside = omega (arith, size);
          indexed = λ i p ne. ground (arith, at i, field (read h i), size, v.indexed i, absent i);
          others = λ i p ne. ground (arith, at i, size, absent i);
          ordered = λ i z p ne np. ground (arith, at i, at (parent i), size, v.ordered i);
          bridged = λ i z p np z'. absurd (omega (arith, size));
        }

    place_last-HeldBeside : (x : ℕ) → x ≢ e → HeldBeside (place_last h e) h.nelements x ↔ Holds h x
    place_last-HeldBeside x ne =
        let at = place_last-read in
        let field = place_last-chn_index in
        let size = place_last-nelements in
        (
          λ beside. ground (arith, field x, at (h.chn_index x), size, beside),
          λ held. ground (arith, field x, at (h.chn_index x), size, held),
        )

  module _ (h : Binheap) (st : Storage) where
    abbrev moved_to : Binheap
    moved_to = record h { storage = st }

    read-moved_to : (i : ℕ) → read moved_to i ≡ read h i
    read-moved_to i = read-elements moved_to h i refl

    moved_to-Holds : (x : ℕ) → Holds moved_to x ↔ Holds h x
    moved_to-Holds x = ground (arith, read-moved_to (h.chn_index x))

    moved_to-IsHeap : IsHeap rank h → IsHeap rank moved_to
    moved_to-IsHeap v = record {
      indexed = λ i p. ground (arith, read-moved_to i, v.indexed i);
      ordered = λ i z p. ground (arith, read-moved_to i, read-moved_to (parent i), v.ordered i);
    }

  enters_lem :
      (g : Binheap) (e : ℕ)
      → IsHeap rank g
      → IsStored g.storage
      → g.nelements < g.storage.hwm
      → ¬ (Holds g e)
      → Ends
          (λ r. Inserted rank g e r × (r.1 ≡ inserted))
          (bubble compare (place_last g e) e >>= λ (h', _). ok (h', inserted))
  enters_lem g e heap stored room fresh =
      let n = g.nelements in
      let hole = place_last-HasHole g e heap fresh in
      Ends-bind
        (bubble_lem rank compare order (place_last g e) e n
          (place_last-chn_index g e heap fresh e ∙ rw (==_refl e))
          (place_last-read g e heap fresh n ∙ rw (==_refl n)) hole)
        λ (h', moved) (up, down).
          let filled : Filled rank (place_last g e) e n h' = elim (Bool-cases moved) [
            | inl m ↦ up m
            | inr s ↦
                let (same, above) = down s in
                rw same (
                  settle-Filled rank (place_last g e) e n hole
                    (λ i z p np. absurd (omega (arith, place_last-nelements g e heap fresh))) above)
          ] in
          let size = filled.size ∙ place_last-nelements g e heap fresh in
          let storage : h'.storage ≡ g.storage =
            filled.same_storage ∙ place_last-storage g e heap fresh in
          ends (
            (
              record {
                heap = filled.heap;
                stored = rw storage stored;
                room = omega (arith, size, ap (λ (t : Storage). t.hwm) storage);
              },
              λ _. (
                size,
                filled.holds,
                λ x ne.
                    let a = filled.kept x ne in
                    let b = place_last-HeldBeside g e heap fresh x ne in
                    (λ held. b.0 (a.0 held), λ held. a.1 (b.1 held)),
              ),
              λ no. absurd (no refl),
            ),
            refl,
          )

  grown_lem :
      (alloc : ℕ → Bool) (h : Binheap)
      → IsWell rank h
      → Ends
          (λ (got, st).
            IsStored st
            × (h.nelements ≤ st.hwm)
            × (got ≡ true → h.nelements < st.hwm)
            × (h.nelements < h.storage.hwm → got ≡ true))
          (if h.nelements == h.storage.hwm then grow alloc h.storage else ok (true, h.storage))
  grown_lem alloc h v =
      Ends-if (h.nelements == h.storage.hwm)
        (λ full. Ends-map (grow_lem alloc h.storage v.stored) λ (got, st) (stored, up, kept). (
          stored,
          ground (arith, up, kept, v.room),
          λ g. ground (arith, up g, v.room),
          λ room. absurd (ground arith),
        ))
        λ roomy. ends (v.stored, v.room, (λ _. ground (arith, v.room)), λ _. refl)

  -- Inserting a node that the heap does not hold leaves a heap, with the node and no other change
  -- if the code is 0, and with the nodes it had otherwise; below its high water mark, and where
  -- `hop_enter` agrees, the code is 0.
  pub insert_lem :
      (enter : ℕ → ℕ) (alloc : ℕ → Bool) (h : Binheap) (e : ℕ)
      → IsWell rank h
      → ¬ (Holds h e)
      → Ends
          (λ r. Inserted rank h e r × (h.nelements < h.storage.hwm → enter e ≡ 0 → r.1 ≡ inserted))
          (insert compare enter alloc h e)
  unfolding insert
  insert_lem enter alloc h e v fresh =
      Ends-bind (grown_lem alloc h v) λ (got, st) (stored, room, more, got_room).
        let g : Binheap = record h { storage = st } in
        let well : IsWell rank g = record {
          heap = moved_to-IsHeap h st v.heap;
          stored = stored;
          room = room;
        } in
        let same = moved_to-Holds h st in
        Ends-if (not got)
          (λ n.
            ends ((well, (λ c. cc), λ _. (refl, same)), λ r. absurd (ground (arith, got_room r))))
          λ t.
            Ends-if (enter e == 0)
              (λ z.
                Ends-map
                  (enters_lem g e well.heap stored (more (ground arith))
                    λ held. fresh ((same e).0 held))
                  λ (h', code) ((well', ins, out), done). (
                    (
                      well',
                      λ c.
                          let (size, holds, kept) = ins c in
                          (
                            size,
                            holds,
                            λ x ne. (
                              λ held. (same x).0 ((kept x ne).0 held),
                              λ held. (kept x ne).1 ((same x).1 held),
                            ),
                          ),
                      λ c.
                          let (size, kept) = out c in
                          (
                            size,
                            λ x. (
                              λ held. (same x).0 ((kept x).0 held),
                              λ held. (kept x).1 ((same x).1 held),
                            ),
                          ),
                    ),
                    λ _ _. done,
                  ))
              λ r. ends ((well, (λ c. cc), λ _. (refl, same)), λ _ z. absurd (ground arith))
