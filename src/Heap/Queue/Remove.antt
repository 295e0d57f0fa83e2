-- ===== src/Heap/Queue/Remove.antt =====
-- `cfs_binheap_remove` and `cfs_binheap_remove_root`.
use native.Mathlib.Decide.{ℕ_discrete}
use lustre_simulator.Base.{
  ℕ, zero, suc, ◌+◌, ◌-◌, ◌≤◌, ◌<◌, ◌≡◌, ◌≢◌, ◌↔◌, refl, sym, ap, ◌∙◌, Bool, true, not, arith, ltb,
  ◌==◌, ==_refl, if◌then◌else◌, Option, none, some, ◌∷◌,
}
use lustre_simulator.Base.Run.{Ends, ends, Ends-bind, Ends-if}
use lustre_simulator.Heap.{cbh_poison, Storage, Binheap, read, set_index, find, settle, parent}
use lustre_simulator.Heap.Slots.{read-settle, chn_index-settle, read-elements}
use lustre_simulator.Heap.Hole.{
  IsOrder, IsHeap, Holds, HasHole, HeldBeside, Filled, HasHole-settle_self, Filled-settle_self,
}
use lustre_simulator.Heap.Queue.{remove, root, remove_root}
use lustre_simulator.Heap.Queue.Well.{IsWell, relocate_lem}

-- What a removal leaves: the node is out of the heap, and no other came or went.
pub record Removed (rank : ℕ → ℕ) (h : Binheap) (e : ℕ) (h' : Binheap) : Type 0 where
  pub well : IsWell rank h'
  pub size : h'.nelements + 1 ≡ h.nelements
  pub gone : ¬ (Holds h' e)
  pub kept : (x : ℕ) → x ≢ e → Holds h' x ↔ Holds h x

-- What the removal of the root leaves.
abbrev pub RootRemoved : (ℕ → ℕ) → Binheap → Binheap × Option ℕ → Type 0
RootRemoved rank h (h', none) = (h.nelements ≡ 0) × (h' ≡ h)
RootRemoved rank h (h', some e) =
    Holds h e × ((x : ℕ) → Holds h x → rank e ≤ rank x) × Removed rank h e h'

module _ (rank : ℕ → ℕ) (compare : ℕ → ℕ → Bool) (order : IsOrder rank compare) where
  module _ (h : Binheap) (e : ℕ) (v : IsWell rank h) (held : Holds h e) where
    abbrev cut : Binheap
    cut = record h { nelements = h.nelements - 1 }

    abbrev last : ℕ
    last = read h (h.nelements - 1)

    cut-read : (i : ℕ) → read cut i ≡ read h i
    cut-read i = read-elements cut h i refl

    last_index : h.chn_index last ≡ h.nelements - 1
    last_index = v.heap.indexed (h.nelements - 1) (omega arith)

    remove_last : last ≡ e → Removed rank h e cut
    remove_last same = record {
      well = record {
        heap = record {
          indexed = λ i p. ground (arith, cut-read i, v.heap.indexed i);
          ordered = λ i z p. ground (arith, cut-read i, cut-read (parent i), v.heap.ordered i);
        };
        stored = v.stored;
        room = omega (arith, v.room);
      };
      size = omega arith;
      gone = λ still. ground (arith, last_index);
      kept = λ x ne. (
        λ k. ground (arith, cut-read (h.chn_index x)),
        λ k. ground (arith, cut-read (h.chn_index x)),
      );
    }

    cut-HasHole : last ≢ e → HasHole rank cut last (h.chn_index e)
    cut-HasHole differ =
        let cur = h.chn_index e in
        record {
          inside = ground arith;
          indexed = λ i p ne. ground (arith, cut-read i, v.heap.indexed i);
          others = λ i p ne. ground (arith, cut-read i, v.heap.indexed i, last_index);
          ordered =
              λ i z p ne np. ground (arith, cut-read i, cut-read (parent i), v.heap.ordered i);
          bridged = λ i z p np z'.
              ground
                (arith, cut-read i, cut-read (parent cur), v.heap.ordered i, v.heap.ordered cur);
        }

    HeldBeside-cut :
        (x : ℕ) → last ≢ e → x ≢ e → x ≢ last → HeldBeside cut (h.chn_index e) x ↔ Holds h x
    HeldBeside-cut x differ ne nl = (
      λ beside. ground (arith, cut-read (h.chn_index x), beside),
      λ k. ground (arith, cut-read (h.chn_index x), k, held),
    )

    -- The last steps of a removal: the node loses its index, and `hop_exit` is called.
    abbrev dropped : Binheap → Binheap
    dropped g = record (set_index g e cbh_poison) { exits = e ∷ (set_index g e cbh_poison).exits }

    dropped-read : (g : Binheap) (i : ℕ) → read (dropped g) i ≡ read g i
    unfolding set_index
    dropped-read g i = read-elements (dropped g) g i refl

    dropped-chn_index :
        (g : Binheap) (x : ℕ)
        → (dropped g).chn_index x ≡ (if e == x then cbh_poison else g.chn_index x)
    unfolding set_index
    dropped-chn_index g x = refl

    dropped-nelements : (g : Binheap) → (dropped g).nelements ≡ g.nelements
    unfolding set_index
    dropped-nelements g = refl

    dropped-storage : (g : Binheap) → (dropped g).storage ≡ g.storage
    unfolding set_index
    dropped-storage g = refl

    remove_other :
        last ≢ e
        → (g : Binheap) → Filled rank cut last (h.chn_index e) g
        → Removed rank h e (dropped g)
    remove_other differ g f =
        let size : g.nelements + 1 ≡ h.nelements = omega (arith, f.size) in
        let beside = f.kept e (λ s. differ (sym s)) in
        let out : ¬ (Holds g e) = λ still. (beside.0 still).1 refl in
        let absent : (i : ℕ) → i < g.nelements → read g i ≢ e = λ i p s.
          let index : g.chn_index e ≡ i = rw s at (f.heap.indexed i p) in
          out (omega arith, rw index s) in
        let at = dropped-read g in
        let field = dropped-chn_index g in
        let count = dropped-nelements g in
        let storage = dropped-storage g ∙ f.same_storage in
        record {
          well = record {
            heap = record {
              indexed =
                  λ i p. ground (arith, at i, field (read g i), count, f.heap.indexed i, absent i);
              ordered = λ i z p. ground (arith, at i, at (parent i), count, f.heap.ordered i);
            };
            stored = rw storage v.stored;
            room = omega (arith, v.room, count, ap (λ (t : Storage). t.hwm) storage);
          };
          size = omega (arith, count);
          gone = λ still. ground (arith, field e, count, v.room, v.stored.bounded);
          kept = λ x ne.
              let drop : Holds (dropped g) x ↔ Holds g x =
                ground (arith, at (g.chn_index x), field x, count) in
              elim (ℕ_discrete x last) [
                | yes is_last ↦ (
                  λ k. rw is_last (omega (arith, last_index), rw last_index),
                  λ k. drop.1 (rw is_last f.holds),
                )
                | no other ↦
                    let a = f.kept x other in
                    let b = HeldBeside-cut x differ ne other in
                    (λ k. b.0 (a.0 (drop.0 k)), λ k. drop.1 (a.1 (b.1 k)))
              ];
        }

    -- Removing a node that the heap holds takes it out of the heap and no other.
    pub remove_lem : Ends (Removed rank h e) (remove compare h e)
    unfolding remove
    remove_lem =
        let cur = h.chn_index e in
        let sane : not (cur == cbh_poison) ≡ true = ground (arith, v.room, v.stored.bounded) in
        let inside : ltb cur h.nelements ≡ true = ground arith in
        let there : (read h cur == e) ≡ true = rw held.1 (==_refl e) in
        rw (sane, inside, there)
          (Ends-if (last == e) (λ same. ends (remove_last (ground arith)))
            λ n.
              let differ : last ≢ e = λ s. ground arith in
              Ends-bind
                (relocate_lem rank compare order (settle cut last cur) last cur
                  (chn_index-settle cut last cur last ∙ rw (==_refl last))
                  (read-settle cut last cur cur ∙ rw (==_refl cur))
                  (HasHole-settle_self rank cut last cur (cut-HasHole differ)))
                λ g f. ends (remove_other differ g (Filled-settle_self f)))

  least_below :
      (h : Binheap)
      → IsHeap rank h
      → (k i : ℕ) → i < k
      → i < h.nelements
      → rank (read h 0) ≤ rank (read h i)
  least_below h v zero i f p = absurd (omega arith)
  least_below h v (suc k) i f p = ground (arith, v.ordered i, least_below h v k (parent i))

  -- No node of a heap is before its root.
  pub root_least :
      (h : Binheap) (e x : ℕ) → IsHeap rank h → root h ≡ some e → Holds h x → rank e ≤ rank x
  unfolding root find
  root_least h e x v r held =
      let least = least_below h v (suc (h.chn_index x)) (h.chn_index x) (omega arith) held.0 in
      let first : read h 0 ≡ e = ground arith in ground (arith, ap rank first, ap rank held.1)

  root_lem : (h : Binheap) → root h ≡ find h 0
  unfolding root
  root_lem h = refl

  find-none : (h : Binheap) → h.nelements ≡ 0 → find h 0 ≡ none
  unfolding find
  find-none h z = ground arith

  find-some : (h : Binheap) → h.nelements ≢ 0 → find h 0 ≡ some (read h 0)
  unfolding find
  find-some h z = ground arith

  -- The root of a heap that is not empty is a node that no other is before, and removing it removes
  -- that node and no other; an empty heap has no root and stays as it is.
  pub remove_root_lem :
      (h : Binheap) → IsWell rank h → Ends (RootRemoved rank h) (remove_root compare h)
  unfolding remove_root
  remove_root_lem h v = elim (ℕ_discrete h.nelements 0) [
    | yes z ↦ rw (find-none h z, remove_root) (ends (z, refl))
    | no nz ↦
        let e = read h 0 in
        let some_root : find h 0 ≡ some e = find-some h nz in
        let index : h.chn_index e ≡ 0 = v.heap.indexed 0 (omega arith) in
        let held : Holds h e = (omega arith, rw index) in
        rw (some_root, remove_root)
          (Ends-bind (remove_lem h e v held)
            λ h' r. ends (held, (λ x k. root_least h e x v.heap (root_lem h ∙ some_root) k), r))
  ]
