-- ===== src/Heap/Hole.antt =====
-- The heap order and the index fields, and the state of the two loops: one place, the hole, is
-- about to be filled with the node `e`.
use lustre_simulator.Base.{ℕ, ◌≤◌, ◌<◌, ◌≡◌, ◌≢◌, ◌↔◌, ◌∙◌, Bool, true, false, arith}
use lustre_simulator.Heap.{Binheap, read, settle, parent}
use lustre_simulator.Heap.Slots.{
  read-settle, chn_index-settle, nelements-settle, storage-settle, exits-settle,
}

-- `hop_compare` decides an order by a rank: it says yes only if the first node is not behind the
-- second, and no only if it is not before it.
abbrev pub IsOrder : (ℕ → ℕ) → (ℕ → ℕ → Bool) → Type 0
IsOrder rank compare =
    (a b : ℕ) → (compare a b ≡ true → rank a ≤ rank b) × (compare a b ≡ false → rank b ≤ rank a)

pub record IsHeap (rank : ℕ → ℕ) (h : Binheap) : Type 0 where
  pub indexed : (i : ℕ) → i < h.nelements → h.chn_index (read h i) ≡ i
  pub ordered : (i : ℕ) → 0 < i → i < h.nelements → rank (read h (parent i)) ≤ rank (read h i)

-- The heap holds the node `x`.
abbrev pub Holds : Binheap → ℕ → Type 0
Holds h x = (h.chn_index x < h.nelements) × (read h (h.chn_index x) ≡ x)

pub record HasHole (rank : ℕ → ℕ) (h : Binheap) (e cur : ℕ) : Type 0 where
  pub inside : cur < h.nelements
  pub indexed : (i : ℕ) → i < h.nelements → i ≢ cur → h.chn_index (read h i) ≡ i
  pub others : (i : ℕ) → i < h.nelements → i ≢ cur → read h i ≢ e
  pub ordered :
      (i : ℕ)
      → 0 < i
      → i < h.nelements
      → i ≢ cur
      → parent i ≢ cur
      → rank (read h (parent i)) ≤ rank (read h i)
  pub bridged :
      (i : ℕ)
      → 0 < i
      → i < h.nelements
      → parent i ≡ cur
      → 0 < cur
      → rank (read h (parent cur)) ≤ rank (read h i)

abbrev pub FitsBelow : (ℕ → ℕ) → Binheap → ℕ → ℕ → Type 0
FitsBelow rank h e cur =
    (i : ℕ) → 0 < i → i < h.nelements → parent i ≡ cur → rank e ≤ rank (read h i)

abbrev pub FitsAbove : (ℕ → ℕ) → Binheap → ℕ → ℕ → Type 0
FitsAbove rank h e cur = 0 < cur → rank (read h (parent cur)) ≤ rank e

-- The nodes outside the hole.
abbrev pub HeldBeside : Binheap → ℕ → ℕ → Type 0
HeldBeside h cur x =
    (h.chn_index x < h.nelements) × (h.chn_index x ≢ cur) × (read h (h.chn_index x) ≡ x)

-- What the loops leave behind: a heap that holds `e`, and of the others those outside the hole.
pub record Filled (rank : ℕ → ℕ) (h : Binheap) (e cur : ℕ) (h' : Binheap) : Type 0 where
  pub heap : IsHeap rank h'
  pub size : h'.nelements ≡ h.nelements
  pub holds : Holds h' e
  pub kept : (x : ℕ) → x ≢ e → Holds h' x ↔ HeldBeside h cur x
  pub same_storage : h'.storage ≡ h.storage
  pub same_exits : h'.exits ≡ h.exits

-- Filling a hole into which the node fits on both sides.
pub settle-Filled :
    (rank : ℕ → ℕ) (h : Binheap) (e cur : ℕ)
    → HasHole rank h e cur
    → FitsBelow rank h e cur
    → FitsAbove rank h e cur
    → Filled rank h e cur (settle h e cur)
settle-Filled rank h e cur v lo hi =
    let at = read-settle h e cur in
    let field = chn_index-settle h e cur in
    let size = nelements-settle h e cur in
    record {
      heap = record {
        indexed =
            λ i p. ground (arith, at i, field (read h i), field e, size, v.indexed i, v.others i);
        ordered =
            λ i p q. ground (arith, at i, at (parent i), size, v.ordered i, lo i, hi, v.bridged i);
      };
      size = size;
      holds = (ground (arith, field e, size, v.inside), ground (arith, field e, at cur));
      kept = λ x ne. (
        λ held. ground (arith, field x, at (h.chn_index x), size, held),
        λ beside. ground (arith, field x, at (h.chn_index x), size, beside),
      );
      same_storage = storage-settle h e cur;
      same_exits = exits-settle h e cur;
    }

-- Moving the node at `from` into the hole leaves a hole at `from`.
pub HeldBeside-settle :
    (rank : ℕ → ℕ) (h : Binheap) (e cur from x : ℕ)
    → HasHole rank h e cur
    → from < h.nelements
    → from ≢ cur
    → HeldBeside (settle h (read h from) cur) from x ↔ HeldBeside h cur x
HeldBeside-settle rank h e cur from x v p ne =
    let q = read h from in
    let at = read-settle h q cur in
    let field = chn_index-settle h q cur in
    let size = nelements-settle h q cur in
    (
      λ held.
          ground (arith, field x, at (h.chn_index x), at cur, size, held, v.indexed from, v.inside),
      λ beside.
          ground
            (arith, field x, at (h.chn_index x), at cur, size, beside, v.indexed from, v.inside),
    )

pub Filled-settle :
    {rank : ℕ → ℕ} {h h' : Binheap} {e cur from : ℕ}
    → HasHole rank h e cur
    → from < h.nelements
    → from ≢ cur
    → Filled rank (settle h (read h from) cur) e from h'
    → Filled rank h e cur h'
Filled-settle {rank} {h} {h'} {e} {cur} {from} v p ne f =
    let q = read h from in
    record {
      heap = f.heap;
      size = f.size ∙ nelements-settle h q cur;
      holds = f.holds;
      kept = λ x other.
          let step = HeldBeside-settle rank h e cur from x v p ne in
          let rest = f.kept x other in
          (λ held. step.0 (rest.0 held), λ beside. rest.1 (step.1 beside));
      same_storage = f.same_storage ∙ storage-settle h q cur;
      same_exits = f.same_exits ∙ exits-settle h q cur;
    }

-- The hole may hold the node already.
pub HasHole-settle_self :
    (rank : ℕ → ℕ) (h : Binheap) (e cur : ℕ)
    → HasHole rank h e cur
    → HasHole rank (settle h e cur) e cur
HasHole-settle_self rank h e cur v =
    let at = read-settle h e cur in
    let field = chn_index-settle h e cur in
    let size = nelements-settle h e cur in
    record {
      inside = omega (arith, size, v.inside);
      indexed = λ i p ne. ground (arith, at i, field (read h i), size, v.indexed i, v.others i);
      others = λ i p ne. ground (arith, at i, size, v.others i);
      ordered = λ i z p ne np. ground (arith, at i, at (parent i), size, v.ordered i);
      bridged = λ i z p np z'. ground (arith, at i, at (parent cur), size, v.bridged i);
    }

pub FitsAbove-settle_self :
    (rank : ℕ → ℕ) (h : Binheap) (e cur : ℕ)
    → FitsAbove rank h e cur
    → FitsAbove rank (settle h e cur) e cur
FitsAbove-settle_self rank h e cur above z =
    ground (arith, read-settle h e cur (parent cur), above z)

pub HeldBeside-settle_self :
    (h : Binheap) (e cur x : ℕ) → x ≢ e → HeldBeside (settle h e cur) cur x ↔ HeldBeside h cur x
HeldBeside-settle_self h e cur x ne =
    let at = read-settle h e cur in
    let field = chn_index-settle h e cur in
    let size = nelements-settle h e cur in
    (
      λ held. ground (arith, field x, at (h.chn_index x), size, held),
      λ beside. ground (arith, field x, at (h.chn_index x), size, beside),
    )

pub Filled-settle_self :
    {rank : ℕ → ℕ} {h h' : Binheap} {e cur : ℕ}
    → Filled rank (settle h e cur) e cur h'
    → Filled rank h e cur h'
Filled-settle_self {rank} {h} {h'} {e} {cur} f = record {
  heap = f.heap;
  size = f.size ∙ nelements-settle h e cur;
  holds = f.holds;
  kept = λ x other.
      let step = HeldBeside-settle_self h e cur x other in
      let rest = f.kept x other in (λ held. step.0 (rest.0 held), λ beside. rest.1 (step.1 beside));
  same_storage = f.same_storage ∙ storage-settle h e cur;
  same_exits = f.same_exits ∙ exits-settle h e cur;
}
