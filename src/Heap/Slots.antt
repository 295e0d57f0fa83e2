-- ===== src/Heap/Slots.antt =====
-- The three levels of indirection are one array: every index has a place of its own.
use lustre_simulator.Base.{
  ℕ, ◌+◌, ◌*◌, ◌<◌, ◌≡◌, refl, sym, ap, ◌∙◌, inl, inr, true, arith, ◌==◌, ==_iff, if◌then◌else◌,
  Bool-cases,
}
use lustre_simulator.Heap.{
  cbh_size, Slot, single, double, triple, slot_eq, Binheap, pointer, read, write, set_index, settle,
}

-- The index of a place.
pub index_of : Slot → ℕ
index_of (single a) = a
index_of (double a b) = cbh_size + a * cbh_size + b
index_of (triple a b c) =
    cbh_size + cbh_size * cbh_size + a * (cbh_size * cbh_size) + b * cbh_size + c

abbrev pub IsInRange : Slot → Type 0
IsInRange (single a) = a < cbh_size
IsInRange (double a b) = (a < cbh_size) × (b < cbh_size)
IsInRange (triple a b c) = (a < cbh_size) × (b < cbh_size) × (c < cbh_size)

-- What the three levels hold together.
abbrev pub capacity : ℕ
capacity = cbh_size + cbh_size * cbh_size + cbh_size * cbh_size * cbh_size

pointer_back : (i : ℕ) → index_of (pointer i) ≡ i
unfolding pointer index_of
pointer_back i = ground arith

-- The place of an index that the levels can hold is inside a fragment at each level, and the index
-- can be computed back from it: no two indices share a place.
pub pointer-index_of : (i : ℕ) → i < capacity → (index_of (pointer i) ≡ i) × IsInRange (pointer i)
unfolding pointer
pointer-index_of i h = (pointer_back i, ground arith)

slot_eq_refl : (s : Slot) → slot_eq s s ≡ true
slot_eq_refl (single a) = ground arith
slot_eq_refl (double a b) = ground arith
slot_eq_refl (triple a b c) = ground arith

slot_eq_sound : (s t : Slot) → slot_eq s t ≡ true → s ≡ t
slot_eq_sound (single a) (single b) h = ground arith
slot_eq_sound (double a b) (double c d) h = ground arith
slot_eq_sound (triple a b c) (triple d e f) h = ground arith
slot_eq_sound _ _ h = cc

pointer_eq : (i j : ℕ) → slot_eq (pointer i) (pointer j) ≡ (i == j)
pointer_eq i j = elim (Bool-cases (i == j)) [
  | inl same ↦ rw (same, (==_iff i j).0 same) (slot_eq_refl (pointer j))
  | inr differ ↦ elim (Bool-cases (slot_eq (pointer i) (pointer j))) [
    | inl e ↦
        let back = ap index_of (slot_eq_sound (pointer i) (pointer j) e) in
        ground (arith, pointer_back i, pointer_back j)
    | inr n ↦ n ∙ sym differ
  ]
]

-- A write is seen at its own index only.
pub read-write : (h : Binheap) (i j e : ℕ) → read (write h i e) j ≡ (if i == j then e else read h j)
unfolding read write
read-write h i j e = rw (pointer_eq i j)

pub read-set_index : (h : Binheap) (e i j : ℕ) → read (set_index h e i) j ≡ read h j
unfolding read set_index
read-set_index h e i j = refl

pub read-settle :
    (h : Binheap) (e i j : ℕ) → read (settle h e i) j ≡ (if i == j then e else read h j)
unfolding settle
read-settle h e i j = read-write (set_index h e i) i j e ∙ rw (read-set_index h e i j)

pub chn_index-settle :
    (h : Binheap) (e i m : ℕ) → (settle h e i).chn_index m ≡ (if e == m then i else h.chn_index m)
unfolding settle set_index write
chn_index-settle h e i m = refl

pub nelements-settle : (h : Binheap) (e i : ℕ) → (settle h e i).nelements ≡ h.nelements
unfolding settle set_index write
nelements-settle h e i = refl

pub storage-settle : (h : Binheap) (e i : ℕ) → (settle h e i).storage ≡ h.storage
unfolding settle set_index write
storage-settle h e i = refl

pub exits-settle : (h : Binheap) (e i : ℕ) → (settle h e i).exits ≡ h.exits
unfolding settle set_index write
exits-settle h e i = refl

-- Reading depends on the places alone.
pub read-elements : (h h' : Binheap) (i : ℕ) → h.elements ≡ h'.elements → read h i ≡ read h' i
unfolding read
read-elements h h' i e = ap (λ (f : Slot → ℕ). f (pointer i)) e
