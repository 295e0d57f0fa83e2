-- ===== src/Elevator/Lists.antt =====
-- The order of the elevator's lists, which every operation keeps.
use lustre_simulator.Base.{
  ℕ, ◌≡◌, refl, sym, ap, ◌∙◌, true, false, some, List, [], ◌∷◌, ◌++◌, ◌==◌, if◌then◌else◌, inl, inr,
  Bool-cases, arith,
}
use lustre_simulator.Elevator.{Request, Elevator, no_ioreq, without, on_hash}
use lustre_simulator.Elevator.Bytes.{IsDistinct, on_hash-without, on_hash-without-other}

-- What the elevator's lists keep: the policy's list has no request twice, and has the request that
-- was merged last and every hashed one, and every request of it has an I/O request.
abbrev pub IsFilled : (ℕ → Request) → List ℕ → Type 0
IsFilled requests xs = (x : ℕ) → on_hash x xs ≡ true → no_ioreq (requests x).batch ≡ false

pub record IsElevator (s : Elevator) : Type 0 where
  pub distinct : IsDistinct s.queue
  pub last : (l : ℕ) → s.last ≡ some l → on_hash l s.queue ≡ true
  pub hashed : (x : ℕ) → on_hash x s.hash ≡ true → on_hash x s.queue ≡ true
  pub filled : IsFilled s.requests s.queue

-- A request that gets a batch which is not empty.
pub set-IsFilled :
    (requests : ℕ → Request) (r : ℕ) (q : Request) (xs : List ℕ)
    → no_ioreq q.batch ≡ false
    → IsFilled requests xs
    → IsFilled (λ i. if i == r then q else requests i) xs
set-IsFilled requests r q xs some_ioreq filled x here = elim (Bool-cases (x == r)) [
  | inl at ↦ rw at some_ioreq
  | inr apart ↦ rw apart (filled x here)
]

-- One that keeps its batch.
pub set-batch :
    (requests : ℕ → Request) (r : ℕ) (q : Request)
    → q.batch ≡ (requests r).batch
    → (x : ℕ) → (if x == r then q else requests x).batch ≡ (requests x).batch
set-batch requests r q same x = elim (Bool-cases (x == r)) [
  | inl at ↦
      let e : x ≡ r = ground arith in rw at (same ∙ ap (λ (i : ℕ). (requests i).batch) (sym e))
  | inr other ↦ rw other refl
]

pub no_ioreq-append : (xs ys : List ℕ) → no_ioreq xs ≡ false → no_ioreq (xs ++ ys) ≡ false
no_ioreq-append [] ys h = cc
no_ioreq-append (x ∷ xs) ys h = refl

pub no_ioreq-last : (xs : List ℕ) (e : ℕ) → no_ioreq (xs ++ e ∷ []) ≡ false
no_ioreq-last [] e = refl
no_ioreq-last (x ∷ xs) e = refl

without_less : (n x : ℕ) (xs : List ℕ) → on_hash x xs ≡ false → on_hash x (without n xs) ≡ false
without_less n x [] out = refl
without_less n x (y ∷ xs) out = ground (arith, without_less n x xs)

pub without-IsDistinct : (n : ℕ) (xs : List ℕ) → IsDistinct xs → IsDistinct (without n xs)
without-IsDistinct n [] d = tt
without-IsDistinct n (x ∷ xs) (new, d) = elim (Bool-cases (x == n)) [
  | inl same ↦ rw same (without-IsDistinct n xs d)
  | inr other ↦ rw other (without_less n x xs new, without-IsDistinct n xs d)
]

on_hash-append :
    (x r : ℕ) (xs : List ℕ) → on_hash x (xs ++ r ∷ []) ≡ (if on_hash x xs then true else r == x)
on_hash-append x r [] = ground arith
on_hash-append x r (y ∷ xs) = ground (arith, on_hash-append x r xs)

pub append-IsDistinct :
    (r : ℕ) (xs : List ℕ) → IsDistinct xs → on_hash r xs ≡ false → IsDistinct (xs ++ r ∷ [])
append-IsDistinct r [] d new = (refl, tt)
append-IsDistinct r (x ∷ xs) (fresh, d) new =
    (ground (arith, on_hash-append x r xs), append-IsDistinct r xs d (ground arith))

-- A request of the longer list is of the shorter one, or the new one.
pub append_other :
    (x r : ℕ) (xs : List ℕ)
    → (r == x) ≡ false
    → on_hash x (xs ++ r ∷ []) ≡ true
    → on_hash x xs ≡ true
append_other x r xs other here = let e = on_hash-append x r xs in ground arith

pub append_member : (x r : ℕ) (xs : List ℕ) → on_hash x xs ≡ true → on_hash x (xs ++ r ∷ []) ≡ true
append_member x r xs here = on_hash-append x r xs ∙ rw here refl

pub append_new : (r : ℕ) (xs : List ℕ) → on_hash r (xs ++ r ∷ []) ≡ true
append_new r xs = ground (arith, on_hash-append r r xs)

pub newest_member :
    (r l : ℕ) (xs : List ℕ) → some r ≡ some l → on_hash r xs ≡ true → on_hash l xs ≡ true
newest_member r l xs e here = let at : r ≡ l = cc in ap (λ (i : ℕ). on_hash i xs) (sym at) ∙ here

pub without_member : (n x : ℕ) (xs : List ℕ) → on_hash x (without n xs) ≡ true → on_hash x xs ≡ true
without_member n x xs here = elim (Bool-cases (on_hash x xs)) [
  | inl there ↦ there
  | inr gone ↦ let out = without_less n x xs gone in absurd cc
]

module _ (s : Elevator) (v : IsElevator s) (r : ℕ) (has_r : on_hash r s.queue ≡ true) where
  -- A request of the list may be hashed anew.
  pub reposition_member :
      (x : ℕ) → on_hash x (r ∷ without r s.hash) ≡ true → on_hash x s.queue ≡ true
  reposition_member x here = elim (Bool-cases (r == x)) [
    | inl same ↦ let e : r ≡ x = ground arith in ap (λ (i : ℕ). on_hash i s.queue) (sym e) ∙ has_r
    | inr other ↦ v.hashed x (elim (Bool-cases (on_hash x s.hash)) [
      | inl there ↦ there
      | inr gone ↦ absurd (ground (arith, without_less r x s.hash gone))
    ])
  ]

  -- And another one may leave the list and the table.
  pub merged_member :
      (n x : ℕ)
      → on_hash x (without n (r ∷ without r s.hash)) ≡ true
      → on_hash x (without n s.queue) ≡ true
  merged_member n x here =
      let kept : on_hash x (r ∷ without r s.hash) ≡ true =
        elim (Bool-cases (on_hash x (r ∷ without r s.hash))) [
          | inl there ↦ there
          | inr gone ↦ let out = without_less n x (r ∷ without r s.hash) gone in absurd cc
        ] in
      elim (Bool-cases (n == x)) [
        | inl same ↦
            let e : n ≡ x = ground arith in
            let out = on_hash-without n (r ∷ without r s.hash) in
            let out' : on_hash x (without n (r ∷ without r s.hash)) ≡ false =
              ap (λ (i : ℕ). on_hash i (without n (r ∷ without r s.hash))) (sym e) ∙ out in
            absurd cc
        | inr other ↦
            on_hash-without-other x n s.queue (λ e. ground arith) (reposition_member x kept)
      ]
