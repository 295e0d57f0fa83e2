-- ===== src/Elevator/Bytes.antt =====
-- The bytes of a list of requests, and the lists' neighbours.
use lustre_simulator.Base.{
  ℕ, ◌+◌, ◌≤◌, ◌≡◌, ◌≢◌, inl, inr, refl, sym, ap, ◌∙◌, true, false, some, List, [], ◌∷◌, ◌++◌, ◌==◌,
  if◌then◌else◌, Bool-cases, arith,
}
use lustre_simulator.Elevator.{Request, Elevator, without, on_hash, latter, former}

-- The bytes of the requests of a list.
abbrev pub bytes : (ℕ → Request) → List ℕ → ℕ
bytes requests [] = 0
bytes requests (x ∷ xs) = (requests x).count + bytes requests xs

abbrev pub queued_bytes : Elevator → ℕ
queued_bytes s = bytes s.requests s.queue

abbrev pub IsDistinct : List ℕ → Type 0
IsDistinct [] = Unit {0}
IsDistinct (x ∷ xs) = (on_hash x xs ≡ false) × IsDistinct xs

pub without_absent : (n : ℕ) (xs : List ℕ) → on_hash n xs ≡ false → without n xs ≡ xs
without_absent n [] out = refl
without_absent n (x ∷ xs) out = ground (arith, without_absent n xs)

module _ (requests : ℕ → Request) where
  pub bytes_member :
      (r : ℕ) (xs : List ℕ) → on_hash r xs ≡ true → (requests r).count ≤ bytes requests xs
  bytes_member r [] here = absurd cc
  bytes_member r (x ∷ xs) here = elim (Bool-cases (x == r)) [
    | inl same ↦
        let at : (requests x).count ≡ (requests r).count =
          ap (λ (i : ℕ). (requests i).count) (ground arith) in
        omega arith
    | inr other ↦ ground (arith, bytes_member r xs)
  ]

  pub bytes-append :
      (xs : List ℕ) (x : ℕ) → bytes requests (xs ++ x ∷ []) ≡ bytes requests xs + (requests x).count
  bytes-append [] x = omega arith
  bytes-append (y ∷ xs) x = omega (arith, bytes-append xs x)

  -- A request outside the list does not matter.
  pub bytes_outside :
      (r : ℕ) (q : Request) (xs : List ℕ)
      → on_hash r xs ≡ false
      → bytes (λ i. if i == r then q else requests i) xs ≡ bytes requests xs
  bytes_outside r q [] out = refl
  bytes_outside r q (x ∷ xs) out = ground (arith, bytes_outside r q xs)

  -- One inside counts once.
  pub bytes_inside :
      (r : ℕ) (q : Request) (xs : List ℕ)
      → IsDistinct xs
      → on_hash r xs ≡ true
      → bytes (λ i. if i == r then q else requests i) xs + (requests r).count
        ≡ bytes requests xs + q.count
  bytes_inside r q [] d here = absurd cc
  bytes_inside r q (x ∷ xs) (new, d) here = elim (Bool-cases (x == r)) [
    | inl same ↦
        let e : x ≡ r = ground arith in
        let rest = bytes_outside r q xs (ap (λ (i : ℕ). on_hash i xs) (sym e) ∙ new) in
        let at : (requests x).count ≡ (requests r).count = ap (λ (i : ℕ). (requests i).count) e in
        rw same (omega arith)
    | inr other ↦ rw other (ground (arith, bytes_inside r q xs d))
  ]

  pub bytes-without :
      (n : ℕ) (xs : List ℕ)
      → IsDistinct xs
      → on_hash n xs ≡ true
      → bytes requests (without n xs) + (requests n).count ≡ bytes requests xs
  bytes-without n [] d here = absurd cc
  bytes-without n (x ∷ xs) (new, d) here = elim (Bool-cases (x == n)) [
    | inl same ↦
        let e : x ≡ n = ground arith in
        let gone = without_absent n xs (ap (λ (i : ℕ). on_hash i xs) (sym e) ∙ new) in
        let at : (requests x).count ≡ (requests n).count = ap (λ (i : ℕ). (requests i).count) e in
        rw (same, gone) (omega arith)
    | inr other ↦ rw other (ground (arith, bytes-without n xs d))
  ]

pub on_hash-without : (n : ℕ) (xs : List ℕ) → on_hash n (without n xs) ≡ false
on_hash-without n [] = refl
on_hash-without n (x ∷ xs) = ground (arith, on_hash-without n xs)

pub latter_lem :
    (r n : ℕ) (xs : List ℕ) → IsDistinct xs → latter r xs ≡ some n → (on_hash n xs ≡ true) × (n ≢ r)
unfolding latter
latter_lem r n [] d e = absurd cc
latter_lem r n (x ∷ []) d e = ground arith
latter_lem r n (x ∷ y ∷ ys) (new, d) e = ground (arith, latter_lem r n (y ∷ ys) d)

pub former_lem :
    (r n : ℕ) (xs : List ℕ) → IsDistinct xs → former r xs ≡ some n → (on_hash n xs ≡ true) × (n ≢ r)
unfolding former
former_lem r n [] d e = absurd cc
former_lem r n (x ∷ []) d e = absurd cc
former_lem r n (x ∷ y ∷ ys) (new, d) e = ground (arith, former_lem r n (y ∷ ys) d)

pub on_hash-without-other :
    (r n : ℕ) (xs : List ℕ) → n ≢ r → on_hash r xs ≡ true → on_hash r (without n xs) ≡ true
on_hash-without-other r n [] differ here = here
on_hash-without-other r n (x ∷ xs) differ here = ground (arith, on_hash-without-other r n xs differ)
