-- ===== src/Elevator/Tally.antt =====
-- lustre/elevator.cpp: how many requests of each kind a list has, as `count` is to say.
use lustre_simulator.Base.{
  ℕ, ◌+◌, ◌-◌, ◌≤◌, ◌≡◌, ◌≢◌, inl, inr, refl, sym, ap, ◌∙◌, Bool, true, false, List, [], ◌∷◌, ◌++◌,
  ◌==◌, if◌then◌else◌, Bool-cases, arith,
}
use lustre_simulator.Elevator.{
  Command, same_command, Request, Elevator, without, on_hash, lower_count,
}
use lustre_simulator.Elevator.Bytes.{IsDistinct, without_absent}

abbrev pub unit_of : Command → Request → ℕ
unit_of c q = if same_command q.cmd c then 1 else 0

-- The requests of a kind.
abbrev pub tally : Command → (ℕ → Request) → List ℕ → ℕ
tally c requests [] = 0
tally c requests (x ∷ xs) = unit_of c (requests x) + tally c requests xs

-- The counts cover the requests of the policy's list.
abbrev pub HasCounts : Elevator → Type 0
HasCounts s = (c : Command) → tally c s.requests s.queue ≤ s.counts c

-- The counts change as the requests of the policy's list do.
abbrev pub IsTallied : Elevator → Elevator → Type 0
IsTallied s s' =
    HasCounts s
    → (c : Command)
    → s'.counts c + tally c s.requests s.queue ≡ s.counts c + tally c s'.requests s'.queue

-- No request changes its kind.
abbrev pub SameKinds : Elevator → Elevator → Type 0
SameKinds s s' = (x : ℕ) → (s'.requests x).cmd ≡ (s.requests x).cmd

pub set-cmd :
    (requests : ℕ → Request) (r : ℕ) (q : Request)
    → q.cmd ≡ (requests r).cmd
    → (x : ℕ) → (if x == r then q else requests x).cmd ≡ (requests x).cmd
set-cmd requests r q same x = elim (Bool-cases (x == r)) [
  | inl at ↦ let e : x ≡ r = ground arith in rw at (same ∙ ap (λ (i : ℕ). (requests i).cmd) (sym e))
  | inr other ↦ rw other refl
]

pub tally_kinds :
    (c : Command) (requests requests' : ℕ → Request) (xs : List ℕ)
    → ((x : ℕ) → (requests' x).cmd ≡ (requests x).cmd)
    → tally c requests' xs ≡ tally c requests xs
tally_kinds c requests requests' [] same = refl
tally_kinds c requests requests' (x ∷ xs) same =
    let first : unit_of c (requests' x) ≡ unit_of c (requests x) =
      ap (λ k. if same_command k c then 1 else 0) (same x) in
    omega (arith, tally_kinds c requests requests' xs same)

pub tally-append :
    (c : Command) (requests : ℕ → Request) (xs ys : List ℕ)
    → tally c requests (xs ++ ys) ≡ tally c requests xs + tally c requests ys
tally-append c requests [] ys = omega arith
tally-append c requests (x ∷ xs) ys = omega (arith, tally-append c requests xs ys)

-- Nor does it matter where only a request outside the list changes its kind.
pub tally_others :
    (c : Command) (requests requests' : ℕ → Request) (r : ℕ) (xs : List ℕ)
    → ((x : ℕ) → x ≢ r → (requests' x).cmd ≡ (requests x).cmd)
    → on_hash r xs ≡ false
    → tally c requests' xs ≡ tally c requests xs
tally_others c requests requests' r [] same out = refl
tally_others c requests requests' r (x ∷ xs) same out =
    let apart : x ≢ r = λ e. ground arith in
    let first : unit_of c (requests' x) ≡ unit_of c (requests x) =
      ap (λ k. if same_command k c then 1 else 0) (same x apart) in
    omega (arith, tally_others c requests requests' r xs same (ground arith))

-- A request outside the list does not matter.
pub tally_outside :
    (c : Command) (requests : ℕ → Request) (r : ℕ) (q : Request) (xs : List ℕ)
    → on_hash r xs ≡ false
    → tally c (λ i. if i == r then q else requests i) xs ≡ tally c requests xs
tally_outside c requests r q [] out = refl
tally_outside c requests r q (x ∷ xs) out = elim (Bool-cases (x == r)) [
  | inl at ↦ absurd (ground arith)
  | inr other ↦
      rw other
        (ap (λ n. unit_of c (requests x) + n) (tally_outside c requests r q xs (ground arith)))
]

pub tally-without :
    (c : Command) (requests : ℕ → Request) (n : ℕ) (xs : List ℕ)
    → IsDistinct xs
    → on_hash n xs ≡ true
    → tally c requests (without n xs) + unit_of c (requests n) ≡ tally c requests xs
tally-without c requests n [] d here = absurd cc
tally-without c requests n (x ∷ xs) (new, d) here = elim (Bool-cases (x == n)) [
  | inl same ↦
      let e : x ≡ n = ground arith in
      let gone = without_absent n xs (ap (λ (i : ℕ). on_hash i xs) (sym e) ∙ new) in
      let at : unit_of c (requests x) ≡ unit_of c (requests n) =
        ap (λ (i : ℕ). unit_of c (requests i)) e in
      rw (same, gone) (omega arith)
  | inr other ↦ rw other (omega (arith, tally-without c requests n xs d (ground arith)))
]

-- A request of the list that is merged away is counted no more.
pub lower_count_lem :
    (k c : Command) (counts : Command → ℕ) (before after : ℕ)
    → after + (if same_command k c then 1 else 0) ≡ before
    → before ≤ counts c
    → lower_count k counts c + before ≡ counts c + after
lower_count_lem k c counts before after one enough = by_test (same_command k c) one
  where
    by_test :
        (b : Bool)
        → after + (if b then 1 else 0) ≡ before
        → (if b then counts c - 1 else counts c) + before ≡ counts c + after
    by_test true one = omega arith
    by_test false one = omega arith
