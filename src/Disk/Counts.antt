-- ===== src/Disk/Counts.antt =====
-- lustre/disk.cpp: the elevator's counts are those of the requests that the disk has.
use lustre_simulator.Base.{
  Bool-cases, inl, inr, ◌-◌, ◌==◌, ℕ, ◌+◌, ◌≡◌, ◌≤◌, arith, refl, sym, ap, ◌∙◌, Bool, true, false,
  Option, none, some, List, [], ◌∷◌, if◌then◌else◌,
}
use lustre_simulator.Elevator.{
  on_hash, same_command, reads, writes, Request, lower_count, Command, Elevator,
}
use lustre_simulator.Elevator.Tally.{unit_of, tally, tally_kinds, tally-append}
use lustre_simulator.Elevator.Dispatch.Put.{IsCounted}
use lustre_simulator.Disk.{DiskState, idle_state, work_state, req_finished_state, Disk}
use lustre_simulator.Disk.Unplug.{woken, IsSubmitted}

-- The request in progress, if there is one.
abbrev pub serving_in : DiskState → Option ℕ → List ℕ
serving_in req_finished_state (some r) = r ∷ []
serving_in _ _ = []

abbrev pub serving : Disk → List ℕ
serving d = serving_in d.state d.curq

-- The requests of the policy's list are neither ready nor in progress.
abbrev pub IsApart : List ℕ → List ℕ → List ℕ → Type 0
IsApart queue ready served =
    (x : ℕ) → on_hash x queue ≡ true → (on_hash x ready ≡ false) × (on_hash x served ≡ false)

pub empty-IsApart : (queue ready served : List ℕ) → queue ≡ [] → IsApart queue ready served
empty-IsApart queue ready served e x here =
    absurd (let none_here : on_hash x queue ≡ false = ap (on_hash x) e in cc)

pub next-IsApart :
    (queue : List ℕ) (r : ℕ) (rest : List ℕ)
    → IsApart queue (r ∷ rest) []
    → IsApart queue rest (r ∷ [])
next-IsApart queue r rest apart x here =
    let (out, _) = apart x here in
    elim (Bool-cases (r == x)) [
      | inl same ↦ absurd (ground arith)
      | inr other ↦ (ground arith, rw other refl)
    ]

-- The elevator's counts are those of its requests, of the ready ones and of the one in progress.
abbrev pub IsExact : Elevator → List ℕ → List ℕ → Type 0
IsExact s ready served =
    (c : Command)
    → s.counts c
      ≡ tally c s.requests s.queue + (tally c s.requests ready + tally c s.requests served)

pub woken_serving :
    (state : DiskState) (curq : Option ℕ) (rs : List ℕ)
    → serving_in (woken state rs) curq ≡ serving_in state curq
woken_serving idle_state curq [] = refl
woken_serving idle_state curq (r ∷ rs) = refl
woken_serving work_state curq [] = refl
woken_serving work_state curq (r ∷ rs) = refl
woken_serving req_finished_state curq [] = refl
woken_serving req_finished_state curq (r ∷ rs) = refl

-- The counts after the requests of the policy's list have become ready.
drained_count :
    (queue ready served : ℕ) {before after queue' ready' served' : ℕ}
    → before ≡ queue + (ready + served)
    → after ≡ before
    → queue' ≡ 0
    → ready' ≡ ready + queue
    → served' ≡ served
    → after ≡ queue' + (ready' + served')
drained_count queue ready served a b c d e = omega arith

pub drained-IsExact :
    (d d' : Disk)
    → IsExact d.elevator d.ready (serving d)
    → IsSubmitted (record d { pluged = false; timer = none }) d.elevator.queue d'
    → d'.elevator.queue ≡ []
    → IsExact d'.elevator d'.ready (serving d')
drained-IsExact d d' exact v line c =
    let old = d.elevator.requests in
    let new = d'.elevator.requests in
    let moved = λ (xs : List ℕ). tally_kinds c old new xs v.kinds in
    let same_serving : serving d' ≡ serving d =
      ap (λ x. serving_in x d'.curq) v.state
      ∙ ap (λ x. serving_in (woken d.state d.elevator.queue) x) v.curq
      ∙ woken_serving d.state d.curq d.elevator.queue in
    drained_count (tally c old d.elevator.queue) (tally c old d.ready) (tally c old (serving d))
      (exact c) (ap (λ f. f c) v.counts) (ap (tally c new) line)
      (moved d'.ready ∙ ap (tally c old) v.ready ∙ tally-append c old d.ready d.elevator.queue)
      (moved (serving d') ∙ ap (tally c old) same_serving)

pub more_count : (n more : ℕ) {count : ℕ} → count ≡ n + more → n ≤ count
more_count n more e = omega arith

-- The counts after an I/O request has gone into the elevator.
pub told_count :
    (queue ready served before queue' : ℕ) {after ready' served' : ℕ}
    → before ≡ queue + (ready + served)
    → after + queue ≡ before + queue'
    → ready' ≡ ready
    → served' ≡ served
    → after ≡ queue' + (ready' + served')
told_count queue ready served before queue' a b c d = omega arith

-- The next request goes from the ready ones into progress.
moved_count :
    (queue one ready : ℕ) {count : ℕ}
    → count ≡ queue + ((one + ready) + 0)
    → count ≡ queue + (ready + (one + 0))
moved_count queue one ready e = omega arith

pub next-IsExact :
    (s : Elevator) (r : ℕ) (rest : List ℕ) → IsExact s (r ∷ rest) [] → IsExact s rest (r ∷ [])
next-IsExact s r rest exact c =
    moved_count (tally c s.requests s.queue) (unit_of c (s.requests r)) (tally c s.requests rest)
      (exact c)

same_command_refl : (k : Command) → same_command k k ≡ true
same_command_refl reads = refl
same_command_refl writes = refl

some_count : (queue ready count : ℕ) → count ≡ queue + (ready + (1 + 0)) → count == 0 ≡ false
some_count queue ready count e = ground arith

-- The request in progress counts among those of its kind.
pub exact-IsCounted :
    (s : Elevator) (r : ℕ) (ready : List ℕ) → IsExact s ready (r ∷ []) → IsCounted r s
exact-IsCounted s r ready exact =
    let k = (s.requests r).cmd in
    some_count (tally k s.requests s.queue) (tally k s.requests ready) (s.counts k) (
      exact k
      ∙ ap
          (λ b.
            tally k s.requests s.queue + (tally k s.requests ready + ((if b then 1 else 0) + 0)))
          (same_command_refl k))

ended_count :
    (b : Bool) (queue ready count : ℕ) {queue' ready' : ℕ}
    → count ≡ queue + (ready + ((if b then 1 else 0) + 0))
    → queue' ≡ queue
    → ready' ≡ ready
    → (if b then count - 1 else count) ≡ queue' + (ready' + 0)
ended_count true queue ready count e f g = omega arith
ended_count false queue ready count e f g = omega arith

-- The counts once the request in progress has been put.
pub ended-IsExact :
    (s : Elevator) (r : ℕ) (ready : List ℕ) (requests : ℕ → Request) (k : Command)
    → IsExact s ready (r ∷ [])
    → ((x : ℕ) → (requests x).cmd ≡ (s.requests x).cmd)
    → k ≡ (s.requests r).cmd
    → (c : Command)
    → lower_count k s.counts c ≡ tally c requests s.queue + (tally c requests ready + 0)
ended-IsExact s r ready requests k exact kinds is c =
    ended_count (same_command k c) (tally c s.requests s.queue) (tally c s.requests ready)
      (s.counts c)
      (exact c
        ∙ ap
            (λ x.
              tally c s.requests s.queue
              + (tally c s.requests ready + ((if same_command x c then 1 else 0) + 0)))
            (sym is))
      (tally_kinds c s.requests requests s.queue kinds)
      (tally_kinds c s.requests requests ready kinds)
