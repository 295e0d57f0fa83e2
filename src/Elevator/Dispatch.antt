-- ===== src/Elevator/Dispatch.antt =====
-- lustre/elevator.cpp and lustre/elvnoop.cpp: how a request is given to the disk, and its end.
pub mod Given
pub mod Put
use lustre_simulator.Base.{
  ℕ, zero, suc, ◌+◌, ◌-◌, ◌%◌, ◌^◌, Bool, true, false, ◌&&◌, ◌||◌, not, Option, none, some, List,
  [], ◌∷◌, ◌++◌, ltb, leb, ◌==◌, if◌then◌else◌,
}
use lustre_simulator.Base.Run.{Run, ok, fault, out_of_fuel, ◌>>=◌, ◌>>◌, assert, or_fault}
use lustre_simulator.Base.Words.{u64, sub_u64}
use lustre_simulator.Elevator.{
  Command, same_command, Request, Elevator, set_request, lower_count, elv_rqhash_del,
}

-- Before the last request of the list that stops the search, if there is one.
abbrev pub insert_before : (ℕ → Bool) → ℕ → List ℕ → Option (List ℕ)
insert_before stops r [] = none
insert_before stops r (x ∷ xs) = elim (insert_before stops r xs) [
  | some ys ↦ some (x ∷ ys)
  | none ↦ if stops x then some (r ∷ x ∷ xs) else none
]

-- `ElvDispatchSort`. Its first test is an assignment, so `last` is null after it.
unfoldable pub elv_dispatch_sort : ℕ → Elevator → Elevator
elv_dispatch_sort r s =
    let q = s.requests r in
    let stops = λ (x : ℕ).
      let o = s.requests x in
      not (same_command q.cmd o.cmd) || o.stops || (ltb q.off s.endpos && leb s.endpos o.off) in
    let placed : List ℕ = elim (insert_before stops r s.dispatch) [
      | none ↦ s.dispatch ++ r ∷ []
      | some ys ↦ ys
    ] in
    let unhashed = elv_rqhash_del r (record s { last = none }) in
    record unhashed { sorted = sub_u64 s.sorted 1; dispatch = placed }

-- `ElvNoop::Dispatch`
unfoldable pub dispatch_one : Elevator → Bool × Elevator
dispatch_one s = elim s.queue [
  | [] ↦ (false, s)
  | r ∷ rest ↦ (true, elv_dispatch_sort r (record s { queue = rest }))
]

-- Two rounds at most: a round that moves a request leaves one to take.
unfoldable pub elv_next_request : ℕ → Elevator → Run (Option ℕ × Elevator)
elv_next_request zero s = out_of_fuel
elv_next_request (suc k) s =
    let (moved, s') = dispatch_one s in
    let rest = elv_next_request k s' in
    elim s.dispatch [
      | r ∷ others ↦ ok (some r, record s { dispatch = others })
      | [] ↦ if moved then rest else ok (none, s)
    ]

abbrev pub is_boundary : Option ℕ → ℕ → Bool
is_boundary none r = true
is_boundary (some b) r = b == r

-- `rq_end_pos` adds the offset to itself.
unfoldable pub take_request : ℕ → Elevator → Elevator
take_request r s =
    let q = s.requests r in
    let started = set_request r (record q { stops = true }) s in
    let ended =
      if is_boundary s.boundary r
      then record started { endpos = u64 (q.off + q.off); boundary = none }
      else started in
    record ended { inflight = u64 (s.inflight + 1) }

unfoldable pub dequeue : Elevator → Run (Option ℕ × Elevator)
dequeue s = do
  (got, s') ← elv_next_request 2 s
  elim got [ none ↦ ok (none, s') | some r ↦ ok (some r, take_request r s') ]

-- `PutRequest`
unfoldable pub put_request : ℕ → Elevator → Run Elevator
put_request r s =
    let cmd = (s.requests r).cmd in
    (do
      assert (not (s.counts cmd == 0))
      ok (record s { inflight = sub_u64 s.inflight 1; counts = lower_count cmd s.counts }))
