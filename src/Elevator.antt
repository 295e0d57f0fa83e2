-- ===== src/Elevator.antt =====
-- lustre/elevator.cpp and lustre/elvnoop.cpp: the elevator that merges a disk's requests, with the
-- policy that leaves them in order. A request and an I/O request are their addresses; `requests` and
-- `ioreqs` are the memory. `queue` is the list of the policy and `dispatch` the elevator's own `Queue`.
-- `hash` lists the hashed requests, the newest first; a bucket of the source's table is the part of
-- it whose keys have one hash. The disk is told to plug or unplug by what `enqueue` returns.
pub mod Bytes
pub mod Dispatch
pub mod Enqueue
pub mod Lists
pub mod Merge
pub mod Tally
mod Tests
use lustre_simulator.Base.{
  ℕ, zero, suc, ◌+◌, ◌-◌, ◌%◌, ◌^◌, Bool, true, false, ◌&&◌, ◌||◌, not, Option, none, some, List,
  [], ◌∷◌, ◌++◌, ltb, leb, ◌==◌, if◌then◌else◌,
}
use lustre_simulator.Base.Run.{Run, ok, fault, out_of_fuel, ◌>>=◌, ◌>>◌, assert, or_fault}
use lustre_simulator.Base.Words.{u64, sub_u64}

pub data Command : Type 0 where
  reads writes : Command

abbrev pub same_command : Command → Command → Bool
same_command reads reads = true
same_command writes writes = true
same_command _ _ = false

pub record Ioreq : Type 0 where
  pub cmd : Command
  pub off : ℕ
  pub count : ℕ

-- `batch` has the I/O requests that it serves; `stops` says that one of the flags REQ_SOFTBARRIER,
-- REQ_HARDBARRIER and REQ_STARTED is set.
pub record Request : Type 0 where
  pub cmd : Command
  pub off : ℕ
  pub count : ℕ
  pub stops : Bool
  pub batch : List ℕ

pub record Elevator : Type 0 where
  pub requests : ℕ → Request
  pub queue : List ℕ
  pub dispatch : List ℕ
  pub hash : List ℕ
  pub last : Option ℕ
  pub counts : Command → ℕ
  pub sorted : ℕ
  pub inflight : ℕ
  pub endpos : ℕ
  pub boundary : Option ℕ
  pub maxsize : ℕ
  pub unplug_threshold : ℕ

pub data Merging : Type 0 where
  no_merge front_merge back_merge : Merging

abbrev pub set_request : ℕ → Request → Elevator → Elevator
set_request r q s = record s { requests = λ i. if i == r then q else s.requests i }

abbrev pub is_last : ℕ → Elevator → Bool
is_last r s = elim s.last [ none ↦ false | some l ↦ l == r ]

abbrev pub without : ℕ → List ℕ → List ℕ
without r [] = []
without r (x ∷ xs) = let rest = without r xs in if x == r then rest else x ∷ rest

abbrev pub on_hash : ℕ → List ℕ → Bool
on_hash r [] = false
on_hash r (x ∷ xs) = if x == r then true else on_hash r xs

-- `rq_hash_key`
abbrev pub hash_key : Request → ℕ
hash_key q = u64 (q.off + q.count)

unfoldable pub get_pending_num : Elevator → ℕ
get_pending_num s = sub_u64 (u64 (s.counts reads + s.counts writes)) s.inflight

abbrev pub find_key : (ℕ → Request) → ℕ → List ℕ → Option ℕ
find_key requests off [] = none
find_key requests off (x ∷ xs) =
    let rest = find_key requests off xs in if hash_key (requests x) == off then some x else rest

unfoldable pub elv_rqhash_find : ℕ → Elevator → Option ℕ
elv_rqhash_find off s = find_key s.requests off s.hash

unfoldable pub elv_rqhash_del : ℕ → Elevator → Elevator
elv_rqhash_del r s = record s { hash = without r s.hash }

unfoldable pub elv_rqhash_add : ℕ → Elevator → Run Elevator
elv_rqhash_add r s = assert (not (on_hash r s.hash)) >> ok (record s { hash = r ∷ s.hash })

pub elv_rqhash_reposition : ℕ → Elevator → Run Elevator
elv_rqhash_reposition r s = elv_rqhash_add r (elv_rqhash_del r s)

-- `ll_front_merge_fn` and `ll_back_merge_fn`, which are alike.
unfoldable pub ll_merge_fn : ℕ → Ioreq → Elevator → Bool × Elevator
ll_merge_fn r io s =
    if ltb s.maxsize (u64 ((s.requests r).count + io.count))
    then (false, if is_last r s then record s { last = none } else s)
    else (true, s)

pub elv_merge_ok : Request → Ioreq → Bool
elv_merge_ok q io = same_command q.cmd io.cmd

-- How a request that was merged last takes the I/O request.
pub merge_with_last : Request → Ioreq → Merging
merge_with_last q io =
    if u64 (q.off + q.count) == io.off
    then back_merge
    else if sub_u64 q.off io.count == io.off
    then front_merge
    else no_merge

-- The hashed request whose end is the start of the I/O request.
unfoldable pub merge_with_hashed : Ioreq → Elevator → Merging × ℕ
merge_with_hashed io s = elim (elv_rqhash_find io.off s) [
  | none ↦ (no_merge, 0)
  | some r ↦ if elv_merge_ok (s.requests r) io then (back_merge, r) else (no_merge, 0)
]

-- With the request, where there is one.
unfoldable pub elv_merge : Ioreq → Elevator → Merging × ℕ
elv_merge io s = elim s.last [
  | none ↦ merge_with_hashed io s
  | some l ↦ elim (merge_with_last (s.requests l) io) [
    | no_merge ↦ merge_with_hashed io s
    | way ↦ (way, l)
  ]
]

pub elv_merge_requests : ℕ → ℕ → Elevator → Run Elevator
elv_merge_requests r next s = do
  s' ← elv_rqhash_reposition r (record s { queue = without next s.queue })
  let gone = elv_rqhash_del next s'
  ok (record gone { sorted = sub_u64 gone.sorted 1; last = some r })

-- A request that is merged away has been counted, so the count is not 0.
abbrev pub lower_count : Command → (Command → ℕ) → Command → ℕ
lower_count c counts d = if same_command c d then counts d - 1 else counts d

-- Whether a batch, or a part of it, is empty.
abbrev pub no_ioreq : List ℕ → Bool
no_ioreq [] = true
no_ioreq (e ∷ es) = false

pub splice_ioreq : List ℕ → List ℕ → Run (List ℕ)
splice_ioreq h1 h2 = assert (not (no_ioreq h1) && not (no_ioreq h2)) >> ok (h1 ++ h2)

pub attempt_merge : ℕ → ℕ → Elevator → Run (Bool × Elevator)
attempt_merge r next s =
    let q = s.requests r in
    let n = s.requests next in
    let merges : Run (Bool × Elevator) = do
      batch ← splice_ioreq q.batch n.batch
      let joined = record q { count = u64 (q.count + n.count); batch = batch }
      s' ← elv_merge_requests r next (set_request r joined s)
      ok (true, record s' { counts = lower_count n.cmd s'.counts })
    in if u64 (q.off + q.count) == n.off
        && same_command q.cmd n.cmd
        && leb (u64 (q.count + n.count)) s.maxsize
      then merges
      else ok (false, s)

-- `ElvNoop::ElvLatterRequest` and `ElvFormerRequest`, of a request in the policy's list.
pub latter : ℕ → List ℕ → Option ℕ
latter r [] = none
latter r (x ∷ xs) =
    let rest = latter r xs in if x == r then elim xs [ [] ↦ none | y ∷ ys ↦ some y ] else rest

pub former : ℕ → List ℕ → Option ℕ
former r [] = none
former r (x ∷ xs) =
    let rest = former r xs in elim xs [ [] ↦ none | y ∷ ys ↦ if y == r then some x else rest ]

pub attempt_back_merge : ℕ → Elevator → Run (Bool × Elevator)
attempt_back_merge r s = elim (latter r s.queue) [
  | none ↦ ok (false, s)
  | some next ↦ attempt_merge r next s
]

pub attempt_front_merge : ℕ → Elevator → Run (Bool × Elevator)
attempt_front_merge r s = elim (former r s.queue) [
  | none ↦ ok (false, s)
  | some prev ↦ attempt_merge prev r s
]

pub elv_merged_request : ℕ → Merging → Elevator → Run Elevator
elv_merged_request r way s = do
  s' ← elim way [ back_merge ↦ elv_rqhash_reposition r s | _ ↦ ok s ]
  ok (record s' { last = some r })

-- The request after it has taken the I/O request `e`.
abbrev pub extended : Merging → ℕ → Ioreq → Request → Request
extended front_merge e io q = record q {
  off = io.off;
  count = u64 (q.count + io.count);
  batch = e ∷ q.batch;
}
extended _ e io q = record q { count = u64 (q.count + io.count); batch = q.batch ++ e ∷ [] }

-- The merging cases of `Enqueue`.
pub merge_into : Merging → ℕ → Ioreq → ℕ → Elevator → Run Elevator
merge_into way e io r s = do
  let grown = set_request r (extended way e io (s.requests r)) s
  (merged, s') ← elim way [
    | front_merge ↦ attempt_front_merge r grown
    | _ ↦ attempt_back_merge r grown
  ]
  if merged then ok s' else elv_merged_request r way s'

-- What the disk is told: to plug before the request is added, and to unplug after.
pub record Told : Type 0 where
  pub elevator : Elevator
  pub plugs : Bool
  pub unplugs : Bool

abbrev pub is_empty : Elevator → Bool
is_empty s = elim s.dispatch [ [] ↦ elim s.queue [ [] ↦ true | _ ↦ false ] | _ ↦ false ]

-- `ElvAddRequest` of the new request, at the address `r`; `plugged` is `disk->IsPlug()`.
unfoldable pub add_request : ℕ → Request → Bool → Elevator → Run Told
add_request r q plugged s = do
  let counted = record (set_request r q s) {
    counts = λ c. if same_command q.cmd c then s.counts c + 1 else s.counts c;
  }
  s' ← elv_rqhash_add r counted
  let first : Option ℕ = elim s'.last [ none ↦ some r | some l ↦ some l ]
  let added = record s' { queue = s'.queue ++ r ∷ []; last = first }
  let plugs = is_empty s
  ok (record {
    elevator = added;
    plugs = plugs;
    unplugs = (plugged || plugs) && leb s.unplug_threshold (get_pending_num added);
  })

-- A merge where the request has room, and else a new request at the address `r`.
unfoldable pub merge_or_add : Merging → ℕ → Ioreq → ℕ → ℕ → Bool → Elevator → Run Told
merge_or_add way e io into r plugged s =
    let (fits, s') = ll_merge_fn into io s in
    let new_request : Request = record {
      cmd = io.cmd;
      off = io.off;
      count = io.count;
      stops = false;
      batch = e ∷ [];
    } in
    let merges : Run Told = do
      merged ← merge_into way e io into s'
      ok (record { elevator = merged; plugs = false; unplugs = false })
    in elim way [
      | no_merge ↦ add_request r new_request plugged s
      | _ ↦ if fits then merges else add_request r new_request plugged s'
    ]

-- `Enqueue` of the I/O request at the address `e`.
unfoldable pub enqueue : ℕ → Ioreq → ℕ → Bool → Elevator → Run Told
enqueue e io r plugged s =
    let (way, into) = elv_merge io s in merge_or_add way e io into r plugged s
