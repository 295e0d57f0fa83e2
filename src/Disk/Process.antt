-- ===== src/Disk/Process.antt =====
-- lustre/disk.cpp: the state machine loses no request and completes what it has served.
use mathlib.Core.Path.{subst}
use mathlib.Core.List.{append_assoc, append-nil}
use lustre_simulator.Base.{
  Bool-cases, inl, inr, ℕ, ◌+◌, ◌≡◌, refl, sym, ap, ◌∙◌, true, false, not, Option, none, some, List,
  [], ◌∷◌, ◌++◌, ◌==◌, if◌then◌else◌, arith,
}
use lustre_simulator.Base.Run.{ok, ◌>>=◌, or_fault, Ends, ends, Ends-bind, Ends-map, Ends-if}
use lustre_simulator.Base.Words.{u64}
use lustre_simulator.Elevator.{on_hash, Request, Elevator, is_empty, set_request}
use lustre_simulator.Elevator.Lists.{IsElevator, IsFilled}
use lustre_simulator.Elevator.Dispatch.{put_request}
use lustre_simulator.Elevator.Dispatch.Put.{IsCounted, put_request_lem}
use lustre_simulator.Disk.{
  DiskState, idle_state, work_state, req_finished_state, DiskParams, Disk, Env, is_idle, is_running,
  end_ioreqs, end_request, work, req_finished, disk_state_machine, process,
}
use lustre_simulator.Disk.Counts.{
  IsApart, serving_in, serving, IsExact, exact-IsCounted, ended-IsExact,
}
use lustre_simulator.Disk.Awake.{IsDisk}
use lustre_simulator.Disk.Search.{HasBandwidth, work-IsFound}
use lustre_simulator.Elevator.Tally.{set-cmd}

abbrev pub batches : (ℕ → Request) → List ℕ → List ℕ
batches requests [] = []
batches requests (r ∷ rs) = (requests r).batch ++ batches requests rs

-- The disk after its thread has run: in order, with the I/O requests of the request in progress
-- completed in the order of its batch, and with the next request in progress or none taken.
pub record IsRun (d d' : Disk) : Type 0 where
  pub disk : IsDisk d'
  pub completed : d'.completed ≡ d.completed ++ batches d.elevator.requests (serving d)
  pub ready : d.ready ≡ serving d' ++ d'.ready

end_ioreqs_lem :
    (batch : List ℕ) (d : Disk) → end_ioreqs batch d ≡ record d { completed = d.completed ++ batch }
unfolding end_ioreqs
end_ioreqs_lem [] d = ap (λ xs. record d { completed = xs }) (sym (append-nil d.completed))
end_ioreqs_lem (e ∷ batch) d =
    end_ioreqs_lem batch (record d { completed = d.completed ++ e ∷ [] })
    ∙ ap (λ xs. record d { completed = xs }) (append_assoc d.completed (e ∷ []) batch)

-- What the end of a request leaves.
record IsEnded (r : ℕ) (d d' : Disk) : Type 0 where
  lists : IsElevator d'.elevator
  drained : d'.elevator.dispatch ≡ d.elevator.dispatch
  empty : is_empty d'.elevator ≡ is_empty d.elevator
  pluged : d'.pluged ≡ d.pluged
  timer : d'.timer ≡ d.timer
  thread : d'.thread ≡ d.thread
  ready : d'.ready ≡ d.ready
  completed : d'.completed ≡ d.completed ++ (d.elevator.requests r).batch
  exact : IsExact d.elevator d.ready (r ∷ []) → IsExact d'.elevator d'.ready []
  queue : d'.elevator.queue ≡ d.elevator.queue

emptied_cmd :
    (r : ℕ) (s : Elevator)
    → ((set_request r (record (s.requests r) { batch = [] }) s).requests r).cmd ≡ (s.requests r).cmd
emptied_cmd r s = ground arith

-- A request outside the list may lose its batch.
emptied-IsFilled :
    (r : ℕ) (q : Request) (s : Elevator)
    → on_hash r s.queue ≡ false
    → IsFilled s.requests s.queue
    → IsFilled (λ i. if i == r then q else s.requests i) s.queue
emptied-IsFilled r q s gone filled x here = elim (Bool-cases (x == r)) [
  | inl at ↦
      let e : x ≡ r = ground arith in
      absurd (let out : on_hash x s.queue ≡ false = ap (λ y. on_hash y s.queue) e ∙ gone in cc)
  | inr other ↦ rw other (filled x here)
]

end_request-IsEnded :
    (r : ℕ) (d : Disk)
    → IsElevator d.elevator
    → on_hash r d.elevator.queue ≡ false
    → IsCounted r d.elevator
    → Ends (IsEnded r d) (end_request r d)
unfolding end_request
end_request-IsEnded r d lists gone counted =
    let q = d.elevator.requests r in
    let emptied = set_request r (record q { batch = [] }) d.elevator in
    let start = record d { elevator = emptied } in
    subst
      (λ served.
        Ends (IsEnded r d) (
          put_request r served.elevator >>= λ elevator. ok (record served { elevator = elevator })))
      (sym (end_ioreqs_lem q.batch start))
      (subst
        (λ put. Ends (IsEnded r d) (
          put >>= λ elevator.
          ok (record start { elevator = elevator; completed = d.completed ++ q.batch })))
        (sym (
          put_request_lem r emptied
            (ap (λ c. d.elevator.counts c == 0) (emptied_cmd r d.elevator) ∙ counted)))
        (ends (record {
          lists = record {
            distinct = lists.distinct;
            last = lists.last;
            hashed = lists.hashed;
            filled = emptied-IsFilled r (record q { batch = [] }) d.elevator gone lists.filled;
          };
          drained = refl;
          empty = refl;
          pluged = refl;
          timer = refl;
          thread = refl;
          ready = refl;
          completed = refl;
          exact = λ e.
              ended-IsExact d.elevator r d.ready emptied.requests (emptied.requests r).cmd e
                (set-cmd d.elevator.requests r (record q { batch = [] }) refl)
                (emptied_cmd r d.elevator);
          queue = refl;
        })))

-- The request in progress is not in the policy's list.
outside_queue :
    (r : ℕ) (queue ready : List ℕ) → IsApart queue ready (r ∷ []) → on_hash r queue ≡ false
outside_queue r queue ready apart = elim (Bool-cases (on_hash r queue)) [
  | inr out ↦ out
  | inl here ↦ let (_, other) = apart r here in absurd (ground arith)
]

-- A disk that looks for work has no request in progress.
nothing_served :
    (requests : ℕ → Request) (state : DiskState) (curq : Option ℕ)
    → state ≡ work_state
    → batches requests (serving_in state curq) ≡ []
nothing_served requests work_state curq e = refl
nothing_served requests idle_state curq e = cc
nothing_served requests req_finished_state curq e = cc

module _ (params : DiskParams) (env : Env) (able : HasBandwidth params) (d : Disk)
    (v : IsDisk d) where
  after_end :
      (r : ℕ) (ended : Disk)
      → d.state ≡ req_finished_state
      → d.curq ≡ some r
      → IsExact d.elevator d.ready (r ∷ [])
      → IsApart d.elevator.queue d.ready (r ∷ [])
      → IsEnded r (record d { thread = none }) ended
      → Ends (IsRun d) (
          if ended.pluged
          then ok (record ended { state = idle_state })
          else work params env (record ended { state = work_state }))
  after_end r ended served is exact apart w =
      let apart' : IsApart ended.elevator.queue ended.ready [] = λ x here.
        (ap (on_hash x) w.ready ∙ (apart x (ap (on_hash x) (sym w.queue) ∙ here)).0, refl) in
      let drained : ended.elevator.dispatch ≡ [] = w.drained ∙ v.drained in
      let plugs : ended.pluged ≡ not (is_empty ended.elevator) =
        w.pluged ∙ v.plugs ∙ ap not (sym w.empty) in
      let timed : is_running ended.timer ≡ ended.pluged =
        ap is_running w.timer ∙ v.timed ∙ sym w.pluged in
      let done : ended.completed ≡ d.completed ++ batches d.elevator.requests (serving d) =
        w.completed
        ∙ ap (λ xs. d.completed ++ xs)
            (sym (append-nil (d.elevator.requests r).batch)
              ∙ ap (λ c. batches d.elevator.requests (serving_in req_finished_state c)) (sym is)
              ∙ ap (λ x. batches d.elevator.requests (serving_in x d.curq)) (sym served)) in
      Ends-if ended.pluged
        (λ plugged. ends (record {
          disk = record {
            lists = w.lists;
            drained = drained;
            plugs = plugs;
            timed = timed;
            awake = ap is_running w.thread;
            rest = λ _ bare. absurd cc;
            current = λ e. absurd cc;
            exact = w.exact exact;
            apart = apart';
          };
          completed = done;
          ready = sym w.ready;
        }))
        λ _.
          Ends-map
            (work-IsFound params env able (record ended { state = work_state })
              (record {
                lists = w.lists;
                drained = drained;
                plugs = plugs;
                timed = timed;
                thread = w.thread;
                exact = w.exact exact;
                apart = apart';
              }))
            λ d' f. record {
              disk = f.disk;
              completed = f.completed ∙ done;
              ready = sym w.ready ∙ f.ready;
            }

  finished-IsRun :
      (r : ℕ)
      → d.state ≡ req_finished_state
      → d.curq ≡ some r
      → Ends (IsRun d) (req_finished params env (record d { thread = none }))
  unfolding req_finished
  finished-IsRun r served is =
      let exact : IsExact d.elevator d.ready (r ∷ []) =
        subst (λ xs. IsExact d.elevator d.ready xs)
          (ap (λ x. serving_in x d.curq) served ∙ ap (serving_in req_finished_state) is) v.exact in
      let apart : IsApart d.elevator.queue d.ready (r ∷ []) =
        subst (λ xs. IsApart d.elevator.queue d.ready xs)
          (ap (λ x. serving_in x d.curq) served ∙ ap (serving_in req_finished_state) is) v.apart in
      let gone = outside_queue r d.elevator.queue d.ready apart in
      subst
        (λ c. Ends (IsRun d) (
          or_fault c >>= λ r'. do
            let q = d.elevator.requests r'
            ended ← end_request r' (record d { thread = none; headpos = u64 (q.off + q.count) })
            if ended.pluged
                then ok (record ended { state = idle_state })
                else work params env (record ended { state = work_state })))
        (sym is)
        (Ends-bind
          (end_request-IsEnded r
            (record d {
              thread = none;
              headpos = u64 ((d.elevator.requests r).off + (d.elevator.requests r).count);
            })
            v.lists gone (exact-IsCounted d.elevator r d.ready exact))
          λ ended w. after_end r ended served is exact apart (record {
            lists = w.lists;
            drained = w.drained;
            empty = w.empty;
            pluged = w.pluged;
            timer = w.timer;
            thread = w.thread;
            ready = w.ready;
            completed = w.completed;
            exact = w.exact;
            queue = w.queue;
          }))

  by_state :
      (state : DiskState)
      → d.state ≡ state
      → is_running d.thread ≡ true
      → Ends (IsRun d) (elim state [
        | work_state ↦ work params env (record d { thread = none })
        | req_finished_state ↦ req_finished params env (record d { thread = none })
        | idle_state ↦ ok (record d { thread = none })
      ])
  by_state idle_state is runs =
      absurd (let e : true ≡ false = sym runs ∙ v.awake ∙ ap (λ x. not (is_idle x)) is in cc)
  by_state work_state is runs =
      Ends-map
        (work-IsFound params env able (record d { thread = none })
          (record {
            lists = v.lists;
            drained = v.drained;
            plugs = v.plugs;
            timed = v.timed;
            thread = refl;
            exact =
                subst (λ xs. IsExact d.elevator d.ready xs) (ap (λ x. serving_in x d.curq) is)
                  v.exact;
            apart =
                subst (λ xs. IsApart d.elevator.queue d.ready xs) (ap (λ x. serving_in x d.curq) is)
                  v.apart;
          }))
        λ d' f. record {
          disk = f.disk;
          completed =
              f.completed
              ∙ sym (append-nil d.completed)
              ∙ ap (λ xs. d.completed ++ xs)
                  (sym (nothing_served d.elevator.requests d.state d.curq is));
          ready = f.ready;
        }
  by_state req_finished_state is runs = let (r, at) = v.current is in finished-IsRun r is at

-- When the thread of a disk has run, where the disk can serve both kinds of request, the call ends
-- without a failed assertion and the disk keeps what it keeps between two events. The I/O requests
-- of the request in progress are completed, in the order of its batch and no others; no ready
-- request is lost, and one is taken only from the front.
pub process-IsRun :
    (params : DiskParams) (env : Env) (d : Disk)
    → HasBandwidth params
    → IsDisk d
    → is_running d.thread ≡ true
    → Ends (IsRun d) (process params env d)
unfolding process disk_state_machine
process-IsRun params env d able v runs = by_state params env able d v d.state refl runs
