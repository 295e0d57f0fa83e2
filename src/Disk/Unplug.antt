-- ===== src/Disk/Unplug.antt =====
-- lustre/disk.cpp: unplugging hands over the requests in order, and wakes the disk.
use mathlib.Core.Path.{subst}
use mathlib.Core.List.{append_assoc, append-nil}
use lustre_simulator.Base.{
  ℕ, zero, suc, ◌<◌, ◌≡◌, refl, sym, ap, ◌∙◌, true, false, not, Option, none, some, List, [], ◌∷◌,
  ◌++◌, length, arith,
}
use lustre_simulator.Base.Run.{ok, ◌>>=◌, Ends, ends, Ends-bind, Ends-map}
use lustre_simulator.Elevator.{Elevator}
use lustre_simulator.Elevator.Lists.{IsElevator}
use lustre_simulator.Elevator.Tally.{SameKinds}
use lustre_simulator.Elevator.Dispatch.Given.{IsGiven, dequeue_lem}
use lustre_simulator.Disk.{
  DiskState, idle_state, work_state, req_finished_state, Disk, Env, is_idle, is_running, run_after,
  submit_rq, request, remove_plug, rounds, unplug,
}

-- The state after a list of requests has been submitted: an idle disk is woken by the first.
abbrev pub woken : DiskState → List ℕ → DiskState
woken state [] = state
woken idle_state (r ∷ rest) = work_state
woken state (r ∷ rest) = state

-- The disk's thread is in the queue of events just when the disk is not idle.
abbrev pub IsAwake : Disk → Type 0
IsAwake d = is_running d.thread ≡ not (is_idle d.state)

-- The requests `rs` have gone to the disk `d`, and nothing else.
pub record IsSubmitted (d : Disk) (rs : List ℕ) (d' : Disk) : Type 0 where
  pub ready : d'.ready ≡ d.ready ++ rs
  pub state : d'.state ≡ woken d.state rs
  pub awake : IsAwake d'
  pub pluged : d'.pluged ≡ d.pluged
  pub timer : d'.timer ≡ d.timer
  pub curq : d'.curq ≡ d.curq
  pub completed : d'.completed ≡ d.completed
  pub counts : d'.elevator.counts ≡ d.elevator.counts
  pub kinds : SameKinds d.elevator d'.elevator

module _ (env : Env) (r : ℕ) (d : Disk) where
  -- The disk with its state and its thread written out.
  abbrev with_state : DiskState → Option ℕ → Disk
  with_state state thread = record d { state = state; thread = thread }

  by_state :
      (state : DiskState) (thread : Option ℕ)
      → is_running thread ≡ not (is_idle state)
      → Ends
          (λ d'. IsSubmitted (with_state state thread) (r ∷ []) d' × (d'.elevator ≡ d.elevator))
          (submit_rq env r (with_state state thread))
  unfolding submit_rq run_after
  by_state idle_state none a = ends (
    record {
      ready = refl;
      state = refl;
      awake = refl;
      pluged = refl;
      timer = refl;
      curq = refl;
      completed = refl;
      counts = refl;
      kinds = λ x. refl;
    },
    refl,
  )
  by_state idle_state (some t) a = absurd cc
  by_state work_state thread a = ends (
    record {
      ready = refl;
      state = refl;
      awake = a;
      pluged = refl;
      timer = refl;
      curq = refl;
      completed = refl;
      counts = refl;
      kinds = λ x. refl;
    },
    refl,
  )
  by_state req_finished_state thread a = ends (
    record {
      ready = refl;
      state = refl;
      awake = a;
      pluged = refl;
      timer = refl;
      curq = refl;
      completed = refl;
      counts = refl;
      kinds = λ x. refl;
    },
    refl,
  )

  submit_rq_lem :
      IsAwake d
      → Ends (λ d'. IsSubmitted d (r ∷ []) d' × (d'.elevator ≡ d.elevator)) (submit_rq env r d)
  submit_rq_lem awake = by_state d.state d.thread awake

woken-append :
    (state : DiskState) (r : ℕ) (rs : List ℕ)
    → woken (woken state (r ∷ [])) rs ≡ woken state (r ∷ rs)
woken-append idle_state r [] = refl
woken-append idle_state r (x ∷ rs) = refl
woken-append work_state r [] = refl
woken-append work_state r (x ∷ rs) = refl
woken-append req_finished_state r [] = refl
woken-append req_finished_state r (x ∷ rs) = refl

IsSubmitted-trans :
    (d e f : Disk) (r : ℕ) (rs : List ℕ)
    → IsSubmitted d (r ∷ []) e
    → IsSubmitted e rs f
    → IsSubmitted d (r ∷ rs) f
IsSubmitted-trans d e f r rs v w = record {
  ready = w.ready ∙ ap (λ xs. xs ++ rs) v.ready ∙ append_assoc d.ready (r ∷ []) rs;
  state = w.state ∙ ap (λ x. woken x rs) v.state ∙ woken-append d.state r rs;
  awake = w.awake;
  pluged = w.pluged ∙ v.pluged;
  timer = w.timer ∙ v.timer;
  curq = w.curq ∙ v.curq;
  completed = w.completed ∙ v.completed;
  counts = w.counts ∙ v.counts;
  kinds = λ x. w.kinds x ∙ v.kinds x;
}

IsSubmitted-nothing : (d : Disk) → IsAwake d → IsSubmitted d [] d
IsSubmitted-nothing d awake = record {
  ready = sym (append-nil d.ready);
  state = refl;
  awake = awake;
  pluged = refl;
  timer = refl;
  curq = refl;
  completed = refl;
  counts = refl;
  kinds = λ x. refl;
}

-- An elevator that has given all its requests.
abbrev pub IsDrained : Elevator → Type 0
IsDrained s = IsElevator s × (s.queue ≡ []) × (s.dispatch ≡ [])

request_lem :
    (k : ℕ) (env : Env) (queue : List ℕ) (d : Disk)
    → length queue < k
    → d.elevator.queue ≡ queue
    → d.elevator.dispatch ≡ []
    → IsElevator d.elevator
    → IsAwake d
    → Ends (λ d'. IsSubmitted d queue d' × IsDrained d'.elevator) (request k env d)
unfolding request
request_lem zero env queue d enough line idle lists awake = absurd (omega arith)
request_lem (suc k) env [] d enough line idle lists awake =
    let nothing = (dequeue_lem d.elevator idle lists).0 line in
    subst
      (λ run.
        Ends (λ d'. IsSubmitted d [] d' × IsDrained d'.elevator)
          (run >>= λ (got, elevator). elim got [
            | none ↦ ok (record d { elevator = elevator })
            | some r ↦ submit_rq env r (record d { elevator = elevator }) >>= request k env
          ]))
      (sym nothing) (ends (IsSubmitted-nothing d awake, (lists, line, idle)))
request_lem (suc k) env (r ∷ rest) d enough line idle lists awake =
    Ends-bind ((dequeue_lem d.elevator idle lists).1 r rest line) (
      next λ e line' idle' lists' awake'.
        request_lem k env rest e (omega arith) line' idle' lists' awake')
  where
    next :
        ((e : Disk)
          → e.elevator.queue ≡ rest
          → e.elevator.dispatch ≡ []
          → IsElevator e.elevator
          → IsAwake e
          → Ends (λ d'. IsSubmitted e rest d' × IsDrained d'.elevator) (request k env e))
        → (x : Option ℕ × Elevator) → IsGiven r rest d.elevator x
        → Ends
            (λ d'. IsSubmitted d (r ∷ rest) d' × IsDrained d'.elevator)
            (elim x.0 [
              | none ↦ ok (record d { elevator = x.1 })
              | some r ↦ submit_rq env r (record d { elevator = x.1 }) >>= request k env
            ])
    next recurse (none, elevator) (is, _, _, _, _, _, _, _, _) = absurd cc
    next recurse (some r', elevator) (is, line', idle', _, _, _, counts, kinds, lists') =
        let same : r' ≡ r = cc in
        Ends-bind (submit_rq_lem env r' (record d { elevator = elevator }) awake) λ e (v, kept).
          Ends-map
            (recurse e (ap (λ s. s.queue) kept ∙ line') (ap (λ s. s.dispatch) kept ∙ idle')
              (subst IsElevator (sym kept) lists') v.awake)
            λ f (w, drained). (
              IsSubmitted-trans d e f r rest
                  (subst (λ x. IsSubmitted d (x ∷ []) e) same
                    (record {
                      ready = v.ready;
                      state = v.state;
                      awake = v.awake;
                      pluged = v.pluged;
                      timer = v.timer;
                      curq = v.curq;
                      completed = v.completed;
                      counts = v.counts ∙ counts;
                      kinds = λ i. v.kinds i ∙ kinds i;
                    }))
                  w,
              drained,
            )

-- Where the disk has a plug, its thread is in the queue of events just when it is not idle, and the
-- elevator is in order with an empty list of its own, `Unplug` ends. It hands the requests of the
-- policy's list to the disk in their order, behind those that it has, takes the plug and its timer
-- away, and wakes the disk if it was idle and there was a request; the elevator is left empty, with
-- its counts and the requests' kinds as they were.
pub unplug_lem :
    (env : Env) (d : Disk)
    → d.pluged ≡ true
    → d.elevator.dispatch ≡ []
    → IsElevator d.elevator
    → IsAwake d
    → Ends
        (λ d'.
          IsSubmitted (record d { pluged = false; timer = none }) d.elevator.queue d'
          × IsDrained d'.elevator)
        (unplug env d)
unfolding unplug remove_plug
unplug_lem env d plugged idle lists awake =
    subst
      (λ p.
        Ends
          (λ d'.
            IsSubmitted (record d { pluged = false; timer = none }) d.elevator.queue d'
            × IsDrained d'.elevator)
          (unplug env (record d { pluged = p })))
      (sym plugged)
      (request_lem (rounds d.elevator) env d.elevator.queue
        (record d { pluged = false; timer = none }) (omega arith) refl idle lists awake)
