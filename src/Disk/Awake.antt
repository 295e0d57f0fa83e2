-- ===== src/Disk/Awake.antt =====
-- lustre/disk.cpp: the disk sleeps only where nothing is left to do.
use native.Mathlib.Decide.{ℕ_discrete}
use lustre_simulator.Base.{
  ℕ, ◌+◌, ◌^◌, ◌<◌, ◌≡◌, refl, sym, ap, ◌∙◌, Bool, true, false, not, Option, none, some, List, [],
  ◌∷◌, ltb, if◌then◌else◌,
}
use lustre_simulator.Base.Run.{ok, Ends, ends, Ends-bind, Ends-map, Ends-if}
use lustre_simulator.Base.Words.{u64}
use lustre_simulator.Elevator.{Ioreq, Elevator, Told, is_empty, on_hash}
use lustre_simulator.Elevator.Bytes.{queued_bytes}
use lustre_simulator.Elevator.Lists.{IsElevator}
use lustre_simulator.Elevator.Tally.{tally, tally_others, HasCounts}
use lustre_simulator.Elevator.Enqueue.{IsTold, not_empty, enqueue_lem}
use lustre_simulator.Disk.{
  DiskState, idle_state, work_state, req_finished_state, Disk, Env, is_idle, is_running, mod_timer,
  plug, unplug, submit_ioreq, disk_unplug_work,
}
use lustre_simulator.Disk.Counts.{
  IsApart, empty-IsApart, serving_in, serving, IsExact, drained-IsExact, more_count, told_count,
}
use lustre_simulator.Disk.Unplug.{IsAwake, woken, IsSubmitted, IsDrained, unplug_lem}

-- What the disk keeps between two events: the elevator's lists are in order and its own is empty; the
-- disk has a plug just where the elevator has a request, and the plug's timer runs just then; the
-- thread is in the queue of events just where the disk is not idle; an idle disk without a plug has
-- no request; a disk that serves a request knows which; the elevator's counts are exact,
-- and its requests are neither ready nor in progress.
pub record IsDisk (d : Disk) : Type 0 where
  pub lists : IsElevator d.elevator
  pub drained : d.elevator.dispatch ≡ []
  pub plugs : d.pluged ≡ not (is_empty d.elevator)
  pub timed : is_running d.timer ≡ d.pluged
  pub awake : IsAwake d
  pub rest : d.state ≡ idle_state → d.pluged ≡ false → d.ready ≡ []
  pub current : d.state ≡ req_finished_state → (r : ℕ) × (d.curq ≡ some r)
  pub exact : IsExact d.elevator d.ready (serving d)
  pub apart : IsApart d.elevator.queue d.ready (serving d)

woken_idle :
    (state : DiskState) (rs : List ℕ)
    → woken state rs ≡ idle_state
    → (state ≡ idle_state) × (rs ≡ [])
woken_idle idle_state [] e = (refl, refl)
woken_idle idle_state (r ∷ rs) e = cc
woken_idle work_state [] e = cc
woken_idle work_state (r ∷ rs) e = cc
woken_idle req_finished_state [] e = cc
woken_idle req_finished_state (r ∷ rs) e = cc

woken_finished :
    (state : DiskState) (rs : List ℕ)
    → woken state rs ≡ req_finished_state
    → state ≡ req_finished_state
woken_finished idle_state [] e = cc
woken_finished idle_state (r ∷ rs) e = cc
woken_finished work_state [] e = cc
woken_finished work_state (r ∷ rs) e = cc
woken_finished req_finished_state rs e = refl

busy_queue : (s : Elevator) → s.dispatch ≡ [] → is_empty s ≡ false → s.queue ≡ [] → (false ≡ true)
busy_queue s idle busy line = cc

no_lists :
    (dispatch queue : List ℕ)
    → dispatch ≡ []
    → queue ≡ []
    → (elim dispatch [ [] ↦ elim queue [ [] ↦ true | _ ↦ false ] | _ ↦ false ]) ≡ true
no_lists [] [] d q = refl
no_lists [] (x ∷ xs) d q = cc
no_lists (x ∷ xs) queue d q = cc

empty_elevator : (s : Elevator) → IsDrained s → is_empty s ≡ true
empty_elevator s (lists, line, idle) = no_lists s.dispatch s.queue idle line

busy_elevator : (s : Elevator) (l : ℕ) → s.last ≡ some l → IsElevator s → is_empty s ≡ false
busy_elevator s l last v = not_empty s l (v.last l last)

-- What a disk with a plug is after it has been taken away.
unplugged-IsDisk :
    (d d' : Disk)
    → d.elevator.dispatch ≡ []
    → is_empty d.elevator ≡ false
    → (d.state ≡ req_finished_state → (r : ℕ) × (d.curq ≡ some r))
    → IsExact d.elevator d.ready (serving d)
    → IsSubmitted (record d { pluged = false; timer = none }) d.elevator.queue d'
    → IsDrained d'.elevator
    → IsDisk d'
unplugged-IsDisk d d' idle busy current exact v (lists, line, idle') = record {
  lists = lists;
  drained = idle';
  plugs = v.pluged ∙ ap not (sym (empty_elevator d'.elevator (lists, line, idle')));
  timed = ap is_running v.timer ∙ sym v.pluged;
  awake = v.awake;
  rest = λ sleeps bare.
      let (_, nothing) = woken_idle d.state d.elevator.queue (sym v.state ∙ sleeps) in
      absurd (let x = busy_queue d.elevator idle busy nothing in cc);
  current = λ serves.
      let (r, is) = current (woken_finished d.state d.elevator.queue (sym v.state ∙ serves)) in
      (r, v.curq ∙ is);
  exact = drained-IsExact d d' exact v line;
  apart = empty-IsApart d'.elevator.queue d'.ready (serving d') line;
}

-- The disk `p` is the disk `d` with a plug.
record IsPlugged (d p : Disk) : Type 0 where
  pluged : p.pluged ≡ true
  timed : is_running p.timer ≡ true
  thread : p.thread ≡ d.thread
  state : p.state ≡ d.state
  ready : p.ready ≡ d.ready
  curq : p.curq ≡ d.curq

module _ (env : Env) (d : Disk) (v : IsDisk d) where
  abbrev starts : Disk
  starts = record d { pluged = true }

  mod_timer-IsPlugged :
      (timer : Option ℕ)
      → timer ≡ none
      → ltb env.now (u64 (env.now + d.delay)) ≡ true
      → Ends
          (IsPlugged d)
          (mod_timer env.now (u64 (env.now + d.delay)) (record d { pluged = true; timer = timer }))
  unfolding mod_timer
  mod_timer-IsPlugged none e later = rw later (
      ends (record {
        pluged = refl;
        timed = refl;
        thread = refl;
        state = refl;
        ready = refl;
        curq = refl;
      }))
  mod_timer-IsPlugged (some t) e later = absurd cc

  plug-IsPlugged :
      (plugs : Bool)
      → plugs ≡ is_empty d.elevator
      → ltb env.now (u64 (env.now + d.delay)) ≡ true
      → Ends (IsPlugged d) (if plugs then plug env d else ok d)
  unfolding plug
  plug-IsPlugged true e later =
      let bare : d.pluged ≡ false = v.plugs ∙ ap not (sym e) in
      Ends-if (not d.pluged)
        (λ _. mod_timer-IsPlugged d.timer (stopped d.timer (v.timed ∙ bare)) later) λ f. absurd cc
    where
      stopped : (timer : Option ℕ) → is_running timer ≡ false → timer ≡ none
      stopped none e = refl
      stopped (some t) e = cc
  plug-IsPlugged false e later =
      let plugged : d.pluged ≡ true = v.plugs ∙ ap not (sym e) in
      ends (record {
        pluged = plugged;
        timed = v.timed ∙ plugged;
        thread = refl;
        state = refl;
        ready = refl;
        curq = refl;
      })

  taken-IsDisk :
      (p : Disk) (t : Elevator)
      → IsPlugged d p
      → IsElevator t
      → t.dispatch ≡ []
      → is_empty t ≡ false
      → IsExact t d.ready (serving d)
      → IsApart t.queue d.ready (serving d)
      → IsDisk (record p { elevator = t })
  taken-IsDisk p t w lists idle busy exact apart = record {
    lists = lists;
    drained = idle;
    plugs = w.pluged ∙ ap not (sym busy);
    timed = w.timed ∙ sym w.pluged;
    awake = ap is_running w.thread ∙ v.awake ∙ ap (λ x. not (is_idle x)) (sym w.state);
    rest = λ sleeps bare. absurd cc;
    current = λ serves. let (r, is) = v.current (sym w.state ∙ serves) in (r, w.curq ∙ is);
    exact = λ c.
        let same : serving_in p.state p.curq ≡ serving d =
          ap (λ x. serving_in x p.curq) w.state ∙ ap (λ x. serving_in d.state x) w.curq in
        exact c
        ∙ ap
            (λ xs.
              tally c t.requests t.queue + (tally c t.requests xs + tally c t.requests (serving d)))
            (sym w.ready)
        ∙ ap
            (λ xs.
              tally c t.requests t.queue + (tally c t.requests p.ready + tally c t.requests xs))
            (sym same);
    apart = λ x here.
        let (not_ready, not_served) = apart x here in
        let same : serving_in p.state p.curq ≡ serving d =
          ap (λ y. serving_in y p.curq) w.state ∙ ap (λ y. serving_in d.state y) w.curq in
        (ap (on_hash x) w.ready ∙ not_ready, ap (on_hash x) same ∙ not_served);
  }

  told-IsApart :
      (r : ℕ) (t : Told)
      → on_hash r d.ready ≡ false
      → on_hash r (serving d) ≡ false
      → IsTold d.elevator r d.pluged t
      → IsApart t.elevator.queue d.ready (serving d)
  told-IsApart r t not_ready not_served told x here = elim (ℕ_discrete x r) [
    | yes same ↦ (
      ap (λ y. on_hash y d.ready) same ∙ not_ready,
      ap (λ y. on_hash y (serving d)) same ∙ not_served,
    )
    | no other ↦ v.apart x (told.fewer x other here)
  ]

  counted : HasCounts d.elevator
  counted c = more_count (tally c d.elevator.requests d.elevator.queue) _ (v.exact c)

  told-IsExact :
      (r : ℕ) (t : Told)
      → on_hash r d.ready ≡ false
      → on_hash r (serving d) ≡ false
      → IsTold d.elevator r d.pluged t
      → IsExact t.elevator d.ready (serving d)
  told-IsExact r t not_ready not_served told c =
      let (_, _, tallied) = told.left in
      let kept =
        λ (xs : List ℕ). tally_others c d.elevator.requests t.elevator.requests r xs told.kinds in
      told_count (tally c d.elevator.requests d.elevator.queue)
        (tally c d.elevator.requests d.ready) (tally c d.elevator.requests (serving d))
        (d.elevator.counts c) (tally c t.elevator.requests t.elevator.queue) (v.exact c)
        (tallied counted c) (kept d.ready not_ready) (kept (serving d) not_served)

  -- What follows once the I/O request is in the elevator.
  finish-IsDisk :
      (p : Disk) (r : ℕ) (t : Told)
      → on_hash r d.ready ≡ false
      → on_hash r (serving d) ≡ false
      → IsPlugged d p
      → IsElevator t.elevator
      → IsTold d.elevator r d.pluged t
      → Ends IsDisk (
          if t.unplugs
          then unplug env (record p { elevator = t.elevator })
          else ok (record p { elevator = t.elevator }))
  finish-IsDisk p r t not_ready not_served w lists told =
      let (same, (l, last), _) = told.left in
      let idle : t.elevator.dispatch ≡ [] = same ∙ v.drained in
      let busy = busy_elevator t.elevator l last lists in
      let taken =
        taken-IsDisk p t.elevator w lists idle busy (told-IsExact r t not_ready not_served told)
          (told-IsApart r t not_ready not_served told) in
      Ends-if t.unplugs
        (λ _.
          Ends-map
            (unplug_lem env (record p { elevator = t.elevator }) w.pluged idle lists taken.awake)
            λ d' (v', left).
              unplugged-IsDisk (record p { elevator = t.elevator }) d' idle busy taken.current
                taken.exact v' left)
        λ _. ends taken

-- An I/O request given to a disk keeps what a disk keeps between two events, and the call ends
-- without a failed assertion, where a new request would stand at an address that no list has, nor
-- the table nor the request in progress, the bytes do not pass 2^64, and the plug's delay takes the
-- clock forward.
pub submit_ioreq-IsDisk :
    (env : Env) (e : ℕ) (io : Ioreq) (r : ℕ) (d : Disk)
    → IsDisk d
    → on_hash r d.elevator.queue ≡ false
    → on_hash r d.elevator.hash ≡ false
    → on_hash r d.ready ≡ false
    → on_hash r (serving d) ≡ false
    → queued_bytes d.elevator + io.count < 2 ^ 64
    → ltb env.now (u64 (env.now + d.delay)) ≡ true
    → Ends IsDisk (submit_ioreq env e io r d)
unfolding submit_ioreq
submit_ioreq-IsDisk env e io r d v new unhashed not_ready not_served small later =
    Ends-bind (enqueue_lem e io r d.pluged d.elevator v.lists new unhashed small)
      λ t (_, lists, told).
        Ends-bind (plug-IsPlugged env d v t.plugs told.plugs later)
          λ p w. finish-IsDisk env d v p r t not_ready not_served w lists told

-- When the plug's timer has run, a disk keeps what it keeps between two events, and the call ends
-- without a failed assertion.
pub disk_unplug_work-IsDisk :
    (env : Env) (d : Disk)
    → IsDisk d
    → is_running d.timer ≡ true
    → Ends IsDisk (disk_unplug_work env d)
unfolding disk_unplug_work
disk_unplug_work-IsDisk env d v runs =
    let plugged : d.pluged ≡ true = sym v.timed ∙ runs in
    let busy : is_empty d.elevator ≡ false = full (is_empty d.elevator) (sym v.plugs ∙ plugged) in
    Ends-map (unplug_lem env (record d { timer = none }) plugged v.drained v.lists v.awake)
      λ d' (v', left).
        unplugged-IsDisk (record d { timer = none }) d' v.drained busy v.current v.exact v' left
  where
    full : (b : Bool) → not b ≡ true → b ≡ false
    full false e = refl
    full true e = cc
