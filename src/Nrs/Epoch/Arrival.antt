-- ===== src/Nrs/Epoch/Arrival.antt =====
-- `Enqueue` by time slices.
use native.Mathlib.Decide.{ℕ_discrete}
use native.Mathlib.Nat.{mod-lt}
use lustre_simulator.Base.{
  ℕ, zero, suc, ◌+◌, ◌-◌, none, some, ◌/◌, ◌%◌, ◌^◌, ◌<◌, ◌≡◌, ◌≢◌, refl, sym, ap, ◌∙◌, true, false,
  not, Option, ◌==◌, ltb, if◌then◌else◌, List, length, arith,
}
use lustre_simulator.Base.Run.{Ends, ends, Ends-if, Ends-map, Ends-bind}
use lustre_simulator.Base.Words.{u64, u64_id, sub_u64, sub_u64_lem}
use lustre_simulator.Nrs.Fifo
use lustre_simulator.Nrs.Fifo.Order.{enqueue_queue}
use lustre_simulator.Nrs.Epoch.{
  NrsEpoch, set_class, set_fifo, mod_timer, switch_queue, start_timer, get_queue_class, enqueue,
}
use lustre_simulator.Nrs.Epoch.Work.{IsEpoch, total, waiting_in}

-- A change that leaves every queue alone leaves the total alone.
total_same :
    (k : ℕ) (s t : NrsEpoch)
    → ((i : ℕ) → length (waiting_in i t) ≡ length (waiting_in i s))
    → total k t ≡ total k s
total_same zero s t same = refl
total_same (suc k) s t same = omega (arith, total_same k s t same, same k)

module _ (c e : ℕ) (s : NrsEpoch) where
  abbrev pub put : NrsEpoch
  put = set_fifo c (Fifo.enqueue e (s.qvec c).q) s

  put_waiting :
      (i : ℕ) → length (waiting_in i put) ≡ length (waiting_in i s) + (if i == c then 1 else 0)
  put_waiting i = elim (ℕ_discrete i c) [
    | yes same ↦
        let line = ap (λ (xs : List ℕ). length xs) (enqueue_queue e (s.qvec c).q) in
        rw same (ground (arith, line))
    | no other ↦ let f : (i == c) ≡ false = ground arith in ground arith
  ]

  total-put : (k : ℕ) → total k put ≡ total k s + (if ltb c k then 1 else 0)
  total-put zero = ground arith
  total-put (suc k) = ground (arith, total-put k, put_waiting k)

restart_waiting :
    (next clock : ℕ) (s : NrsEpoch) (i : ℕ)
    → length (waiting_in i (set_class next (record (s.qvec next) { start = clock }) s))
      ≡ length (waiting_in i s)
restart_waiting next clock s i = elim (ℕ_discrete i next) [
  | yes same ↦ rw same (ground arith)
  | no other ↦ let f : (i == next) ≡ false = ground arith in ground arith
]

-- Every class has a quota, and the clock is far enough from its end.
record HasQuotas (clock : ℕ) (s : NrsEpoch) : Type 0 where
  some_quota : (i : ℕ) → 0 < (s.qvec i).quota
  room : (i : ℕ) → clock + (s.qvec i).quota < 2 ^ 64

-- The clock does not show the very end of the first slice while its timer is still to be started.
abbrev pub IsOffEnd : ℕ → NrsEpoch → Type 0
IsOffEnd clock s = s.on ≡ false → sub_u64 clock (s.qvec s.cur).start ≢ (s.qvec s.cur).quota

timer-IsEpoch : (s : NrsEpoch) (timer : Option ℕ) → IsEpoch s → IsEpoch (record s { timer = timer })
timer-IsEpoch s timer v = record {
  classes = v.classes;
  current = v.current;
  pointer = v.pointer;
  size = v.size ∙ sym (total_same s.num s (record s { timer = timer }) λ i. refl);
  few = v.few;
}

on-IsEpoch : (s : NrsEpoch) → IsEpoch s → IsEpoch (record s { on = true })
on-IsEpoch s v = record {
  classes = v.classes;
  current = v.current;
  pointer = v.pointer;
  size = v.size ∙ sym (total_same s.num s (record s { on = true }) λ i. refl);
  few = v.few;
}

module _ (clock expire : ℕ) (s : NrsEpoch) (v : IsEpoch s) (later : ltb clock expire ≡ true) where
  set_timer-IsEpoch :
      (timer : Option ℕ)
      → Ends
          (λ t. IsEpoch t × (t.size ≡ s.size))
          (mod_timer clock expire (record s { timer = timer }))
  unfolding mod_timer
  set_timer-IsEpoch none = rw later (ends (timer-IsEpoch s (some expire) v, refl))
  set_timer-IsEpoch (some time) =
      Ends-if (expire == time) (λ _. ends (timer-IsEpoch s (some time) v, refl))
        λ _. rw later (ends (timer-IsEpoch s (some expire) v, refl))

  -- A timer that is set for a time to come keeps what waits.
  mod_timer-IsEpoch : Ends (λ t. IsEpoch t × (t.size ≡ s.size)) (mod_timer clock expire s)
  mod_timer-IsEpoch = set_timer-IsEpoch s.timer

ahead :
    (clock quota : ℕ) → 0 < quota → clock + quota < 2 ^ 64 → ltb clock (u64 (clock + quota)) ≡ true
ahead clock quota some_quota room =
    let sum = u64_id (clock + quota) room in
    let later : clock < u64 (clock + quota) = omega arith in ground arith

-- What is left of the slice.
left_ahead :
    (clock quota used : ℕ)
    → clock + quota < 2 ^ 64
    → ltb quota used ≡ false
    → used ≢ quota
    → ltb clock (sub_u64 (u64 (clock + quota)) used) ≡ true
left_ahead clock quota used room early off =
    let within : used < quota = ground arith in
    let sum = u64_id (clock + quota) room in
    let rest : sub_u64 (u64 (clock + quota)) used ≡ u64 (clock + quota) - used =
      sub_u64_lem (u64 (clock + quota)) used (omega arith) (omega arith) in
    let later : clock < sub_u64 (u64 (clock + quota)) used = omega arith in ground arith

-- The switch keeps what waits.
switch_queue-IsEpoch :
    (clock : ℕ) (s : NrsEpoch)
    → HasQuotas clock s
    → IsEpoch s
    → Ends (λ t. IsEpoch t × (t.size ≡ s.size)) (switch_queue clock s)
unfolding switch_queue
switch_queue-IsEpoch clock s h v =
    let pass : not (s.num == 0) ≡ true = ground (arith, v.classes) in
    let next = (s.cur + 1) % s.num in
    let restarted = set_class next (record (s.qvec next) { start = clock }) s in
    let same = total_same s.num s restarted (restart_waiting next clock s) in
    let moved : NrsEpoch = record restarted { cur = next; nrs = next; timer = none } in
    let w : IsEpoch moved = record {
      classes = v.classes;
      current = mod-lt (s.cur + 1) v.classes;
      pointer = refl;
      size = v.size ∙ sym same ∙ sym (total_same s.num restarted moved λ i. refl);
      few = v.few;
    } in
    let later = ahead clock (s.qvec next).quota (h.some_quota next) (h.room next) in
    rw pass (
      Ends-if (ltb 0 s.size)
        (λ _.
          Ends-bind (mod_timer-IsEpoch clock (u64 (clock + (s.qvec next).quota)) moved w later)
            λ t (x, y). ends (on-IsEpoch t x, y))
        λ _. ends (w, refl))

start_timer-IsEpoch :
    (clock : ℕ) (s : NrsEpoch)
    → HasQuotas clock s
    → IsOffEnd clock s
    → IsEpoch s
    → 0 < s.size
    → Ends (λ t. IsEpoch t × (t.size ≡ s.size)) (start_timer clock s)
unfolding start_timer
start_timer-IsEpoch clock s h off v some_left =
    let pass : ltb 0 s.size ≡ true = ground arith in
    let used = sub_u64 clock (s.qvec s.cur).start in
    Ends-if s.on (λ _. ends (v, refl))
      λ not_on. rw pass (
        Ends-if (ltb (s.qvec s.cur).quota used) (λ late. switch_queue-IsEpoch clock s h v)
          λ early.
            mod_timer-IsEpoch clock _ s v
              (left_ahead clock (s.qvec s.cur).quota used (h.room s.cur) early (off not_on)))

-- A request that is queued changes neither quotas nor starts.
pub put_class :
    (c e : ℕ) (s : NrsEpoch) (i : ℕ)
    → (((put c e s).qvec i).quota ≡ (s.qvec i).quota)
      × (((put c e s).qvec i).start ≡ (s.qvec i).start)
put_class c e s i = elim (ℕ_discrete i c) [
  | yes same ↦ rw same (ground arith)
  | no other ↦ let f : (i == c) ≡ false = ground arith in rw f (refl, refl)
]

put-HasQuotas :
    (c e clock : ℕ) (s : NrsEpoch)
    → ((i : ℕ) → 0 < (s.qvec i).quota)
    → ((i : ℕ) → clock + (s.qvec i).quota < 2 ^ 64)
    → HasQuotas clock (put c e s)
put-HasQuotas c e clock s some_quota room = record {
  some_quota = λ i. omega (arith, some_quota i, (put_class c e s i).0);
  room = λ i. omega (arith, room i, (put_class c e s i).0);
}

put-IsOffEnd : (c e clock : ℕ) (s : NrsEpoch) → IsOffEnd clock s → IsOffEnd clock (put c e s)
put-IsOffEnd c e clock s off not_on same =
    let (quota, start) = put_class c e s s.cur in
    off not_on (ap (λ x. sub_u64 clock x) (sym start) ∙ same ∙ quota)

-- With the classes configured, each with a quota that does not take the clock past 2 ^ 64, and room
-- for one more, `Enqueue` by time slices ends without a fault, unless the clock shows the very end of
-- the first slice before a switch has started the slices for good. The size counts what waits, one
-- more than before, whether or not the timer is set or queues are switched.
pub enqueue-IsEpoch :
    (clients sets clock : ℕ) (cid : ℕ → ℕ) (e : ℕ) (s : NrsEpoch)
    → sets ≢ 0
    → clients / sets ≢ 0
    → s.size + 1 < 2 ^ 64
    → ((i : ℕ) → 0 < (s.qvec i).quota)
    → ((i : ℕ) → clock + (s.qvec i).quota < 2 ^ 64)
    → (s.on ≡ false → sub_u64 clock (s.qvec s.cur).start ≢ (s.qvec s.cur).quota)
    → IsEpoch s
    → Ends (λ t. IsEpoch t × (t.size ≡ s.size + 1)) (enqueue clients sets clock cid e s)
unfolding enqueue get_queue_class
enqueue-IsEpoch clients sets clock cid e s a b room some_quota early off v =
    let some_sets : not (sets == 0) ≡ true = ground arith in
    let some_clients : not (clients / sets == 0) ≡ true = ground arith in
    let some_class : not (s.num == 0) ≡ true = ground (arith, v.classes) in
    let class = cid e / (clients / sets) % s.num in
    let lt : class < s.num = mod-lt (cid e / (clients / sets)) v.classes in
    let in_range : ltb class s.num ≡ true = ground arith in
    let sum : u64 (s.size + 1) ≡ s.size + 1 = u64_id (s.size + 1) room in
    let queued : NrsEpoch = record (put class e s) { size = u64 (s.size + 1) } in
    let counted = total-put class e s s.num in
    let w : IsEpoch queued = record {
      classes = v.classes;
      current = v.current;
      pointer = v.pointer;
      size = sum ∙ ground (arith, v.size) ∙ sym (total_same s.num (put class e s) queued λ i. refl);
      few = omega (arith, sum);
    } in
    rw (some_sets, some_clients, some_class, in_range)
      (Ends-if (queued.size == 1)
        (λ one.
          let h = put-HasQuotas class e clock s some_quota early in
          Ends-map
            (start_timer-IsEpoch clock queued (record { some_quota = h.some_quota; room = h.room })
              (put-IsOffEnd class e clock s off) w (ground arith))
            λ t (x, y). (x, y ∙ sum))
        λ _. ends (w, sum))
