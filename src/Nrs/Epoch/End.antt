-- ===== src/Nrs/Epoch/End.antt =====
-- A request that comes at the very end of the first slice.
use native.Mathlib.Nat.{mod-lt}
use lustre_simulator.Base.{
  ℕ, ◌+◌, ◌/◌, ◌%◌, ◌^◌, ◌<◌, ◌≡◌, ◌≢◌, refl, sym, ap, ◌∙◌, true, false, not, none, ◌==◌, ltb,
  arith,
}
use lustre_simulator.Base.Run.{fault}
use lustre_simulator.Base.Words.{u64, u64_id, sub_u64, sub_u64_lem}
use lustre_simulator.Nrs.Epoch.{NrsEpoch, mod_timer, start_timer, get_queue_class, enqueue}
use lustre_simulator.Nrs.Epoch.Arrival.{put, put_class}

nothing_left :
    (clock quota used : ℕ)
    → clock + quota < 2 ^ 64
    → used ≡ quota
    → ltb clock (sub_u64 (u64 (clock + quota)) used) ≡ false
nothing_left clock quota used room e =
    let sum = u64_id (clock + quota) room in
    let rest = sub_u64_lem (u64 (clock + quota)) used (omega arith) (omega arith) in
    let now : sub_u64 (u64 (clock + quota)) used ≡ clock = omega arith in ground arith

start_timer-fault :
    (clock : ℕ) (s : NrsEpoch)
    → s.on ≡ false
    → ltb 0 s.size ≡ true
    → s.timer ≡ none
    → clock + (s.qvec s.cur).quota < 2 ^ 64
    → sub_u64 clock (s.qvec s.cur).start ≡ (s.qvec s.cur).quota
    → start_timer clock s ≡ fault
unfolding start_timer mod_timer
start_timer-fault clock s off some_left unset room end =
    let used = sub_u64 clock (s.qvec s.cur).start in
    let within : ltb (s.qvec s.cur).quota used ≡ false = ground arith in
    let late = nothing_left clock (s.qvec s.cur).quota used room end in
    rw (off, some_left, within, unset, late) refl

-- A request that comes to empty queues at the very end of the first slice, before any switch and with
-- no timer set, stops the program: the timer would be set for the time that the clock shows, and the
-- assertion that an event is to come fails.
pub enqueue-fault :
    (clients sets clock : ℕ) (cid : ℕ → ℕ) (e : ℕ) (s : NrsEpoch)
    → sets ≢ 0
    → clients / sets ≢ 0
    → s.num ≢ 0
    → s.size ≡ 0
    → s.on ≡ false
    → s.timer ≡ none
    → clock + (s.qvec s.cur).quota < 2 ^ 64
    → sub_u64 clock (s.qvec s.cur).start ≡ (s.qvec s.cur).quota
    → enqueue clients sets clock cid e s ≡ fault
unfolding enqueue get_queue_class u64
enqueue-fault clients sets clock cid e s a b c z off unset room end =
    let some_sets : not (sets == 0) ≡ true = ground arith in
    let some_clients : not (clients / sets == 0) ≡ true = ground arith in
    let some_class : not (s.num == 0) ≡ true = ground arith in
    let class = cid e / (clients / sets) % s.num in
    let lt : class < s.num = mod-lt (cid e / (clients / sets)) (omega arith) in
    let in_range : ltb class s.num ≡ true = ground arith in
    let (quota, start) = put_class class e s s.cur in
    rw (some_sets, some_clients, some_class, in_range, z)
      (start_timer-fault clock (record (put class e s) { size = 1 }) off refl unset (omega arith)
        (ap (λ x. sub_u64 clock x) start ∙ end ∙ sym quota))
