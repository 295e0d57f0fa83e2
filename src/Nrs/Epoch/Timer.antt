-- ===== src/Nrs/Epoch/Timer.antt =====
-- The timer of the time slices.
use native.Mathlib.Nat.{mod-lt}
use lustre_simulator.Base.{ℕ, ◌+◌, ◌/◌, ◌%◌, ◌<◌, ◌≡◌, ◌≢◌, refl, true, not, none, ◌==◌, ltb, arith}
use lustre_simulator.Base.Run.{◌>>=◌, Ends, ends}
use lustre_simulator.Base.Words.{u64}
use lustre_simulator.Nrs.Epoch.{
  NrsEpoch, switch_queue, time_slice_expire, start_timer, get_queue_class, enqueue,
}

-- A slice that ends while nothing waits, after a first slice has switched queues, is followed by no
-- other: the timer is not set, and the request that comes next is queued without setting it, whatever
-- its class and the time.
pub time_slice_expire-enqueue :
    (clients sets clock later : ℕ) (cid : ℕ → ℕ) (e : ℕ) (s : NrsEpoch)
    → sets ≢ 0
    → clients / sets ≢ 0
    → s.num ≢ 0
    → s.size ≡ 0
    → s.on ≡ true
    → Ends
        (λ s'. (s'.timer ≡ none) × (s'.on ≡ true) × (s'.size ≡ 1) × (s'.cur ≡ (s.cur + 1) % s.num))
        (time_slice_expire clock s >>= enqueue clients sets later cid e)
unfolding time_slice_expire switch_queue enqueue get_queue_class start_timer u64
time_slice_expire-enqueue clients sets clock later cid e s a b c z on =
    let some_sets : not (sets == 0) ≡ true = ground arith in
    let some_clients : not (clients / sets == 0) ≡ true = ground arith in
    let some_class : not (s.num == 0) ≡ true = ground arith in
    let class = cid e / (clients / sets) % s.num in
    let in_range : ltb class s.num ≡ true =
      let lt : class < s.num = mod-lt (cid e / (clients / sets)) (omega arith) in ground arith in
    rw (some_class, z, some_sets, some_clients, some_class, in_range, on)
      (ends (refl, refl, refl, refl))
