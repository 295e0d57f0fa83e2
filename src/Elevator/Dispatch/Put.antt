-- ===== src/Elevator/Dispatch/Put.antt =====
-- lustre/elevator.cpp: the end of a request that the disk has served.
use lustre_simulator.Base.{ℕ, ◌≡◌, refl, false, ◌==◌}
use lustre_simulator.Base.Run.{ok}
use lustre_simulator.Base.Words.{sub_u64}
use lustre_simulator.Elevator.{Elevator, lower_count}
use lustre_simulator.Elevator.Dispatch.{put_request}

-- The request counts among those of its kind.
abbrev pub IsCounted : ℕ → Elevator → Type 0
IsCounted r s = s.counts (s.requests r).cmd == 0 ≡ false

pub put_request_lem :
    (r : ℕ) (s : Elevator)
    → IsCounted r s
    → put_request r s
      ≡ ok (record s {
        inflight = sub_u64 s.inflight 1;
        counts = lower_count (s.requests r).cmd s.counts;
      })
unfolding put_request
put_request_lem r s counted = rw counted refl
