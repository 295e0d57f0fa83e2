-- ===== src/Disk/Search.antt =====
-- lustre/disk.cpp: a disk at work takes its next ready request, or rests.
use mathlib.Core.Path.{subst}
use lustre_simulator.Base.{ℕ, ◌≡◌, refl, sym, ap, true, false, not, none, List, [], ◌∷◌, ◌++◌, ◌==◌}
use lustre_simulator.Base.Run.{Ends, ends, Ends-bind, assert-Ends}
use lustre_simulator.Elevator.{Command, reads, writes, Request, is_empty}
use lustre_simulator.Elevator.Lists.{IsElevator}
use lustre_simulator.Disk.{
  DiskParams, Disk, Env, is_running, run_after, bandwidth, request_ticks, work,
}
use lustre_simulator.Disk.Counts.{IsApart, next-IsApart, serving, IsExact, next-IsExact}
use lustre_simulator.Disk.Awake.{IsDisk}

-- A disk that can serve requests of both kinds.
abbrev pub HasBandwidth : DiskParams → Type 0
HasBandwidth params = (params.read_bandwidth == 0 ≡ false) × (params.write_bandwidth == 0 ≡ false)

bandwidth_lem :
    (params : DiskParams) (cmd : Command)
    → HasBandwidth params
    → not (bandwidth params cmd == 0) ≡ true
bandwidth_lem params reads (r, w) = ap not r
bandwidth_lem params writes (r, w) = ap not w

request_ticks-Ends :
    (params : DiskParams) (env : Env) (headpos : ℕ) (q : Request)
    → HasBandwidth params
    → Ends (λ _. Unit {0}) (request_ticks params env headpos q)
unfolding request_ticks
request_ticks-Ends params env headpos q able =
    Ends-bind (assert-Ends (not (bandwidth params q.cmd == 0)) (bandwidth_lem params q.cmd able))
      λ _ _. ends tt

-- What holds of a disk that looks for its next request.
pub record IsSearching (d : Disk) : Type 0 where
  pub lists : IsElevator d.elevator
  pub drained : d.elevator.dispatch ≡ []
  pub plugs : d.pluged ≡ not (is_empty d.elevator)
  pub timed : is_running d.timer ≡ d.pluged
  pub thread : d.thread ≡ none
  pub exact : IsExact d.elevator d.ready []
  pub apart : IsApart d.elevator.queue d.ready []

-- A disk that has looked for its next request.
pub record IsFound (d d' : Disk) : Type 0 where
  pub disk : IsDisk d'
  pub completed : d'.completed ≡ d.completed
  pub ready : d.ready ≡ serving d' ++ d'.ready

module _ (params : DiskParams) (env : Env) (able : HasBandwidth params) where
  ready-IsFound :
      (ready : List ℕ) (d : Disk)
      → IsSearching (record d { ready = ready; thread = none })
      → Ends
          (IsFound (record d { ready = ready; thread = none }))
          (work params env (record d { ready = ready; thread = none }))
  unfolding work run_after
  ready-IsFound [] d v = ends (record {
    disk = record {
      lists = v.lists;
      drained = v.drained;
      plugs = v.plugs;
      timed = v.timed;
      awake = refl;
      rest = λ _ _. refl;
      current = λ e. absurd cc;
      exact = v.exact;
      apart = v.apart;
    };
    completed = refl;
    ready = refl;
  })
  ready-IsFound (r ∷ rest) d v =
      Ends-bind (request_ticks-Ends params env d.headpos (d.elevator.requests r) able) λ ticks _.
        ends (record {
          disk = record {
            lists = v.lists;
            drained = v.drained;
            plugs = v.plugs;
            timed = v.timed;
            awake = refl;
            rest = λ e. absurd cc;
            current = λ _. (r, refl);
            exact = next-IsExact d.elevator r rest v.exact;
            apart = next-IsApart d.elevator.queue r rest v.apart;
          };
          completed = refl;
          ready = refl;
        })

  pub work-IsFound : (d : Disk) → IsSearching d → Ends (IsFound d) (work params env d)
  work-IsFound d v =
      subst
        (λ t. Ends (IsFound (record d { thread = t })) (work params env (record d { thread = t })))
        (sym v.thread)
        (ready-IsFound d.ready d (record {
          lists = v.lists;
          drained = v.drained;
          plugs = v.plugs;
          timed = v.timed;
          thread = refl;
          exact = v.exact;
          apart = v.apart;
        }))
