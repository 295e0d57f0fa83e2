-- ===== src/Ldlm/Waiting.antt =====
-- lustre/ldlm.cpp: how the waiting locks limit the extent of a new one.
use lustre_simulator.Base.{
  ℕ, ◌+◌, ◌^◌, ◌≤◌, ◌<◌, ◌≡◌, ◌≢◌, refl, ◌⊎◌, inl, inr, Bool, true, false, List, [], ◌∷◌, ltb, ◌==◌,
  if◌then◌else◌, Bool-cases, ==_iff, All, arith,
}
use lustre_simulator.Base.Run.{Ends, ends, Ends-map, Ends-if}
use lustre_simulator.Base.Words.{u64_id, sub_u64_lem}
use lustre_simulator.Interval.{Extent}
use lustre_simulator.Ldlm.{
  Lock, same_extent, ldlm_extent_overlap, avoid, is_conflicting, waiting_loop,
  ldlm_extent_internal_policy_waiting,
}
use lustre_simulator.Ldlm.Fixup.{
  IsBetween, IsBetween-trans, same_extent_lem, IsAligned, ldlm_extent_internal_policy_fixup_lem,
}

-- A waiting lock has the extent that it asked for: extents grow when a lock is granted.
pub record IsWaiting (lock : Lock) : Type 0 where
  pub start_asked : lock.req_extent.start ≡ lock.extent.start
  pub end_asked : lock.req_extent.end ≡ lock.extent.end
  pub order : lock.extent.start ≤ lock.extent.end
  pub within : lock.extent.end < 2 ^ 64

-- A lock overlaps the request, which cannot be helped, or does not overlap the extent.
abbrev pub IsApart : Extent → Extent → Lock → Type 0
IsApart req ext lock =
    (ldlm_extent_overlap lock.extent req ≡ true) ⊎ (ldlm_extent_overlap lock.extent ext ≡ false)

module _ (req ext : Extent) (lock : Lock) (v : IsWaiting lock) (order : req.start ≤ req.end)
    (start : ext.start ≤ req.start) (end : req.end ≤ ext.end) (top : ext.end < 2 ^ 64)
    (over : ldlm_extent_overlap lock.extent ext ≡ true)
    (asked : ldlm_extent_overlap lock.req_extent req ≡ false) where
  avoid_below :
      lock.extent.end < req.start
      → IsBetween req ext (avoid req lock ext)
        × (ldlm_extent_overlap lock.extent (avoid req lock ext) ≡ false)
  unfolding avoid
  avoid_below below =
      let next = u64_id (lock.extent.end + 1) (omega arith) in rw (over, asked) (ground arith)

  avoid_above :
      req.end < lock.extent.start
      → IsBetween req ext (avoid req lock ext)
        × (ldlm_extent_overlap lock.extent (avoid req lock ext) ≡ false)
  unfolding avoid
  avoid_above above =
      let before =
        sub_u64_lem lock.extent.start 1 (omega arith) (omega (arith, v.order, v.within)) in
      rw (over, asked) (ground arith)

avoid_same :
    (req ext : Extent) (lock : Lock)
    → (ldlm_extent_overlap lock.extent ext ≡ false)
      ⊎ (ldlm_extent_overlap lock.req_extent req ≡ true)
    → avoid req lock ext ≡ ext
unfolding avoid
avoid_same req ext lock (inl off) = rw off refl
avoid_same req ext lock (inr asked) = elim (Bool-cases (ldlm_extent_overlap lock.extent ext)) [
  | inl over ↦ rw (over, asked) refl
  | inr off ↦ rw off refl
]

asked-overlap :
    (req : Extent) (lock : Lock)
    → IsWaiting lock
    → ldlm_extent_overlap lock.req_extent req ≡ true
    → ldlm_extent_overlap lock.extent req ≡ true
asked-overlap req lock v asked = ground (arith, v.start_asked, v.end_asked)

below_or_above :
    (req : Extent) (lock : Lock)
    → IsWaiting lock
    → ldlm_extent_overlap lock.req_extent req ≡ false
    → (lock.extent.end < req.start) ⊎ (req.end < lock.extent.start)
below_or_above req lock v asked = ground (arith, v.start_asked, v.end_asked)

unchanged : (req ext : Extent) → ext.start ≤ req.start → req.end ≤ ext.end → IsBetween req ext ext
unchanged req ext start end = ground arith

module _ (req ext : Extent) (lock : Lock) (v : IsWaiting lock) (order : req.start ≤ req.end)
    (start : ext.start ≤ req.start) (end : req.end ≤ ext.end) (top : ext.end < 2 ^ 64) where
  -- What a conflicting waiting lock leaves of the extent contains the request, and keeps off the
  -- lock unless the lock overlaps the request.
  avoid_lem : IsBetween req ext (avoid req lock ext) × IsApart req (avoid req lock ext) lock
  avoid_lem = elim (Bool-cases (ldlm_extent_overlap lock.extent ext)) [
    | inr off ↦ rw (avoid_same req ext lock (inl off)) (unchanged req ext start end, inr off)
    | inl over ↦ elim (Bool-cases (ldlm_extent_overlap lock.req_extent req)) [
      | inl asked ↦
          rw (avoid_same req ext lock (inr asked))
            (unchanged req ext start end, inl (asked-overlap req lock v asked))
      | inr not_asked ↦ elim (below_or_above req lock v not_asked) [
        | inl below ↦
            let (w, off) = avoid_below req ext lock v order start end top over not_asked below in
            (w, inr off)
        | inr above ↦
            let (w, off) = avoid_above req ext lock v order start end top over not_asked above in
            (w, inr off)
      ]
    ]
  ]

IsApart-inside :
    (req outer inner : Extent) (lock : Lock)
    → outer.start ≤ inner.start
    → inner.end ≤ outer.end
    → IsApart req outer lock
    → IsApart req inner lock
IsApart-inside req outer inner lock a b (inl asked) = inl asked
IsApart-inside req outer inner lock a b (inr off) = inr (ground arith)

asked-IsApart :
    (req ext : Extent) (lock : Lock)
    → ext.start ≡ req.start
    → ext.end ≡ req.end
    → IsApart req ext lock
asked-IsApart req ext lock s e = elim (Bool-cases (ldlm_extent_overlap lock.extent req)) [
  | inl over ↦ inl over
  | inr off ↦ inr (ground arith)
]

raised :
    (req ext : Extent) (test : Bool)
    → ext.start ≤ req.start
    → (ext.start ≤ (if test then req.start else ext.start))
      × ((if test then req.start else ext.start) ≤ req.start)
raised req ext true a = (a, omega arith)
raised req ext false a = (omega arith, a)

module _ (locks : ℕ → Lock) (req : ℕ) where
  -- Another waiting lock in conflict with the request keeps its extent, or overlaps the request.
  abbrev pub IsKept : Extent → ℕ → Type 0
  IsKept ext lock =
      lock ≢ req
      → is_conflicting (locks lock) (locks req) ≡ true
      → IsApart (locks req).req_extent ext (locks lock)

  All-IsKept :
      (outer inner : Extent) (queue : List ℕ)
      → outer.start ≤ inner.start
      → inner.end ≤ outer.end
      → All (IsKept outer) queue
      → All (IsKept inner) queue
  All-IsKept outer inner [] a b kept = tt
  All-IsKept outer inner (lock ∷ queue) a b (here, there) = (
    λ other conflict.
        IsApart-inside (locks req).req_extent outer inner (locks lock) a b (here other conflict),
    All-IsKept outer inner queue a b there,
  )

  -- An extent that is the request itself keeps off all that does not overlap the request.
  pub All-asked :
      (ext : Extent) (queue : List ℕ)
      → ext.start ≡ (locks req).req_extent.start
      → ext.end ≡ (locks req).req_extent.end
      → All (IsKept ext) queue
  All-asked ext [] s e = tt
  All-asked ext (lock ∷ queue) s e = (
    λ other conflict. asked-IsApart (locks req).req_extent ext (locks lock) s e,
    All-asked ext queue s e,
  )

  abbrev asked : Extent
  asked = (locks req).req_extent

  -- What the loop leaves of the extent.
  record IsLeft (queue : List ℕ) (ext : Extent) (r : Bool × Extent × ℕ) : Type 0 where
    between : IsBetween asked ext r.1
    kept : All (IsKept r.1) queue

  -- One more lock, that is kept off by the whole of what the loop started from.
  also :
      (lock : ℕ) (queue : List ℕ) (ext next : Extent) (r : Bool × Extent × ℕ)
      → IsBetween asked ext next
      → IsKept next lock
      → IsLeft queue next r
      → IsLeft (lock ∷ queue) ext r
  also lock queue ext next r v here left =
      let w = left.between in
      record {
        between = IsBetween-trans asked ext next r.1 v w;
        kept = (
          λ other conflict.
              IsApart-inside asked next r.1 (locks lock) w.start_inside w.end_inside
                (here other conflict),
          left.kept,
        );
      }

  module _ (order : asked.start ≤ asked.end) where
    waiting_loop_lem :
        (queue : List ℕ) (ext : Extent) (conflicting : ℕ)
        → All (λ lock. IsWaiting (locks lock)) queue
        → ext.start ≤ asked.start
        → asked.end ≤ ext.end
        → ext.end < 2 ^ 64
        → IsLeft queue ext (waiting_loop locks req queue ext conflicting)
    unfolding waiting_loop
    waiting_loop_lem [] ext c waits a b top = record {
      between = unchanged asked ext a b;
      kept = tt;
    }
    waiting_loop_lem (lock ∷ queue) ext c (w, waits) a b top =
        elim (Bool-cases (same_extent ext asked)) [
          | inl same ↦
              let (s, e) = same_extent_lem ext asked same in
              rw same (record {
                between = unchanged asked ext a b;
                kept = All-asked ext (lock ∷ queue) s e;
              })
          | inr differs ↦ elim (Bool-cases (lock == req)) [
            | inl itself ↦
                let skips =
                  λ (other : lock ≢ req) (_ : is_conflicting (locks lock) (locks req) ≡ true).
                    absurd (other ((==_iff lock req).0 itself)) in
                rw (differs, itself)
                  (also lock queue ext ext _ (unchanged asked ext a b) skips
                    (waiting_loop_lem queue ext c waits a b top))
            | inr other ↦ elim (Bool-cases (is_conflicting (locks lock) (locks req))) [
              | inr compatible ↦
                  rw (differs, other, compatible)
                    (also lock queue ext ext _ (unchanged asked ext a b) (λ _ conflict. cc)
                      (waiting_loop_lem queue ext c waits a b top))
              | inl conflict ↦
                  let start = if ltb 4 (c + 1) then asked.start else ext.start in
                  let left : Extent = record ext { start = start } in
                  let (low, high) = raised asked ext (ltb 4 (c + 1)) a in
                  let (v, apart) = avoid_lem asked left (locks lock) w order high b top in
                  let next = avoid asked (locks lock) left in
                  let v' : IsBetween asked ext next =
                    IsBetween-trans asked ext left next
                      (record {
                        start_inside = low;
                        start_asked = high;
                        end_asked = b;
                        end_inside = omega arith;
                      })
                      v in
                  rw (differs, other, conflict)
                    (also lock queue ext next _ v' (λ _ _. apart)
                      (waiting_loop_lem queue next (c + 1) waits v.start_asked v.end_asked
                        (omega (arith, v.end_inside))))
            ]
          ]
        ]

    -- With a request of whole pages among waiting locks that have the extents that they asked for,
    -- the step over the waiting locks ends without a failed assertion; its extent lies in what was
    -- left, contains the request, and overlaps another waiting lock in conflict with the request
    -- only where that lock overlaps the request.
    pub ldlm_extent_internal_policy_waiting_lem :
        (fuel : ℕ) (queue : List ℕ) (outer : Extent)
        → 52 ≤ fuel
        → IsAligned asked
        → All (λ lock. IsWaiting (locks lock)) queue
        → outer.start ≤ asked.start
        → asked.end ≤ outer.end
        → outer.end < 2 ^ 64
        → Ends
            (λ ext. IsBetween asked outer ext × All (IsKept ext) queue)
            (ldlm_extent_internal_policy_waiting fuel locks req queue outer)
    unfolding ldlm_extent_internal_policy_waiting
    ldlm_extent_internal_policy_waiting_lem fuel queue outer enough aligned waits a b top =
        let r = waiting_loop locks req queue outer 0 in
        let left = waiting_loop_lem queue outer 0 waits a b top in
        let w = left.between in
        Ends-if r.0 (λ _. ends (left.between, left.kept))
          λ _.
            Ends-map
              (ldlm_extent_internal_policy_fixup_lem fuel (locks req).req_mode asked r.1 r.2 enough
                aligned order w.start_asked w.end_asked (omega (arith, w.end_inside)))
              λ ext u. (
                IsBetween-trans asked outer r.1 ext w u,
                All-IsKept r.1 ext queue u.start_inside u.end_inside left.kept,
              )
