-- ===== src/Ldlm/Granted.antt =====
-- lustre/ldlm.cpp: how the granted locks limit the extent of a new one.
use lustre_simulator.Base.{
  ℕ, ◌+◌, ◌^◌, ◌-◌, ◌≤◌, ◌<◌, ◌≡◌, inl, inr, Bool, true, false, List, [], ◌∷◌, ltb, leb,
  if◌then◌else◌, Bool-cases, All, arith,
}
use lustre_simulator.Base.Run.{Ends, ends, Ends-bind, Ends-map, Ends-if}
use lustre_simulator.Interval.{Extent}
use lustre_simulator.Interval.Order.{IsTree, found, found-inside}
use lustre_simulator.Interval.Expand.{interval_is_overlapped_lem, interval_expand_lem}
use lustre_simulator.Ldlm.{
  Mode, IntervalTree, lockmode_compat, min_u64, max_u64, same_extent, granted_loop,
  ldlm_extent_internal_policy_granted,
}
use lustre_simulator.Ldlm.Fixup.{
  IsBetween, IsBetween-trans, same_extent_lem, IsAligned, ldlm_extent_internal_policy_fixup_lem,
}

-- A tree of granted locks is in order.
abbrev pub IsSorted : IntervalTree → Type 0
IsSorted tree = IsTree 0 (2 ^ 64 - 1) tree.root

-- No granted lock of a conflicting mode overlaps the extent.
abbrev pub IsFree : Mode → Extent → IntervalTree → Type 0
IsFree mode ext tree = lockmode_compat tree.mode mode ≡ false → found ext tree.root ≡ []

pub All-IsFree :
    (mode : Mode) (outer inner : Extent) (trees : List IntervalTree)
    → outer.start ≤ inner.start
    → inner.end ≤ outer.end
    → All (IsFree mode outer) trees
    → All (IsFree mode inner) trees
All-IsFree mode outer inner [] a b free = tt
All-IsFree mode outer inner (tree ∷ trees) a b (here, there) = (
  λ conflict. found-inside outer inner tree.root a b (here conflict),
  All-IsFree mode outer inner trees a b there,
)

-- An extent between the request and what was left, that is free in the trees.
record IsLimit (mode : Mode) (req outer : Extent) (trees : List IntervalTree) (r : Extent × ℕ)
    : Type 0 where
  between : IsBetween req outer r.0
  free : All (IsFree mode r.0) trees

abbrev narrowed : Extent → ℕ → Extent → Extent
narrowed limiter start grown = record {
  start = max_u64 start grown.start;
  end = min_u64 limiter.end grown.end;
}

narrowed_lem :
    (req limiter grown : Extent) (start : ℕ)
    → limiter.start ≤ start
    → start ≤ req.start
    → req.end ≤ limiter.end
    → grown.start ≤ req.start
    → req.end ≤ grown.end
    → IsBetween req limiter (narrowed limiter start grown)
      × (grown.start ≤ (narrowed limiter start grown).start)
      × ((narrowed limiter start grown).end ≤ grown.end)
narrowed_lem req limiter grown start a b c d e = (ground arith, ground arith, ground arith)

start_lem :
    (req limiter : Extent) (test : Bool)
    → limiter.start ≤ req.start
    → (limiter.start ≤ (if test then req.start else limiter.start))
      × ((if test then req.start else limiter.start) ≤ req.start)
start_lem req limiter true a = (a, omega arith)
start_lem req limiter false a = (omega arith, a)

module _ (mode : Mode) (req : Extent) (order : req.start ≤ req.end)
    (within : req.end < 2 ^ 64) where
  granted_loop_lem :
      (trees : List IntervalTree) (limiter : Extent) (conflicting : ℕ)
      → All IsSorted trees
      → All (IsFree mode req) trees
      → limiter.start ≤ req.start
      → req.end ≤ limiter.end
      → Ends (IsLimit mode req limiter trees) (granted_loop mode req trees limiter conflicting)
  unfolding granted_loop
  granted_loop_lem [] limiter c sorted free a b =
      ends (record { between = ground arith; free = tt })
  granted_loop_lem (tree ∷ trees) limiter c (sorted, sorted') (free, free') a b =
      elim (Bool-cases (lockmode_compat tree.mode mode)) [
        | inl compat ↦ rw compat (
            Ends-map (granted_loop_lem trees limiter c sorted' free' a b)
              λ r v. record { between = v.between; free = (λ conflict. cc, v.free) })
        | inr conflict ↦
            let here = free conflict in
            let start = if ltb 4 (c + tree.size) then req.start else limiter.start in
            let (low, high) = start_lem req limiter (ltb 4 (c + tree.size)) a in
            rw
              (
                conflict,
                interval_is_overlapped_lem req 0 (2 ^ 64 - 1) tree.root (omega arith) sorted,
              )
              (Ends-bind
                (interval_expand_lem 0 (2 ^ 64 - 1) tree.root req (record limiter { start = start })
                  sorted (omega arith) (omega arith) within here)
                λ grown v.
                  let (w, x, y) = narrowed_lem req limiter grown start low high b v.below v.above in
                  let next = narrowed limiter start grown in
                  Ends-if (same_extent next req)
                    (λ same.
                      let (s, e) = same_extent_lem next req same in
                      ends (record {
                        between = w;
                        free = (
                          λ _. found-inside grown next tree.root x y v.free,
                          All-IsFree mode req next trees (omega arith) (omega arith) free',
                        );
                      }))
                    λ _.
                      Ends-map
                        (granted_loop_lem trees next (c + tree.size) sorted' free' w.start_asked
                          w.end_asked)
                        λ r u. record {
                          between = IsBetween-trans req limiter next r.0 w u.between;
                          free = (
                            λ _.
                                found-inside grown r.0 tree.root
                                  (omega (arith, u.between.start_inside, x))
                                  (omega (arith, u.between.end_inside, y)) v.free,
                            u.free,
                          );
                        })
      ]

  -- With a request of whole pages that no granted lock of a conflicting mode overlaps, the step over
  -- the granted locks ends without a failed assertion; its extent lies in what was left, contains
  -- the request, and overlaps no granted lock of a conflicting mode.
  pub ldlm_extent_internal_policy_granted_lem :
      (fuel : ℕ) (trees : List IntervalTree) (outer : Extent)
      → 52 ≤ fuel
      → IsAligned req
      → All IsSorted trees
      → All (IsFree mode req) trees
      → outer.start ≤ req.start
      → req.end ≤ outer.end
      → outer.end < 2 ^ 64
      → Ends
          (λ ext. IsBetween req outer ext × All (IsFree mode ext) trees)
          (ldlm_extent_internal_policy_granted fuel mode req trees outer)
  unfolding ldlm_extent_internal_policy_granted
  ldlm_extent_internal_policy_granted_lem fuel trees outer enough aligned sorted free a b top =
      Ends-bind (granted_loop_lem trees outer 0 sorted free a b) λ (ext, c) v.
        let w = v.between in
        let start_ok : leb ext.start req.start ≡ true = ground (arith, w.start_asked) in
        let end_ok : leb req.end ext.end ≡ true = ground (arith, w.end_asked) in
        rw (start_ok, end_ok)
          (Ends-map
            (ldlm_extent_internal_policy_fixup_lem fuel mode req ext c enough aligned order
              w.start_asked w.end_asked (omega (arith, w.end_inside)))
            λ r u. (
              IsBetween-trans req outer ext r w u,
              All-IsFree mode ext r trees u.start_inside u.end_inside v.free,
            ))
