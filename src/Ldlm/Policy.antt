-- ===== src/Ldlm/Policy.antt =====
-- lustre/ldlm.cpp: the extent that a lock is given when it is granted.
use lustre_simulator.Base.{ℕ, ◌^◌, ◌≤◌, ◌<◌, ◌≡◌, refl, Bool, false, not, none, ==_refl, All, arith}
use lustre_simulator.Base.Run.{Ends, ends, Ends-bind, Ends-if}
use lustre_simulator.Interval.{Extent}
use lustre_simulator.Ldlm.{Resource, whole_file, same_extent, same_export, ldlm_extent_policy}
use lustre_simulator.Ldlm.Fixup.{IsAligned}
use lustre_simulator.Ldlm.Granted.{
  IsSorted, IsFree, All-IsFree, ldlm_extent_internal_policy_granted_lem,
}
use lustre_simulator.Ldlm.Waiting.{
  IsWaiting, IsKept, All-asked, ldlm_extent_internal_policy_waiting_lem,
}

same_self : (ext : Extent) → false ≡ not (same_extent ext ext)
same_self ext = rw (==_refl ext.start, ==_refl ext.end) refl

-- What a lock gets: at least what it asked for, nothing of a granted lock in conflict, and of a
-- waiting one only what the request overlaps.
pub record IsGiven (res : Resource) (req : ℕ) (r : Bool × Extent) : Type 0 where
  pub start_asked : r.1.start ≤ (res.locks req).req_extent.start
  pub end_asked : (res.locks req).req_extent.end ≤ r.1.end
  pub top : r.1.end < 2 ^ 64
  pub free : All (IsFree (res.locks req).req_mode r.1) res.trees
  pub kept : All (IsKept res.locks req r.1) res.waiting
  pub changed : r.0 ≡ not (same_extent r.1 (res.locks req).extent)

module _ (fuel : ℕ) (res : Resource) (req : ℕ) (enough : 52 ≤ fuel) (v : IsWaiting (res.locks req))
    (sorted : All IsSorted res.trees)
    (free : All (IsFree (res.locks req).req_mode (res.locks req).req_extent) res.trees)
    (aligned : IsAligned (res.locks req).req_extent)
    (waits : All (λ lock. IsWaiting (res.locks lock)) res.waiting) where
  -- A lock that keeps its own extent has just what it asked for.
  own_extent : IsGiven res req (false, (res.locks req).extent)
  own_extent =
      let asked = (res.locks req).req_extent in
      let own = (res.locks req).extent in
      record {
        start_asked = omega (arith, v.start_asked);
        end_asked = omega (arith, v.end_asked);
        top = v.within;
        free =
            All-IsFree (res.locks req).req_mode asked own res.trees (omega (arith, v.start_asked))
              (omega (arith, v.end_asked)) free;
        kept =
            All-asked res.locks req own res.waiting (omega (arith, v.start_asked))
              (omega (arith, v.end_asked));
        changed = same_self (res.locks req).extent;
      }

  pub ldlm_extent_policy_lem : Ends (IsGiven res req) (ldlm_extent_policy fuel res req)
  unfolding ldlm_extent_policy
  ldlm_extent_policy_lem =
      let lock = res.locks req in
      let asked = lock.req_extent in
      Ends-if (same_export lock.export none) (λ _. ends own_extent)
        λ _.
          Ends-if (same_extent lock.extent whole_file) (λ _. ends own_extent)
            λ _.
              Ends-bind
                (ldlm_extent_internal_policy_granted_lem lock.req_mode asked
                  (omega (arith, v.order, v.start_asked, v.end_asked))
                  (omega (arith, v.within, v.end_asked)) fuel res.trees whole_file enough aligned
                  sorted free (omega arith) (omega (arith, v.within, v.end_asked)) (omega arith))
                λ granted (w, granted_free).
                  Ends-bind
                    (ldlm_extent_internal_policy_waiting_lem res.locks req
                      (omega (arith, v.order, v.start_asked, v.end_asked)) fuel res.waiting granted
                      enough aligned waits w.start_asked w.end_asked (omega (arith, w.end_inside)))
                    λ ext (u, kept). ends (record {
                      start_asked = u.start_asked;
                      end_asked = u.end_asked;
                      top = omega (arith, u.end_inside, w.end_inside);
                      free =
                          All-IsFree lock.req_mode granted ext res.trees u.start_inside u.end_inside
                            granted_free;
                      kept = kept;
                      changed = refl;
                    })
