-- ===== src/Ldlm/Fixup.antt =====
-- lustre/ldlm.cpp: the last step on a lock's extent, which aligns it as the request is aligned.
use lustre_simulator.Base.{
  ℕ, ◌+◌, ◌^◌, ◌≤◌, ◌<◌, ◌≡◌, ◌≢◌, refl, true, false, ◌&&◌, leb, ◌==◌, arith,
}
use lustre_simulator.Base.Run.{out_of_fuel, Ends, ends, Ends-if, Ends-bind}
use lustre_simulator.Base.Words.{u64, u64_id, u64-lt}
use lustre_simulator.Interval.{Extent}
use lustre_simulator.Ldlm.{
  Mode, same_extent, obd_object_eof, cap_growth, find_mask, align_start, align_end,
  ldlm_extent_internal_policy_fixup,
}
use lustre_simulator.Ldlm.Mask.{
  Divides, find_mask_lem, align_start_lem, align_end_lem, mask_loop-endless,
}

-- An extent that contains the request and lies in what was left for it.
pub record IsBetween (req outer ext : Extent) : Type 0 where
  pub start_inside : outer.start ≤ ext.start
  pub start_asked : ext.start ≤ req.start
  pub end_asked : req.end ≤ ext.end
  pub end_inside : ext.end ≤ outer.end

pub IsBetween-trans :
    (req outer mid ext : Extent)
    → IsBetween req outer mid
    → IsBetween req mid ext
    → IsBetween req outer ext
IsBetween-trans req outer mid ext v w = ground (arith, v.start_inside, v.end_inside)

pub same_extent_lem :
    (x y : Extent) → same_extent x y ≡ true → (x.start ≡ y.start) × (x.end ≡ y.end)
same_extent_lem x y h = ground arith

-- The request covers whole pages of 4096 bytes.
abbrev pub IsAligned : Extent → Type 0
IsAligned req = Divides 4096 req.start × Divides 4096 (u64 (req.end + 1))

cap_growth_lem :
    (mode : Mode) (req ext : Extent) (conflicting : ℕ)
    → ext.start ≤ req.start
    → req.end ≤ ext.end
    → IsBetween req ext (cap_growth mode req ext conflicting)
unfolding cap_growth
cap_growth_lem mode req ext conflicting start end = ground arith

module _ (fuel : ℕ) (mode : Mode) (req ext : Extent) (conflicting : ℕ) (enough : 52 ≤ fuel)
    (aligned : IsAligned req) (order : req.start ≤ req.end) (start : ext.start ≤ req.start)
    (end : req.end ≤ ext.end) (within : ext.end < 2 ^ 64) where
  -- With a request of whole pages that lies in what is left, the step ends without a failed
  -- assertion, and its extent lies in what is left and contains the request.
  pub ldlm_extent_internal_policy_fixup_lem :
      Ends (IsBetween req ext) (ldlm_extent_internal_policy_fixup fuel mode req ext conflicting)
  unfolding ldlm_extent_internal_policy_fixup
  ldlm_extent_internal_policy_fixup_lem =
      let v = cap_growth_lem mode req ext conflicting start end in
      let capped = cap_growth mode req ext conflicting in
      Ends-if (capped.start == 0 && capped.end == obd_object_eof) (λ _. ends v)
        λ _.
          Ends-bind
            (find_mask_lem fuel (u64 (req.end + 1)) req.start enough aligned.1 aligned.0
              (u64-lt (req.end + 1)) (omega arith))
            λ p m.
              let (s, s') =
                align_start_lem p capped.start req.start m.some m.of_all m.of_b v.start_asked
                  (omega arith) in
              let (e, e') =
                align_end_lem p capped.end req.end m.some m.of_a v.end_asked
                  (omega (arith, v.end_inside)) in
              let start_ok : leb (align_start p capped.start) req.start ≡ true = ground arith in
              let end_ok : leb req.end (align_end p capped.end) ≡ true = ground arith in
              rw (start_ok, end_ok)
                (ends (record {
                  start_inside = omega (arith, v.start_inside);
                  start_asked = s';
                  end_asked = e;
                  end_inside = omega (arith, v.end_inside);
                }))

find_mask-endless : (fuel a b : ℕ) → a ≢ 0 → a < 4096 → b < 4096 → find_mask fuel a b ≡ out_of_fuel
unfolding find_mask
find_mask-endless fuel a b some la lb =
    let not_none : (a == 0 && b == 0) ≡ false = ground arith in
    rw (not_none, mask_loop-endless 52 fuel a b 4096 refl (omega arith) la lb) refl

-- For a request within the first page that does not fill it, while another lock limits the extent,
-- the mask's loop never ends, whatever the rounds.
pub fixup-endless :
    (fuel : ℕ) (mode : Mode) (req ext : Extent) (conflicting : ℕ)
    → req.start ≤ req.end
    → req.end < 4095
    → ext.start ≤ req.start
    → req.end ≤ ext.end
    → ext.end < obd_object_eof
    → ldlm_extent_internal_policy_fixup fuel mode req ext conflicting ≡ out_of_fuel
unfolding ldlm_extent_internal_policy_fixup
fixup-endless fuel mode req ext conflicting order small start end limited =
    let v = cap_growth_lem mode req ext conflicting start end in
    let capped = cap_growth mode req ext conflicting in
    let not_whole : (capped.start == 0 && capped.end == obd_object_eof) ≡ false =
      ground (arith, v.end_inside) in
    rw
      (
        not_whole,
        u64_id (req.end + 1) (omega arith),
        find_mask-endless fuel (req.end + 1) req.start (omega arith) (omega arith) (omega arith),
      )
      refl
