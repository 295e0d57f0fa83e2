-- ===== src/Stripe/Raid0/Coverage.antt =====
-- The disks' shares of a request: none is lost, and none is counted twice.
use native.Mathlib.Nat.{div-add-mod', mod-lt}
use native.Mathlib.Decide.{dec_lt}
use lustre_simulator.Base.{
  ℕ, zero, suc, ◌+◌, ◌-◌, ◌*◌, ◌/◌, ◌%◌, ◌^◌, ◌≤◌, ◌<◌, ◌≡◌, refl, ap, ◌∙◌, Bool, true, false, ◌&&◌,
  not, arith, leb, ◌==◌, if◌then◌else◌,
}
use lustre_simulator.Base.Run.{Run, ok, ◌>>=◌, assert, Ends, ends, Ends-bind, Ends-map, Ends-eq}
use lustre_simulator.Base.Words.{u64_id, sub_u64_lem}
use lustre_simulator.Stripe.Raid0.{
  Raid0Device, Side, inside, is_inside, stripe_number, chunk_part, stripe_offset, stripe_intersect,
  obd_object_eof,
}
use lustre_simulator.Stripe.Raid0.Layout.{
  IsConfigured, disk_pos, share, row_below, share-le, stripe_number_lem, stripe_offset_lem,
  div-mul_add, mod-mul_add, width_pos,
}

-- A byte at the offset `p` of a row lies in the chunk of the disk `p / c`.
pub own_chunk :
    (c n p : ℕ) → 0 < c → p < n * c → (p / c < n) × (chunk_part c p (p / c * c) ≡ (inside, p % c))
unfolding chunk_part
own_chunk c n p h k =
    let whole : p / c * c + p % c ≡ p = div-add-mod' p c in
    let rest : p % c < c = mod-lt p h in (grind arith, ground arith)

-- `StripeNumber` names a disk that the device has, and `StripeOffset` puts the byte inside a chunk
-- of that disk, at an address from which the byte's offset can be computed back: on a configured
-- device no two bytes share an address.
pub stripe_number-stripe_offset :
    (r : Raid0Device) (x : ℕ)
    → IsConfigured r
    → x < 2 ^ 64
    → Ends
        (λ s.
          (s < r.devcnt)
          × Ends
              (λ (side, d).
                (side ≡ inside)
                × (x ≡ d / r.chunk * (r.devcnt * r.chunk) + s * r.chunk + d % r.chunk))
              (stripe_offset r s x))
        (stripe_number r x)
stripe_number-stripe_offset r x v h =
    let w = r.devcnt * r.chunk in
    let p = x % w in
    let own = own_chunk r.chunk r.devcnt p v.chunks (mod-lt x (width_pos _ _ v.disks v.chunks)) in
    let whole : x / w * w + p ≡ x = div-add-mod' x w in
    let split : p / r.chunk * r.chunk + p % r.chunk ≡ p = div-add-mod' p r.chunk in
    let rest : p % r.chunk < r.chunk = mod-lt p v.chunks in
    rw (stripe_number_lem r v x) (
      ends (
        own.0,
        rw (stripe_offset_lem r v (p / r.chunk) x own.0 h, own.1)
            (ends (
              refl,
              rw
                  (
                    div-mul_add (x / w) r.chunk (p % r.chunk) rest,
                    mod-mul_add (x / w) r.chunk (p % r.chunk) rest,
                  )
                  (omega arith),
            )),
      ))

share_mono : (c p q s : ℕ) → p ≤ q → share c p s ≤ share c q s
unfolding chunk_part
share_mono c p q s h = ground arith

pub share-le-chunk : (c p s : ℕ) → share c p s ≤ c
unfolding chunk_part
share-le-chunk c p s = ground arith

row_le : (q q' w p p' : ℕ) → p' < w → q * w + p ≤ q' * w + p' → ¬ (q < q') → q ≡ q'
row_le q q' w p p' h k ge = grind arith

-- With the rows and the offsets in them as numbers of their own.
pos_mono :
    (c w s q q' p p' : ℕ)
    → p' < w
    → q * w + p ≤ q' * w + p'
    → q * c + share c p s ≤ q' * c + share c p' s
pos_mono c w s q q' p p' h k = elim (dec_lt q q') [
  | yes lt ↦ let next : q * c + c ≤ q' * c = grind arith in omega (arith, share-le-chunk c p s)
  | no ge ↦
      let same : q ≡ q' = row_le q q' w p p' h k ge in
      rw same (omega (arith, share_mono c p p' s (omega (arith, ap (λ (t : ℕ). t * w) same))))
]

pub disk_pos_mono :
    (r : Raid0Device) (s x y : ℕ) → IsConfigured r → x ≤ y → disk_pos r s x ≤ disk_pos r s y
disk_pos_mono r s x y v h =
    let w = r.devcnt * r.chunk in
    pos_mono r.chunk w s (x / w) (y / w) (x % w) (y % w) (mod-lt y (width_pos _ _ v.disks v.chunks))
      (rw (div-add-mod' x w, div-add-mod' y w) h)

shares : ℕ → ℕ → ℕ → ℕ
shares c p zero = 0
shares c p (suc k) = shares c p k + share c p k

shares_lem : (c p k : ℕ) → shares c p k ≡ (if leb p (k * c) then p else k * c)
unfolding shares chunk_part
shares_lem c p zero = ground arith
shares_lem c p (suc k) = ground (arith, shares_lem c p k)

-- The sum of the first `k` disks' addresses.
total_pos : Raid0Device → ℕ → ℕ → ℕ
total_pos r x zero = 0
total_pos r x (suc k) = total_pos r x k + disk_pos r k x

total_pos-shares :
    (r : Raid0Device) (x k : ℕ)
    → total_pos r x k
      ≡ x / (r.devcnt * r.chunk) * (k * r.chunk) + shares r.chunk (x % (r.devcnt * r.chunk)) k
unfolding total_pos shares
total_pos-shares r x zero = grind arith
total_pos-shares r x (suc k) = grind (arith, total_pos-shares r x k)

-- All disks together hold every byte below `x`.
total_pos_all : (r : Raid0Device) (x : ℕ) → IsConfigured r → total_pos r x r.devcnt ≡ x
total_pos_all r x v =
    let w = r.devcnt * r.chunk in
    let p : x % w < w = mod-lt x (width_pos _ _ v.disks v.chunks) in
    total_pos-shares r x r.devcnt ∙ rw shares_lem (ground (arith, div-add-mod' x w))

module _ (r : Raid0Device) (v : IsConfigured r) (start count : ℕ)
    (fits : start + count < obd_object_eof) where
  side : ℕ → ℕ → Side
  side s x = (chunk_part r.chunk (x % (r.devcnt * r.chunk)) (s * r.chunk)).0

  -- What `StripeIntersect` computes where no arithmetic wraps.
  pub taken : ℕ → Bool × ℕ × ℕ
  taken s =
      let dstart = disk_pos r s start in
      let dend = disk_pos r s (start + count) in
      if not (is_inside (side s start))
        && not (is_inside (side s (start + count)))
        && dstart == dend
      then (false, dstart, dend)
      else (true, dstart, dend - dstart)

  pub stripe_intersect_lem :
      (s : ℕ) → s < r.devcnt → stripe_intersect r s start count ≡ ok (taken s)
  unfolding stripe_intersect taken side
  stripe_intersect_lem s h =
      let mono = disk_pos_mono r s start (start + count) v (omega arith) in
      let small : disk_pos r s (start + count) ≤ start + count = omega (
        arith,
        row_below (start + count) r.devcnt r.chunk v.disks,
        share-le r.chunk ((start + count) % (r.devcnt * r.chunk)) s,
      ) in
      let pass : assert (not (start == obd_object_eof) && not (count == obd_object_eof)) ≡ ok tt =
        ground arith in
      rw (
        pass,
        u64_id (start + count) (omega arith),
        stripe_offset_lem r v s start h (omega arith),
        stripe_offset_lem r v s (start + count) h (omega arith),
        sub_u64_lem _ _ mono (omega arith),
      )

  first_side :
      (s : ℕ) {d : ℕ}
      → chunk_part r.chunk (start % (r.devcnt * r.chunk)) (s * r.chunk) ≡ (inside, d)
      → side s start ≡ inside
  unfolding side
  first_side s e = ap (λ (p : Side × ℕ). p.0) e

  -- The disk that holds the first byte always takes part.
  pub taken_inside :
      (s : ℕ) {d : ℕ}
      → chunk_part r.chunk (start % (r.devcnt * r.chunk)) (s * r.chunk) ≡ (inside, d)
      → taken s ≡ (true, disk_pos r s start, disk_pos r s (start + count) - disk_pos r s start)
  unfolding taken
  taken_inside s e = let first : side s start ≡ inside = first_side s e in rw first

  taken_count :
      (s : ℕ)
      → (if (taken s).0 then (taken s).2 else 0) + disk_pos r s start ≡ disk_pos r s (start + count)
  unfolding taken
  taken_count s = ground (arith, disk_pos_mono r s start (start + count) v (omega arith))

-- The sum of the counts of the first `k` disks that take part in a request.
pub total_count : Raid0Device → ℕ → ℕ → ℕ → Run ℕ
total_count r start count zero = ok 0
total_count r start count (suc k) = do
  sum ← total_count r start count k
  (hit, _, dcount) ← stripe_intersect r k start count
  ok ((if hit then dcount else 0) + sum)

total_count_lem :
    (r : Raid0Device) (start count k : ℕ)
    → IsConfigured r
    → start + count < obd_object_eof
    → k ≤ r.devcnt
    → Ends
        (λ sum. sum + total_pos r start k ≡ total_pos r (start + count) k)
        (total_count r start count k)
unfolding total_count total_pos
total_count_lem r start count zero v fits h = ends (omega arith)
total_count_lem r start count (suc k) v fits h =
    Ends-bind (total_count_lem r start count k v fits (omega arith)) λ sum e.
      rw (stripe_intersect_lem r v start count fits k h)
        (ends (omega (arith, taken_count r v start count fits k)))

-- On a configured device the disks' shares of a request, as `StripeIntersect` computes them, add
-- up to the request: no byte is lost and none is counted twice.
pub stripe_intersect_total :
    (r : Raid0Device) (start count : ℕ)
    → IsConfigured r
    → start + count < obd_object_eof
    → total_count r start count r.devcnt ≡ ok count
stripe_intersect_total r start count v fits = Ends-eq (
    Ends-map (total_count_lem r start count r.devcnt v fits (omega arith))
      λ sum e. omega (arith, total_pos_all r start v, total_pos_all r (start + count) v))
