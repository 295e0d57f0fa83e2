-- ===== src/Stripe/Raid0.antt =====
-- lustre/raid0device.cpp: the RAID-0 device, which spreads requests over its disks chunk by chunk.
-- The disks queue what they are given (`Disk::SubmitIoreq`), so a sub-request completes later.
pub mod Layout
pub mod Coverage
pub mod Submit
mod Tests
use lustre_simulator.Base.{
  ℕ, zero, suc, ◌+◌, ◌-◌, ◌*◌, ◌/◌, ◌%◌, ◌^◌, Bool, true, false, ◌&&◌, not, List, [], ◌∷◌, ◌++◌,
  ltb, leb, ◌==◌, if◌then◌else◌,
}
use lustre_simulator.Base.Run.{Run, ok, fault, out_of_fuel, ◌>>=◌, ◌>>◌, assert}
use lustre_simulator.Base.Words.{u64, sub_u64}

pub record Raid0Device : Type 0 where
  pub devcnt : ℕ
  pub chunk : ℕ
  pub curoff : ℕ

pub record Ioreq : Type 0 where
  pub off : ℕ
  pub count : ℕ
  pub ref : ℕ

-- A sub-request, with the disk of `set` that it is handed to.
pub record SubIoreq : Type 0 where
  pub stripe : ℕ
  pub off : ℕ
  pub count : ℕ

-- Where an offset falls with respect to a disk's chunk of its row: -1, 0 and 1 in the source.
pub data Side : Type 0 where
  below inside above : Side

abbrev pub is_inside : Side → Bool
is_inside inside = true
is_inside _ = false

pub alloc_block : Raid0Device → ℕ → ℕ × Raid0Device
alloc_block r size = (r.curoff, record r { curoff = u64 (r.curoff + size) })

-- The quotient and the remainder; the source's macro stores the first and returns the second.
pub do_div : ℕ → ℕ → Run (ℕ × ℕ)
do_div a b = if b == 0 then fault else ok (a / b, a % b)

pub stripe_number : Raid0Device → ℕ → Run ℕ
stripe_number r offset = do
  (_, stripe_off) ← do_div offset (u64 (r.devcnt * r.chunk))
  ok (stripe_off / r.chunk)

-- The side, and the offset inside the chunk.
pub chunk_part : ℕ → ℕ → ℕ → Side × ℕ
chunk_part chunk stripe_off this_stripe =
    if ltb stripe_off this_stripe
    then (below, 0)
    else if leb chunk (stripe_off - this_stripe)
    then (above, chunk)
    else (inside, stripe_off - this_stripe)

pub stripe_offset : Raid0Device → ℕ → ℕ → Run (Side × ℕ)
stripe_offset r stripeno roff = do
  (row, stripe_off) ← do_div roff (u64 (r.chunk * r.devcnt))
  let part = chunk_part r.chunk stripe_off (u64 (stripeno * r.chunk))
  ok (part.0, u64 (row * r.chunk + part.1))

abbrev pub obd_object_eof : ℕ
obd_object_eof = 2 ^ 64 - 1

-- Whether the disk takes part, its offset, and its count (its end if it takes no part).
pub stripe_intersect : Raid0Device → ℕ → ℕ → ℕ → Run (Bool × ℕ × ℕ)
stripe_intersect r stripeno start count = do
  assert (not (start == obd_object_eof) && not (count == obd_object_eof))
  (start_side, dstart) ← stripe_offset r stripeno start
  (end_side, dend) ← stripe_offset r stripeno (u64 (start + count))
  ok (
      if not (is_inside start_side) && not (is_inside end_side) && dstart == dend
      then (false, dstart, dend)
      else (true, dstart, sub_u64 dend dstart))

-- The rounds of the `while`; the reference count and the sub-requests are the result.
pub submit_loop : ℕ → Raid0Device → Ioreq → ℕ → ℕ → List SubIoreq → Run (ℕ × List SubIoreq)
submit_loop zero r req stripe left out = out_of_fuel
submit_loop (suc k) r req stripe left out =
    let round : Run (ℕ × List SubIoreq) = do
      assert (req.ref == 0)
      (hit, doff, dcount) ← stripe_intersect r stripe req.off req.count
      assert hit
      let sub : SubIoreq = record { stripe = stripe; off = doff; count = dcount }
      submit_loop k r (record req { ref = req.ref + 1 }) ((stripe + 1) % r.devcnt)
          (sub_u64 left dcount) (out ++ sub ∷ [])
    in if left == 0 then ok (req.ref, out) else round

-- A second round always fails its assertion, so fuel for two rounds is enough.
pub submit_ioreq : Raid0Device → Ioreq → Run (ℕ × List SubIoreq)
submit_ioreq r req = do stripe ← stripe_number r req.off; submit_loop 2 r req stripe req.count []
