-- ===== src/Stripe/Raid0/Tests.antt =====
-- The theorems on the RAID-0 device at a device of two disks.
use lustre_simulator.Base.{◌+◌, ◌*◌, ◌/◌, ◌%◌, ◌<◌, ◌≡◌, refl, arith}
use lustre_simulator.Base.Run.{ok, fault, Ends}
use lustre_simulator.Stripe.Raid0.{Raid0Device, Ioreq, inside, submit_ioreq, stripe_number}
use lustre_simulator.Stripe.Raid0
use lustre_simulator.Stripe.Raid0.Layout.{IsConfigured}
use lustre_simulator.Stripe.Raid0.Coverage.{
  stripe_number-stripe_offset, total_count, stripe_intersect_total,
}
use lustre_simulator.Stripe.Raid0.Submit.{submit_across}

abbrev two_disks : Raid0Device
two_disks = record { devcnt = 2; chunk = 4; curoff = 0 }

two_disks-IsConfigured : IsConfigured two_disks
two_disks-IsConfigured = record { chunks = omega arith; disks = omega arith; width = omega arith }

stripe_number-stripe_offset_example :
    Ends
      (λ s.
        (s < 2)
        × Ends
            (λ (side, d). (side ≡ inside) × (13 ≡ d / 4 * (2 * 4) + s * 4 + d % 4))
            (Raid0.stripe_offset two_disks s 13))
      (stripe_number two_disks 13)
stripe_number-stripe_offset_example =
    stripe_number-stripe_offset two_disks 13 two_disks-IsConfigured (omega arith)

stripe_intersect_total_example : total_count two_disks 3 10 2 ≡ ok 10
stripe_intersect_total_example =
    stripe_intersect_total two_disks 3 10 two_disks-IsConfigured (omega arith)

submit_across_example : submit_ioreq two_disks (record { off = 13; count = 4; ref = 0 }) ≡ fault
submit_across_example =
    submit_across two_disks (record { off = 13; count = 4; ref = 0 }) two_disks-IsConfigured
      (omega arith) (omega arith) refl (omega arith) (omega arith)
