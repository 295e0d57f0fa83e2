-- ===== src/Stripe/Lov/Tests.antt =====
-- The theorems on the logical object volume at a file of three stripes.
use lustre_simulator.Base.{
  ℕ, zero, suc, ◌+◌, ◌*◌, ◌%◌, ◌<◌, ◌≡◌, ◌≢◌, refl, true, arith, some, [], ◌∷◌, get_elem?, length,
}
use lustre_simulator.Base.Run.{ok, Ends}
use lustre_simulator.Stripe.Raid0.{Raid0Device, Ioreq, inside, submit_ioreq, stripe_number}
use lustre_simulator.Stripe.Raid0
use lustre_simulator.Stripe.Lov.{
  Layout, ChunkObject, FileObject, Lov, SubIo, check, stripe_offset, read_write, osc_create, create,
}
use lustre_simulator.Stripe.Lov.Objects.{create_places, create_distinct}
use lustre_simulator.Stripe.Lov.Placement.{IsLayout, stripe_of, stripe_offset-raid0}
use lustre_simulator.Stripe.Lov.Pieces.{Covers, IsReady, read_write-Covers}

abbrev by_three : Layout
by_three = record { stripe_size = 4; stripe_count = 3; stripe_pattern = 0 }

by_three-IsLayout : IsLayout by_three
by_three-IsLayout = record { sized = omega arith; striped = omega arith; width = omega arith }

abbrev volume : Lov
volume = record { num = 3; layout = by_three }

abbrev chunk_on : ℕ → ChunkObject
chunk_on t = record { id = 0; ost_idx = t; ost_gen = 0; kms = 0 }

abbrev file : FileObject
file = record {
  id = 0;
  has_layout = true;
  cobj = chunk_on 2 ∷ chunk_on 0 ∷ chunk_on 1 ∷ [];
  layout = by_three;
}

file-placed :
    (i : ℕ) → i < 3 → (o : ChunkObject) × (get_elem? file.cobj i ≡ some o) × (o.ost_idx < 3)
file-placed zero h = (chunk_on 2, refl, omega arith)
file-placed (suc zero) h = (chunk_on 0, refl, omega arith)
file-placed (suc (suc zero)) h = (chunk_on 1, refl, omega arith)
file-placed (suc (suc (suc i))) h = absurd (omega arith)

file-IsReady : IsReady volume file
file-IsReady = record { layout = by_three-IsLayout; placed = file-placed }

create_places_example :
    Ends
      (λ made.
        (made.layout ≡ by_three)
        × (length made.cobj ≡ 3)
        × ((i : ℕ) → i < 3 → get_elem? made.cobj i ≡ some (osc_create 5 ((5 + i) % 3))))
      (create true 3 5 volume file)
create_places_example = create_places true 3 5 volume file (omega arith) (omega arith)

create_distinct_example :
    Ends
      (λ made.
        (i j : ℕ) (a b : ChunkObject)
        → i < j
        → j < length made.cobj
        → get_elem? made.cobj i ≡ some a
        → get_elem? made.cobj j ≡ some b
        → a.ost_idx ≢ b.ost_idx)
      (create true 3 5 volume file)
create_distinct_example =
    create_distinct true 3 5 volume file (omega arith) (omega arith) (omega arith)

stripe_offset-raid0_example :
    (d : ℕ) × (Raid0.stripe_offset
        (record { devcnt = 3; chunk = 4; curoff = 0 })
        (stripe_of by_three 17)
        17
      ≡ ok (inside, d))
    × (stripe_offset by_three 17 ≡ ok (d + stripe_of by_three 17 * 4))
stripe_offset-raid0_example = stripe_offset-raid0 by_three 17 by_three-IsLayout (omega arith)

abbrev accept : SubIo → ℕ
accept sub = 0

read_write-Covers_example :
    Ends
      (λ r. (r.rc ≡ 0) × (r.ref ≡ 0 + length r.subs) × Covers file 8 12 r.subs)
      (read_write accept volume file (record { off = 8; count = 12; ref = 0 }))
unfolding check
read_write-Covers_example =
    read_write-Covers volume file (record { off = 8; count = 12; ref = 0 }) accept file-IsReady
      (λ sub. refl) (omega arith) (omega arith) refl
