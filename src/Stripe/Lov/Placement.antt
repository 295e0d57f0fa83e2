-- ===== src/Stripe/Lov/Placement.antt =====
-- Where `LOV::StripeOffset` puts a file's bytes in the stripes' objects.
use native.Mathlib.Nat.{mod-lt, div-add-mod', div-div-eq-div-mul, mul_comm, mul-le-mul_left}
use lustre_simulator.Base.{ℕ, ◌+◌, ◌*◌, ◌/◌, ◌%◌, ◌^◌, ◌≤◌, ◌<◌, ◌≡◌, ◌≢◌, sym, ap, ◌∙◌, arith}
use lustre_simulator.Base.Run.{ok}
use lustre_simulator.Base.Words.{u64_id}
use lustre_simulator.Stripe.Raid0
use lustre_simulator.Stripe.Raid0.{Raid0Device, inside, do_div, chunk_part}
use lustre_simulator.Stripe.Raid0.Layout.{
  IsConfigured, stripe_offset_lem as raid0_lem, do_div_lem, inside_part, div-mul_add,
}
use lustre_simulator.Stripe.Lov.{Layout, stripe_offset}

pub record IsLayout (lyt : Layout) : Type 0 where
  pub sized : 0 < lyt.stripe_size
  pub striped : 0 < lyt.stripe_count
  pub width : lyt.stripe_size * lyt.stripe_count < 2 ^ 64

abbrev pub stripe_of : Layout → ℕ → ℕ
stripe_of lyt x = x / lyt.stripe_size % lyt.stripe_count

abbrev pub object_offset : Layout → ℕ → ℕ
object_offset lyt x =
    x / (lyt.stripe_size * lyt.stripe_count) * lyt.stripe_size
    + x % (lyt.stripe_size * lyt.stripe_count)

row_le_all : (x s n : ℕ) → 0 < n → x / (s * n) * s + x % (s * n) ≤ x
row_le_all x s n h =
    let whole : x / (s * n) * (s * n) + x % (s * n) ≡ x = div-add-mod' x (s * n) in
    let le : x / (s * n) * s ≤ x / (s * n) * (s * n) =
      mul-le-mul_left (x / (s * n)) (grind arith) in
    omega arith

pub stripe_offset_lem :
    (lyt : Layout) (x : ℕ)
    → IsLayout lyt
    → x < 2 ^ 64
    → stripe_offset lyt x ≡ ok (object_offset lyt x)
unfolding stripe_offset
stripe_offset_lem lyt x v h =
    let small : object_offset lyt x < 2 ^ 64 =
      omega (arith, row_le_all x lyt.stripe_size lyt.stripe_count v.striped) in
    rw (
      u64_id (lyt.stripe_size * lyt.stripe_count) v.width,
      do_div_lem x (lyt.stripe_size * lyt.stripe_count) (grind (arith, v.sized, v.striped)),
      u64_id _ small,
    )

-- A byte's row, its stripe, and its place in the stripe.
pub row_split : (s n x : ℕ) → 0 < s → 0 < n → x % (s * n) ≡ x / s % n * s + x % s
row_split s n x hs hn =
    let a : x / s * s + x % s ≡ x = div-add-mod' x s in
    let b : x / s / n * n + x / s % n ≡ x / s = div-add-mod' (x / s) n in
    let c : x / (s * n) * (s * n) + x % (s * n) ≡ x = div-add-mod' x (s * n) in
    let q : x / s / n ≡ x / (s * n) = div-div-eq-div-mul x s n in
    let b' = ap (λ (t : ℕ). t * s) b in let q' = ap (λ (t : ℕ). t * (s * n)) q in omega arith

same_row : (s q q' t t' : ℕ) → t < s → t' < s → q * s + t ≡ q' * s + t' → (q ≡ q') × (t ≡ t')
same_row s q q' t t' h h' e =
    let a = div-mul_add q s t h in
    let b = div-mul_add q' s t' h' in
    let same : q ≡ q' = sym a ∙ ap (λ (u : ℕ). u / s) e ∙ b in
    (same, omega (arith, ap (λ (u : ℕ). u * s) same))

stripe_offset_injective :
    (lyt : Layout) (x y : ℕ)
    → IsLayout lyt
    → x < 2 ^ 64
    → y < 2 ^ 64
    → stripe_of lyt x ≡ stripe_of lyt y
    → stripe_offset lyt x ≡ stripe_offset lyt y
    → x ≡ y
stripe_offset_injective lyt x y v hx hy same e =
    let s = lyt.stripe_size in
    let n = lyt.stripe_count in
    let places : object_offset lyt x ≡ object_offset lyt y =
      cc (e, stripe_offset_lem lyt x v hx, stripe_offset_lem lyt y v hy) in
    let stripes = ap (λ (t : ℕ). t * s) same in
    let rows =
      same_row s (x / (s * n)) (y / (s * n)) (x % s) (y % s) (mod-lt x v.sized) (mod-lt y v.sized)
        (omega (arith, row_split s n x v.sized v.striped, row_split s n y v.sized v.striped)) in
    let wide = ap (λ (t : ℕ). t * (s * n)) rows.0 in
    omega (
      arith,
      row_split s n x v.sized v.striped,
      row_split s n y v.sized v.striped,
      div-add-mod' x (s * n),
      div-add-mod' y (s * n),
    )

-- No two bytes of one stripe share an address in the stripe's object.
pub stripe_offset-ne :
    (lyt : Layout) (x y : ℕ)
    → IsLayout lyt
    → x < 2 ^ 64
    → y < 2 ^ 64
    → stripe_of lyt x ≡ stripe_of lyt y
    → x ≢ y
    → stripe_offset lyt x ≢ stripe_offset lyt y
stripe_offset-ne lyt x y v hx hy same differ e =
    differ (stripe_offset_injective lyt x y v hx hy same e)

-- On the stripe of a byte, the RAID-0 device of as many disks and the same chunk size puts the byte
-- inside a chunk, and the address in the stripe's object is that of the disk moved up by the
-- stripe's place in the row.
pub stripe_offset-raid0 :
    (lyt : Layout) (x : ℕ)
    → IsLayout lyt
    → x < 2 ^ 64
    → (d : ℕ) × (Raid0.stripe_offset
          (record { devcnt = lyt.stripe_count; chunk = lyt.stripe_size; curoff = 0 })
          (stripe_of lyt x)
          x
        ≡ ok (inside, d))
      × (stripe_offset lyt x ≡ ok (d + stripe_of lyt x * lyt.stripe_size))
stripe_offset-raid0 lyt x v h =
    let s = lyt.stripe_size in
    let n = lyt.stripe_count in
    let r : Raid0Device = record { devcnt = n; chunk = s; curoff = 0 } in
    let conf : IsConfigured r = record {
      chunks = v.sized;
      disks = v.striped;
      width = omega (arith, mul_comm s n, v.width);
    } in
    let i = stripe_of lyt x in
    let t = x % s in
    let place : chunk_part s (i * s + t) (i * s) ≡ (inside, t) =
      inside_part s i t (mod-lt x v.sized) in
    let row : x % (n * s) ≡ i * s + t =
      ap (λ (w : ℕ). x % w) (mul_comm n s) ∙ row_split s n x v.sized v.striped in
    (
      x / (n * s) * s + t,
      raid0_lem r conf i x (mod-lt (x / s) v.striped) h ∙ rw (row, place),
      stripe_offset_lem lyt x v h
          ∙ ap ok (rw (row_split s n x v.sized v.striped, mul_comm n s) (omega arith)),
    )
