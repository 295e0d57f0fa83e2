-- ===== src/Stripe/Raid0/Layout.antt =====
-- Where the bytes of the RAID-0 device lie.
use native.Mathlib.Nat.{div-add-mod', mul_comm, mul-le-mul_left}
use lustre_simulator.Base.{ℕ, ◌+◌, ◌*◌, ◌/◌, ◌%◌, ◌^◌, ◌≤◌, ◌<◌, ◌≡◌, arith}
use lustre_simulator.Base.Run.{ok}
use lustre_simulator.Base.Words.{u64, u64_id}
use lustre_simulator.Stripe.Raid0.{
  Raid0Device, inside, do_div, stripe_number, chunk_part, stripe_offset,
}

pub record IsConfigured (r : Raid0Device) : Type 0 where
  pub chunks : 0 < r.chunk
  pub disks : 0 < r.devcnt
  pub width : r.devcnt * r.chunk < 2 ^ 64

-- The address on disk `s` of the first byte at `x` or later of the disk's share.
abbrev pub disk_pos : Raid0Device → ℕ → ℕ → ℕ
disk_pos r s x =
    (x / (r.devcnt * r.chunk)) * r.chunk
    + (chunk_part r.chunk (x % (r.devcnt * r.chunk)) (s * r.chunk)).1

pub div-mul_add : (q c t : ℕ) → t < c → (q * c + t) / c ≡ q
div-mul_add q c t h = grind arith

pub mod-mul_add : (q c t : ℕ) → t < c → (q * c + t) % c ≡ t
mod-mul_add q c t h = grind arith

pub chunk_below : (n c s : ℕ) → s < n → s * c + c ≤ n * c
chunk_below n c s h = grind arith

pub width_pos : (n c : ℕ) → 0 < n → 0 < c → 0 < n * c
width_pos n c h k = grind arith

pub row_below : (x n c : ℕ) → 0 < n → (x / (n * c)) * c + x % (n * c) ≤ x
row_below x n c h =
    let whole : x / (n * c) * (n * c) + x % (n * c) ≡ x = div-add-mod' x (n * c) in
    let le : x / (n * c) * c ≤ x / (n * c) * (n * c) =
      mul-le-mul_left (x / (n * c)) (grind arith) in
    omega arith

-- The share that a disk has of a row's first `p` bytes.
abbrev pub share : ℕ → ℕ → ℕ → ℕ
share c p s = (chunk_part c p (s * c)).1

pub share-le : (c p s : ℕ) → share c p s ≤ p
unfolding chunk_part
share-le c p s = ground arith

pub do_div_lem : (a b : ℕ) → 0 < b → do_div a b ≡ ok (a / b, a % b)
unfolding do_div
do_div_lem a b h = ground arith

pub inside_part : (s i t : ℕ) → t < s → chunk_part s (i * s + t) (i * s) ≡ (inside, t)
unfolding chunk_part
inside_part s i t h = ground arith

module _ (r : Raid0Device) (v : IsConfigured r) where
  abbrev width : ℕ
  width = r.devcnt * r.chunk

  swidth_lem : u64 width ≡ width
  swidth_lem = u64_id width v.width

  pub stripe_number_lem : (x : ℕ) → stripe_number r x ≡ ok (x % width / r.chunk)
  unfolding stripe_number
  stripe_number_lem x = rw (swidth_lem, do_div_lem x width (width_pos _ _ v.disks v.chunks))

  pub stripe_offset_lem :
      (s x : ℕ)
      → s < r.devcnt
      → x < 2 ^ 64
      → stripe_offset r s x ≡ ok ((chunk_part r.chunk (x % width) (s * r.chunk)).0, disk_pos r s x)
  unfolding stripe_offset
  stripe_offset_lem s x h k =
      let below_width : s * r.chunk + r.chunk ≤ width = chunk_below _ _ s h in
      let fits : disk_pos r s x < 2 ^ 64 =
        omega
          (arith, v.width, row_below x r.devcnt r.chunk v.disks, share-le r.chunk (x % width) s) in
      rw (
        mul_comm r.chunk r.devcnt,
        swidth_lem,
        do_div_lem x width (width_pos _ _ v.disks v.chunks),
        u64_id (s * r.chunk) (omega (arith, v.width)),
        u64_id _ fits,
      )
