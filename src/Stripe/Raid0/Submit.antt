-- ===== src/Stripe/Raid0/Submit.antt =====
-- Requests submitted to the RAID-0 device, `Raid0Device::SubmitIoreq`.
use native.Mathlib.Nat.{div-add-mod', mod-lt, mul-le-mul_left}
use native.Mathlib.Decide.{dec_lt}
use lustre_simulator.Base.{
  ℕ, ◌+◌, ◌-◌, ◌*◌, ◌/◌, ◌%◌, ◌≤◌, ◌<◌, ◌≡◌, ap, ◌∙◌, [], ◌∷◌, arith, ◌==◌, if◌then◌else◌,
}
use lustre_simulator.Base.Run.{ok, fault}
use lustre_simulator.Base.Words.{sub_u64_lem}
use lustre_simulator.Stripe.Raid0.{
  Raid0Device, Ioreq, inside, chunk_part, submit_loop, submit_ioreq, obd_object_eof,
}
use lustre_simulator.Stripe.Raid0.Layout.{
  IsConfigured, disk_pos, share, stripe_number_lem, div-mul_add, mod-mul_add, width_pos,
  chunk_below,
}
use lustre_simulator.Stripe.Raid0.Coverage.{
  own_chunk, disk_pos_mono, taken_inside, stripe_intersect_lem,
}

disk_pos_at :
    (r : Raid0Device) (s q p x : ℕ)
    → p < r.devcnt * r.chunk
    → x ≡ q * (r.devcnt * r.chunk) + p
    → disk_pos r s x ≡ q * r.chunk + share r.chunk p s
disk_pos_at r s q p x h e =
    rw (e, div-mul_add q (r.devcnt * r.chunk) p h, mod-mul_add q (r.devcnt * r.chunk) p h)

-- Inside one chunk a disk's address grows with the offset.
advance :
    (r : Raid0Device) (q s t k x : ℕ)
    → IsConfigured r
    → s < r.devcnt
    → t < r.chunk
    → t + k ≤ r.chunk
    → x ≡ q * (r.devcnt * r.chunk) + (s * r.chunk + t)
    → disk_pos r s (x + k) ≡ q * r.chunk + t + k
unfolding chunk_part
advance r q s t k x v sn tc h e =
    let below_width : s * r.chunk + r.chunk ≤ r.devcnt * r.chunk = chunk_below _ _ s sn in
    let pos = v.chunks in
    elim (dec_lt (s * r.chunk + t + k) (r.devcnt * r.chunk)) [
      | yes lt ↦ disk_pos_at r s q (s * r.chunk + t + k) (x + k) lt (omega arith) ∙ ground arith
      | no ge ↦ disk_pos_at r s (q + 1) 0 (x + k) (omega arith) (grind arith) ∙ grind arith
    ]

-- Past the end of the chunk a disk's address falls behind the offset.
falls_behind :
    (c w s q q' t p' : ℕ)
    → 0 < c
    → c < w
    → s * c + c ≤ w
    → t < c
    → p' < w
    → q * w + (s * c + c) < q' * w + p'
    → q' * c + share c p' s + (q * w + (s * c + t)) < q * c + t + (q' * w + p')
unfolding chunk_part
falls_behind c w s q q' t p' pos cw sw tc pw h = elim (dec_lt q q') [
  | yes lt ↦
      let m = q' - q - 1 in
      let e : q' ≡ q + 1 + m = omega arith in
      let rows : m * c ≤ m * w = mul-le-mul_left m (omega arith) in
      let e1 = ap (λ (u : ℕ). u * w) e in
      let e2 = ap (λ (u : ℕ). u * c) e in
      elim (dec_lt 0 m) [
        | yes more ↦ let strict : m * c < m * w = grind arith in ground arith
        | no next ↦ let next' : m ≡ 0 = omega arith in ground (arith, ap (λ (u : ℕ). u * w) next')
      ]
  | no ge ↦
      let same : q ≡ q' = grind arith in
      ground (arith, ap (λ (u : ℕ). u * w) same, ap (λ (u : ℕ). u * c) same)
]

module _ (r : Raid0Device) (req : Ioreq) (v : IsConfigured r)
    (fits : req.off + req.count < obd_object_eof) (some_bytes : 0 < req.count)
    (idle : req.ref ≡ 0) where
  abbrev row : ℕ
  row = req.off / (r.devcnt * r.chunk)

  abbrev in_row : ℕ
  in_row = req.off % (r.devcnt * r.chunk)

  abbrev disk : ℕ
  disk = in_row / r.chunk

  abbrev in_chunk : ℕ
  in_chunk = in_row % r.chunk

  abbrev address : ℕ
  address = row * r.chunk + in_chunk

  own : (disk < r.devcnt) × (chunk_part r.chunk in_row (disk * r.chunk) ≡ (inside, in_chunk))
  own = own_chunk _ _ in_row v.chunks (mod-lt req.off (width_pos _ _ v.disks v.chunks))

  in_chunk_lt : in_chunk < r.chunk
  in_chunk_lt = mod-lt in_row v.chunks

  off_split : req.off ≡ row * (r.devcnt * r.chunk) + (disk * r.chunk + in_chunk)
  off_split = omega (arith, div-add-mod' req.off (r.devcnt * r.chunk), div-add-mod' in_row r.chunk)

  start_pos : disk_pos r disk req.off ≡ address
  start_pos = rw own.1

  -- The first round: the sub-request, and what the second round would find.
  first_round :
      (d : ℕ)
      → disk_pos r disk (req.off + req.count) ≡ address + d
      → d ≤ req.count
      → submit_ioreq r req ≡ (
          if req.count - d == 0
          then ok (1, record { stripe = disk; off = address; count = d } ∷ [])
          else fault)
  unfolding submit_ioreq submit_loop
  first_round d e le =
      rw
        (
          stripe_number_lem r v req.off,
          stripe_intersect_lem r v req.off req.count fits disk own.0,
          taken_inside r v req.off req.count fits disk own.1,
          start_pos,
          e,
          idle,
        )
        (ground (arith, sub_u64_lem req.count d le (omega arith)))

  -- A request that stays inside one chunk is handed to the disk of its first byte, as one
  -- sub-request at that byte's address and with the whole count, and one completion is pending.
  pub submit_inside :
      in_chunk + req.count ≤ r.chunk
      → submit_ioreq r req ≡ ok (1, record { stripe = disk; off = address; count = req.count } ∷ [])
  submit_inside h =
      first_round req.count
        (advance r row disk in_chunk req.count req.off v own.0 in_chunk_lt h off_split)
        (omega arith)
      ∙ ground arith

  -- A request that reaches past the chunk of its first byte, on a device of several disks, stops
  -- the program: the second round asserts that no completion is pending.
  pub submit_across : 1 < r.devcnt → r.chunk < in_chunk + req.count → submit_ioreq r req ≡ fault
  submit_across n h =
      let w = r.devcnt * r.chunk in
      let y = req.off + req.count in
      let mono = disk_pos_mono r disk req.off y v (omega arith) in
      let cw : r.chunk < w = grind (arith, v.chunks) in
      let behind =
        falls_behind r.chunk w disk row (y / w) in_chunk (y % w) v.chunks cw
          (chunk_below _ _ disk own.0) in_chunk_lt (mod-lt y (width_pos _ _ v.disks v.chunks))
          (omega (arith, off_split, div-add-mod' y w)) in
      let d = disk_pos r disk y - address in
      let less : d < req.count = omega (arith, off_split, div-add-mod' y w, start_pos) in
      first_round d (omega (arith, start_pos)) (omega arith) ∙ ground arith
