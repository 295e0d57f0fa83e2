-- ===== src/Ldlm/Mask.antt =====
-- lustre/ldlm.cpp: the mask to which an extent is aligned.
use native.Mathlib.Nat.{
  mul_assoc, mul_comm, mul-div_cancel, zero-mod, zero-mul, suc-mul, pow-suc, div-eq_of_lt, div-zero,
  le-mul_of_pos_right, mod-eq-sub-div-mul, div-mul-le_self, lt-div-mul-add, mul-add-mod_self_right,
  mod-eq_of_lt, div-lt_iff_lt-mul, mul-le-mul_right, le-div_iff_mul-le,
}
use lustre_simulator.Base.{
  ℕ, zero, suc, ◌+◌, ◌-◌, ◌*◌, ◌/◌, ◌%◌, ◌^◌, ◌≤◌, ◌<◌, ◌≡◌, ◌≢◌, refl, sym, ap, ◌∙◌, ◌⊎◌, inl, inr,
  false, ◌==◌, Bool-cases, ==_iff, arith,
}
use lustre_simulator.Base.Run.{out_of_fuel, Ends, ends}
use lustre_simulator.Base.Words.{u64, sub_u64, u64_id, sub_u64_lem}
use lustre_simulator.Ldlm.{has_bit, mask_loop, find_mask, align_start, align_end}

abbrev pub Divides : ℕ → ℕ → Type 0
Divides p a = (q : ℕ) × (a ≡ q * p)

-- A number without the next bit is divided by twice the mask.
no_bit : (m q : ℕ) → q % 2 ≡ 0 → Divides (m * 2) (q * m)
no_bit m q h =
    let even : q ≡ q / 2 * 2 = omega arith in
    (q / 2, ap (λ t. t * m) even ∙ mul_assoc (q / 2) 2 m ∙ ap (λ t. q / 2 * t) (mul_comm 2 m))

twice : (m a : ℕ) → 0 < m → Divides m a → a / m % 2 ≡ 0 → Divides (m * 2) a
twice m a some (q, is) h =
    let same : a / m ≡ q = ap (λ t. t / m) is ∙ mul-div_cancel q some in
    let (p, e) = no_bit m q (ap (λ t. t % 2) (sym same) ∙ h) in (p, is ∙ e)

pub Divides-le : (m a : ℕ) → a ≢ 0 → Divides m a → m ≤ a
Divides-le m a some (zero, is) = absurd (some (is ∙ zero-mul m))
Divides-le m a some (suc q, is) = omega (arith, is, suc-mul q m)

-- The mask divides both numbers, and the number of addresses.
pub record IsMask (a b p : ℕ) : Type 0 where
  pub some : 0 < p
  pub of_a : Divides p a
  pub of_b : Divides p b
  pub of_all : Divides p (2 ^ 64)

no_bits : (a b m : ℕ) → has_bit a b m ≡ false → (a / m % 2 ≡ 0) × (b / m % 2 ≡ 0)
no_bits a b m h = ground arith

half : (j m : ℕ) → 2 ^ suc j * m ≡ 2 ^ 64 → 2 ^ j * (m * 2) ≡ 2 ^ 64
half j m all =
    ap (λ t. 2 ^ j * t) (mul_comm m 2)
    ∙ sym (mul_assoc (2 ^ j) 2 m)
    ∙ ap (λ t. t * m) (sym (pow-suc 2 j))
    ∙ all

mask_loop_lem :
    (j fuel a b m : ℕ)
    → j ≤ fuel
    → 2 ^ j * m ≡ 2 ^ 64
    → 0 < m
    → Divides m a
    → Divides m b
    → a < 2 ^ 64
    → b < 2 ^ 64
    → (a ≢ 0) ⊎ (b ≢ 0)
    → Ends (IsMask a b) (mask_loop fuel a b m)
unfolding mask_loop
mask_loop_lem zero fuel a b m enough all pos x y la lb some = absurd (elim some [
  | inl a_is ↦ omega (arith, Divides-le m a a_is x)
  | inr b_is ↦ omega (arith, Divides-le m b b_is y)
])
mask_loop_lem (suc j) zero a b m enough all pos x y la lb some = elim enough [ ]
mask_loop_lem (suc j) (suc fuel) a b m enough all pos x y la lb some =
    elim (Bool-cases (has_bit a b m)) [
      | inl bit ↦
          rw bit (ends (record { some = pos; of_a = x; of_b = y; of_all = (2 ^ suc j, sym all) }))
      | inr without ↦
          let (ta, tb) = no_bits a b m without in
          let x' = twice m a pos x ta in
          let y' = twice m b pos y tb in
          let small : m * 2 < 2 ^ 64 = elim some [
            | inl a_is ↦ omega (arith, Divides-le (m * 2) a a_is x')
            | inr b_is ↦ omega (arith, Divides-le (m * 2) b b_is y')
          ] in
          rw (without, u64_id (m * 2) small)
            (mask_loop_lem j fuel a b (m * 2) (omega arith) (half j m all) (omega arith) x' y' la lb
              some)
    ]

-- Two numbers that pages of 4096 divide have a mask, and it is found.
pub find_mask_lem :
    (fuel a b : ℕ)
    → 52 ≤ fuel
    → Divides 4096 a
    → Divides 4096 b
    → a < 2 ^ 64
    → b < 2 ^ 64
    → Ends (IsMask a b) (find_mask fuel a b)
unfolding find_mask
find_mask_lem fuel a b enough x y la lb = elim (Bool-cases (a == 0)) [
  | inr some ↦
      rw some
        (mask_loop_lem 52 fuel a b 4096 enough refl (omega arith) x y la lb (inl (ground arith)))
  | inl no_a ↦ elim (Bool-cases (b == 0)) [
    | inr some ↦
        rw (no_a, some)
          (mask_loop_lem 52 fuel a b 4096 enough refl (omega arith) x y la lb (inr (ground arith)))
    | inl no_b ↦
        rw (no_a, no_b)
          (ends (record { some = omega arith; of_a = x; of_b = y; of_all = (2 ^ 52, refl) }))
  ]
]

-- Numbers below the first mask have none of the bits that are looked at.
small_bits : (a b m : ℕ) → a < m → b < m → has_bit a b m ≡ false
small_bits a b m la lb = rw (div-eq_of_lt la, div-eq_of_lt lb) refl

wraps_lem : (m : ℕ) → m ≡ 2 ^ 63 → u64 (m * 2) ≡ 0
unfolding u64
wraps_lem m h = omega arith

pos_pow : (j : ℕ) → 0 < 2 ^ j
pos_pow zero = omega arith
pos_pow (suc j) = omega (arith, pow-suc 2 j, pos_pow j)

small_lem : (j m : ℕ) → 2 ^ suc (suc j) * m ≡ 2 ^ 64 → 0 < m → m * 2 < 2 ^ 64
small_lem j m all some =
    let all' = half j (m * 2) (half (suc j) m all) in
    omega (arith, le-mul_of_pos_right (m * 2 * 2) (pos_pow j), mul_comm (2 ^ j) (m * 2 * 2), all')

endless_zero : (fuel a b : ℕ) → mask_loop fuel a b 0 ≡ out_of_fuel
unfolding mask_loop u64
endless_zero zero a b = refl
endless_zero (suc fuel) a b = rw (div-zero a, div-zero b, endless_zero fuel a b) refl

pub mask_loop-endless :
    (j fuel a b m : ℕ)
    → 2 ^ j * m ≡ 2 ^ 64
    → m < 2 ^ 64
    → a < m
    → b < m
    → mask_loop fuel a b m ≡ out_of_fuel
unfolding mask_loop
mask_loop-endless j zero a b m all within la lb = refl
mask_loop-endless zero (suc fuel) a b m all within la lb = absurd (omega arith)
mask_loop-endless (suc zero) (suc fuel) a b m all within la lb =
    let wraps : u64 (m * 2) ≡ 0 = wraps_lem m (omega (arith, all)) in
    rw (small_bits a b m la lb, wraps, endless_zero fuel a b) refl
mask_loop-endless (suc (suc j)) (suc fuel) a b m all within la lb =
    let small : m * 2 < 2 ^ 64 = small_lem j m all (omega arith) in
    rw (small_bits a b m la lb, u64_id (m * 2) small)
      (mask_loop-endless (suc j) fuel a b (m * 2) (half (suc j) m all) small (omega arith)
        (omega arith))

-- The part of a number that a mask leaves, and what is above it.
floor_lem : (p x : ℕ) → 0 < p → (x - x % p ≡ x / p * p) × (x < x / p * p + p) × (x / p * p ≤ x)
floor_lem p x pos = (
  omega (arith, mod-eq-sub-div-mul x p, div-mul-le_self x p),
  lt-div-mul-add pos,
  div-mul-le_self x p,
)

-- The number before a multiple has the greatest remainder.
before-mod : (p c n : ℕ) → 0 < p → n + 1 ≡ suc c * p → n % p ≡ p - 1
before-mod p c n pos is =
    let split : n ≡ c * p + (p - 1) = omega (arith, suc-mul c p) in
    ap (λ t. t % p) split ∙ mul-add-mod_self_right c p (p - 1) ∙ mod-eq_of_lt (omega arith)

start_zero : (p : ℕ) → 0 < p → Divides p (2 ^ 64) → align_start p 0 ≡ 0
unfolding align_start sub_u64 u64
start_zero p pos (zero, is) = absurd (omega (arith, zero-mul p))
start_zero p pos (suc c, is) =
    let last = before-mod p c (2 ^ 64 - 1) pos is in
    rw last (omega (arith, Divides-le p (2 ^ 64) (omega arith) (suc c, is)))

-- Aligning a start upwards never passes a start that is aligned already.
pub align_start_lem :
    (p s r : ℕ)
    → 0 < p
    → Divides p (2 ^ 64)
    → Divides p r
    → s ≤ r
    → r < 2 ^ 64
    → (s ≤ align_start p s) × (align_start p s ≤ r)
unfolding align_start
align_start_lem p zero r pos all of_r below within =
    rw (start_zero p pos all) (omega arith, omega arith)
align_start_lem p (suc x) r pos all (q, is) below within =
    let (floor, above, low) = floor_lem p x pos in
    let q_lt : x / p < q = (div-lt_iff_lt-mul pos).1 (omega (arith, is)) in
    let fits : x / p * p + p ≤ q * p = omega (arith, mul-le-mul_right p q_lt, suc-mul (x / p) p) in
    let e : sub_u64 (suc x) 1 ≡ x =
      sub_u64_lem (suc x) 1 (omega arith) (omega arith) ∙ omega arith in
    let id : u64 (x / p * p + (p - 1) + 1) ≡ x / p * p + p =
      u64_id (x / p * p + (p - 1) + 1) (omega (arith, is)) ∙ omega arith in
    rw (e, floor, id) (omega arith, omega (arith, is))

end_last : (p : ℕ) → align_end p (2 ^ 64 - 1) ≡ 2 ^ 64 - 1
unfolding align_end sub_u64 u64
end_last p = rw (zero-mod p) refl

end_inner : (e : ℕ) → (e == 2 ^ 64 - 1) ≡ false → e < 2 ^ 64 → e + 1 < 2 ^ 64
end_inner e h k = ground arith

-- Aligning an end downwards stays behind an end that is aligned already.
pub align_end_lem :
    (p e r : ℕ)
    → 0 < p
    → Divides p (u64 (r + 1))
    → r ≤ e
    → e < 2 ^ 64
    → (r ≤ align_end p e) × (align_end p e ≤ e)
unfolding align_end
align_end_lem p e r pos of_r above within = elim (Bool-cases (e == 2 ^ 64 - 1)) [
  | inl is_last ↦
      let e_is : e ≡ 2 ^ 64 - 1 = (==_iff e (2 ^ 64 - 1)).0 is_last in
      rw (e_is, end_last p) (omega arith, omega arith)
  | inr inner ↦
      let more = end_inner e inner within in
      let (floor, _, low) = floor_lem p (e + 1) pos in
      let (q, is) = of_r in
      let asked : r + 1 ≡ q * p = sym (u64_id (r + 1) (omega arith)) ∙ is in
      let fits : q * p ≤ (e + 1) / p * p =
        mul-le-mul_right p ((le-div_iff_mul-le pos).1 (omega (arith, asked))) in
      let before : sub_u64 ((e + 1) / p * p) 1 ≡ (e + 1) / p * p - 1 =
        sub_u64_lem ((e + 1) / p * p) 1 (omega (arith, asked)) (omega arith) in
      rw (u64_id (e + 1) more, floor, before) (omega (arith, asked), omega arith)
]
