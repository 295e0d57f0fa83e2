-- ===== src/Pool/Resize.antt =====
-- Changing the number of threads of a pool that works.
use native.Mathlib.Decide.{ℕ_discrete}
use lustre_simulator.Base.{
  ℕ, zero, suc, ◌+◌, ◌-◌, ◌≤◌, ◌≡◌, ◌≢◌, inl, inr, refl, sym, ap, true, ◌∙◌, Bool, false, ◌&&◌,
  Option, none, some, List, [], ◌∷◌, ◌++◌, ltb, leb, ◌==◌, if◌then◌else◌, length, length-append,
  arith, Bool-cases,
}
use lustre_simulator.Pool.{
  PoolState, is_full_load, Pool, next_idle_thread_from_pool, shrink_loop, extend_loop,
  adjust_thread_pool,
}
use lustre_simulator.Pool.Tasks.{signal_run_lem}
use lustre_simulator.Base.Run.{Ends, ends}
use lustre_simulator.Pool.Dispatch.{shorter, next_idle_first, first_of}

-- The counts of a pool of which `w` threads are at work.
pub record IsStaffed (w : ℕ) (p : Pool) : Type 0 where
  pub counted : p.idle ≡ length p.idle_q
  pub threads : p.rnum ≡ p.idle + w

abbrev larger : ℕ → ℕ → ℕ
larger a b = if leb a b then b else a

next_idle_none : (p : Pool) → p.idle_q ≡ [] → next_idle_thread_from_pool p ≡ (none, p)
unfolding next_idle_thread_from_pool
next_idle_none p e =
    ap
      (λ (xs : List ℕ). elim xs as (λ ys. Option ℕ × Pool) [
        | [] ↦ (none, p)
        | t ∷ rest ↦ (some t, shorter rest p)
      ])
      e

none_of : (xs : List ℕ) → length xs ≡ 0 → xs ≡ []
none_of [] z = refl
none_of (x ∷ xs) z = absurd (omega arith)

IsStaffed-state :
    {w : ℕ} (p : Pool) (x : PoolState) (n : ℕ) (b : Bool)
    → IsStaffed w p
    → IsStaffed w (record p { state = x; signals = n; queued = b })
IsStaffed-state p x n b v = record { counted = v.counted; threads = v.threads }

shrink_loop_lem :
    (k c w : ℕ) (p : Pool)
    → IsStaffed w p
    → p.rnum - c ≤ k
    → c ≤ p.rnum
    → IsStaffed w (shrink_loop k c p)
      × ((shrink_loop k c p).rnum ≡ larger c w)
      × ((shrink_loop k c p).num ≡ p.num)
unfolding shrink_loop
shrink_loop_lem zero c w p v fuel above = (v, ground (arith, v.threads), refl)
shrink_loop_lem (suc k) c w p v fuel above = elim (Bool-cases (ltb c p.rnum)) [
  | inr stop ↦ rw stop (v, ground (arith, v.threads), refl)
  | inl go ↦ elim (ℕ_discrete (length p.idle_q) 0) [
    | yes gone ↦
        let nothing = next_idle_none p (none_of p.idle_q gone) in
        rw (go, nothing, nothing) (v, ground (arith, v.threads, v.counted), refl)
    | no here ↦
        let (t, rest, first) = first_of p.idle_q (omega arith) in
        let more : length p.idle_q ≡ length rest + 1 =
          ap (λ (xs : List ℕ). length xs) first ∙ omega arith in
        let less : IsStaffed w (record (shorter rest p) { rnum = p.rnum - 1 }) = record {
          counted = omega (arith, v.counted);
          threads = omega (arith, v.threads, v.counted);
        } in
        let next = next_idle_first p t rest first in
        rw (go, next, next)
          (shrink_loop_lem k c w (record (shorter rest p) { rnum = p.rnum - 1 }) less (omega arith)
            (ground arith))
  ]
]

extend_loop_lem :
    (k c w : ℕ) (p : Pool)
    → IsStaffed w p
    → c - p.rnum ≤ k
    → p.rnum ≤ c
    → IsStaffed w (extend_loop k c p)
      × ((extend_loop k c p).rnum ≡ c)
      × ((extend_loop k c p).num ≡ p.num)
      × ((extend_loop k c p).state ≡ p.state)
      × ((extend_loop k c p).queued ≡ p.queued)
unfolding extend_loop
extend_loop_lem zero c w p v fuel below = (v, omega arith, refl, refl, refl)
extend_loop_lem (suc k) c w p v fuel below = elim (Bool-cases (ltb p.rnum c)) [
  | inr stop ↦ rw stop (v, ground arith, refl, refl, refl)
  | inl go ↦
      let more = length-append p.idle_q (p.counter ∷ []) in
      let grown : IsStaffed w (record p {
        counter = p.counter + 1;
        idle_q = p.idle_q ++ p.counter ∷ [];
        rnum = p.rnum + 1;
        idle = p.idle + 1;
      }) =
        record { counted = omega (arith, v.counted); threads = omega (arith, v.threads) } in
      rw go (extend_loop_lem k c w _ grown (omega arith) (ground arith))
]

-- Asked for another number of threads than the last time, a pool has as many, or as many as are at
-- work if those are more, whatever was idle: idle threads go, or new ones come, and the counts stay
-- right. What is returned is the number that the pool then has. The pool's own thread must not be in
-- the queue of events before where the pool is under full load.
pub adjust_thread_pool_lem :
    (c w : ℕ) (check : Bool) (p : Pool)
    → IsStaffed w p
    → p.num ≢ c
    → (is_full_load p.state ≡ true → p.queued ≡ false)
    → Ends
        (λ (r, p').
          IsStaffed w p' × (p'.rnum ≡ (if leb c w then w else c)) × (p'.num ≡ c) × (r ≡ p'.rnum))
        (adjust_thread_pool c check p)
unfolding adjust_thread_pool
adjust_thread_pool_lem c w check p v differs quiet =
    let change : (p.num == c) ≡ false = ground arith in
    let set : Pool = record p { num = c } in
    let staffed : IsStaffed w set = record { counted = v.counted; threads = v.threads } in
    elim (Bool-cases (ltb c p.rnum)) [
      | inl less ↦
          let (shrunk, rnum, num) =
            shrink_loop_lem (p.rnum - c) c w set staffed (omega arith) (ground arith) in
          let last = (shrink_loop (p.rnum - c) c set).idle == 0 in
          rw (change, less)
            (elim (Bool-cases last) [
              | inl z ↦ rw z (ends (IsStaffed-state _ _ _ _ shrunk, rnum, num, refl))
              | inr n ↦ rw n (ends (shrunk, rnum, num, refl))
            ])
      | inr more ↦
          let (extended, rnum, num, state, queued) =
            extend_loop_lem (c - p.rnum) c w set staffed (omega arith) (ground arith) in
          let e = extend_loop (c - p.rnum) c set in
          let wakes = is_full_load e.state && ltb 0 e.idle && check in
          let enough : e.rnum ≡ (if leb c w then w else c) = ground (arith, v.threads) in
          rw (change, more)
            (elim (Bool-cases wakes) [
              | inl y ↦
                  let full : is_full_load e.state ≡ true = ground arith in
                  let still : e.queued ≡ false =
                    queued ∙ quiet (ap is_full_load (sym state) ∙ full) in
                  rw (y, signal_run_lem e still)
                    (ends (IsStaffed-state _ _ _ _ extended, enough, num, refl))
              | inr n ↦ rw n (ends (extended, enough, num, refl))
            ])
    ]
