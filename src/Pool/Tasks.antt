-- ===== src/Pool/Tasks.antt =====
-- New messages, and threads that have done their work.
use native.Mathlib.Decide.{ℕ_discrete}
use lustre_simulator.Base.{
  ℕ, ◌+◌, ◌<◌, ◌≡◌, ◌≢◌, ◌⊎◌, inl, inr, refl, ap, Bool, true, false, List, [], ◌∷◌, ltb, ◌==◌,
  if◌then◌else◌, arith, sym, ◌∙◌,
}
use lustre_simulator.Base.Run.{ok, Ends, ends, Ends-if, Ends-bind}
use lustre_simulator.Pool.{
  PoolState, start_state, idle_state, run_state, full_load_state, last_state, is_idle, at_most_idle,
  Pool, Scheduler, signal_run, wakeup, add_new_task,
}
use lustre_simulator.Pool.Dispatch.{IsPool}

-- A pool that has a new message is not asleep: it is as before, or it was idle and its own thread
-- has been signalled.
abbrev pub IsAwake : Pool → Pool → Type 0
IsAwake p p' =
    ((p.state ≡ idle_state) × (p'.state ≡ run_state) × (p'.signals ≡ p.signals + 1))
    ⊎ ((p.state ≢ idle_state) × (p' ≡ p))

is_idle_iff :
    (x : PoolState) → (is_idle x ≡ true → x ≡ idle_state) × (is_idle x ≡ false → x ≢ idle_state)
is_idle_iff idle_state = ((λ _. refl), λ f. absurd cc)
is_idle_iff start_state = ((λ t. absurd cc), λ _ e. absurd cc)
is_idle_iff run_state = ((λ t. absurd cc), λ _ e. absurd cc)
is_idle_iff full_load_state = ((λ t. absurd cc), λ _ e. absurd cc)
is_idle_iff last_state = ((λ t. absurd cc), λ _ e. absurd cc)

abbrev pub woken : Pool → Pool
woken p = record p { signals = p.signals + 1; queued = true; state = run_state }

pub signal_run_lem : (p : Pool) → p.queued ≡ false → signal_run p ≡ ok (woken p)
unfolding signal_run
signal_run_lem p quiet = rw quiet refl

woken-IsPool : (p : Pool) → IsPool p → 0 < p.idle → IsPool (woken p)
woken-IsPool p v some_idle = record {
  counted = v.counted;
  threads = v.threads;
  busy = λ z. absurd (omega arith);
  loaded = λ f. absurd cc;
  quiet = λ stays _. absurd (stays refl);
}

wakeup_lem : (p : Pool) → IsPool p → Ends (λ p'. IsPool p' × IsAwake p p') (wakeup p)
unfolding wakeup
wakeup_lem p v =
    Ends-if (is_idle p.state)
      (λ i.
        let asleep : p.state ≡ idle_state = (is_idle_iff p.state).0 i in
        let some_idle : 0 < p.idle = elim (ℕ_discrete p.idle 0) [
          | yes z ↦ let full = v.busy z in absurd cc
          | no n ↦ omega arith
        ] in
        let pass : ltb 0 p.idle ≡ true = ground arith in
        let quiet =
          v.quiet (λ e. let x : idle_state ≡ run_state = sym asleep ∙ e in absurd cc)
            (λ e. let x : idle_state ≡ start_state = sym asleep ∙ e in absurd cc) in
        rw (pass, signal_run_lem p quiet)
          (ends (woken-IsPool p v some_idle, inl (asleep, refl, refl))))
      λ n. ends (v, inr ((is_idle_iff p.state).1 n, refl))

abbrev pub runs : ℕ → List (ℕ × ℕ) → Bool
runs t [] = false
runs t ((u, m) ∷ rest) = if u == t then true else runs t rest

module _ (S : Scheduler) where
  -- A message that the scheduler accepts leaves the pool in order and never asleep: an idle pool's own
  -- thread is signalled, and any other pool is left as it is.
  pub add_new_task_lem :
      (msg : ℕ) (p : Pool) (q : S.Queue)
      → IsPool p
      → (S.enqueue msg q).0 ≡ 0
      → Ends
          (λ (p', q'). IsPool p' × IsAwake p p' × (q' ≡ (S.enqueue msg q).1))
          (add_new_task S msg p q)
  unfolding add_new_task
  add_new_task_lem msg p q v accepted =
      let pass : ((S.enqueue msg q).0 == 0) ≡ true = ground arith in
      rw pass (
        Ends-bind
          (Ends-if (at_most_idle p.state) (λ _. wakeup_lem p v)
            λ other. ends (
              v,
              inr (
                (λ e. let asleep : at_most_idle p.state ≡ true = ap at_most_idle e in absurd cc),
                refl,
              ),
            ))
          λ p' (w, awake). ends (w, awake, refl))
