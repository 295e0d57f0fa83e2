-- ===== src/Nrs/Epoch/Work.antt =====
-- `Dequeue` by time slices finds a request wherever one waits.
use native.Mathlib.Decide.{ℕ_discrete, dec_lt}
use native.Mathlib.Nat.{mod-lt, mod-add-mod, div-add-mod'}
use mathlib.Core.Path.{fun_ext, subst}
use lustre_simulator.Base.{
  ℕ, zero, suc, ◌+◌, ◌-◌, ◌*◌, ◌/◌, ◌%◌, ◌^◌, ◌<◌, ◌≤◌, ◌≡◌, ◌≢◌, ◌⊎◌, inl, inr, refl, sym, ap, ◌∙◌,
  true, false, not, Option, none, some, List, [], ◌∷◌, ◌++◌, ◌==◌, ltb, if◌then◌else◌, length,
  length-append, arith,
}
use lustre_simulator.Base.Run.{Ends, ends, Ends-if, Ends-bind}
use lustre_simulator.Base.Words.{sub_u64, sub_u64_lem}
use lustre_simulator.Nrs.Fifo.Order.{dequeue_back, dequeue_none, back_cases}
use lustre_simulator.Nrs.Epoch.{QueueClass, NrsEpoch, set_fifo, dequeue_from, dequeue_loop, dequeue}

abbrev pub waiting_in : ℕ → NrsEpoch → List ℕ
waiting_in i s = (s.qvec i).q.queue

-- How many requests the first `k` queues hold.
abbrev pub total : ℕ → NrsEpoch → ℕ
total zero s = 0
total (suc k) s = total k s + length (waiting_in k s)

pub record IsEpoch (s : NrsEpoch) : Type 0 where
  pub classes : 0 < s.num
  pub current : s.cur < s.num
  pub pointer : s.nrs ≡ s.cur
  pub size : s.size ≡ total s.num s
  pub few : s.size < 2 ^ 64

-- The request `e` has left the back of queue `i`, and nothing else has changed.
pub record IsTakenFrom (s : NrsEpoch) (i e : ℕ) (s' : NrsEpoch) : Type 0 where
  pub class : i < s.num
  pub back : waiting_in i s ≡ waiting_in i s' ++ e ∷ []
  pub others : (j : ℕ) → j ≢ i → s'.qvec j ≡ s.qvec j
  pub num : s'.num ≡ s.num
  pub cur : s'.cur ≡ s.cur
  pub nrs : s'.nrs ≡ s.nrs

set_fifo_same : (i : ℕ) (s : NrsEpoch) → set_fifo i (s.qvec i).q s ≡ s
set_fifo_same i s = ap (λ (f : ℕ → QueueClass). record s { qvec = f }) (fun_ext same)
  where
    same : (j : ℕ) → (if j == i then s.qvec i else s.qvec j) ≡ s.qvec j
    same j = elim (ℕ_discrete j i) [
      | yes e ↦ rw e (ground arith)
      | no n ↦ let f : (j == i) ≡ false = ground arith in rw f refl
    ]

module _ (i : ℕ) (s : NrsEpoch) where
  dequeue_from-none : waiting_in i s ≡ [] → dequeue_from i s ≡ (none, s)
  unfolding dequeue_from
  dequeue_from-none e =
      rw (dequeue_none (s.qvec i).q e) (ap (λ (t : NrsEpoch). (none, t)) (set_fifo_same i s))

  dequeue_from-back :
      (ys : List ℕ) (y : ℕ)
      → waiting_in i s ≡ ys ++ y ∷ []
      → dequeue_from i s
        ≡ (some y, set_fifo i (record { size = sub_u64 (s.qvec i).q.size 1; queue = ys }) s)
  unfolding dequeue_from
  dequeue_from-back ys y e = rw (dequeue_back (s.qvec i).q ys y e) refl

  back-IsTakenFrom :
      (ys : List ℕ) (y n : ℕ)
      → i < s.num
      → waiting_in i s ≡ ys ++ y ∷ []
      → IsTakenFrom s i y (set_fifo i (record { size = n; queue = ys }) s)
  back-IsTakenFrom ys y n c e = record {
    class = c;
    back = ground (arith, e);
    others = λ j d. let f : (j == i) ≡ false = ground arith in rw f refl;
    num = refl;
    cur = refl;
    nrs = refl;
  }

-- A step of at most one round.
round_lem :
    (a j n : ℕ)
    → a < n
    → j ≤ n
    → (((a + j) % n ≡ a + j) × (a + j < n)) ⊎ (((a + j) % n ≡ a + j - n) × (n ≤ a + j))
round_lem a j n lt le = elim (dec_lt (a + j) n) [
  | yes p ↦ inl (grind arith, p)
  | no p ↦
      let split : (a + j) / n * n + (a + j) % n ≡ a + j = div-add-mod' (a + j) n in
      let small : (a + j) % n < n = mod-lt (a + j) (omega arith) in
      let once : (a + j) / n ≡ 1 = grind arith in
      let row : (a + j) / n * n ≡ n = rw once (omega arith) in inr (omega arith, omega arith)
]

-- The queues from the current one on, `j` of them, hold nothing.
abbrev AreEmpty : ℕ → NrsEpoch → Type 0
AreEmpty j s = (i : ℕ) → i < j → waiting_in ((s.cur + i) % s.num) s ≡ []

-- What the search over the other queues comes to.
abbrev IsFound : NrsEpoch → Option ℕ × NrsEpoch → Type 0
IsFound s (none, s') = AreEmpty s.num s × (s' ≡ s)
IsFound s (some e, s') = (i : ℕ) × IsTakenFrom s i e s' × (s'.size ≡ s.size)

dequeue_loop_lem :
    (k j : ℕ) (s : NrsEpoch)
    → 0 < s.num
    → s.cur < s.num
    → 0 < j
    → s.num < j + k
    → j ≤ s.num
    → AreEmpty j s
    → Ends (IsFound s) (dequeue_loop k ((s.cur + j) % s.num) s)
unfolding dequeue_loop
dequeue_loop_lem zero j s some_class c pos fuel room none_yet = absurd (omega arith)
dequeue_loop_lem (suc k) j s some_class c pos fuel room none_yet =
    let idx = (s.cur + j) % s.num in
    Ends-if (idx == s.cur)
      (λ back_at.
        let all : j ≡ s.num = elim (round_lem s.cur j s.num c room) [
          | inl (same, below) ↦ absurd (ground arith)
          | inr (less, above) ↦ ground arith
        ] in
        ends (subst (λ (m : ℕ). AreEmpty m s) all none_yet, refl))
      λ on. elim (back_cases (waiting_in idx s)) [
        | inl none_here ↦
            rw (dequeue_from-none idx s none_here, dequeue_from-none idx s none_here)
              (let step : (idx + 1) % s.num ≡ (s.cur + (j + 1)) % s.num =
                  mod-add-mod (s.cur + j) s.num 1 ∙ ap (λ (t : ℕ). t % s.num) (omega arith) in
                let room' : j + 1 ≤ s.num = elim (round_lem s.cur j s.num c room) [
                  | inl (same, below) ↦ omega arith
                  | inr (less, above) ↦ ground arith
                ] in
                rw step (
                  dequeue_loop_lem k (j + 1) s some_class c (omega arith) (omega arith) room'
                    λ i lt. elim (ℕ_discrete i j) [
                      | yes e ↦ rw e none_here
                      | no n ↦ none_yet i (omega arith)
                    ]))
        | inr (ys, y, line) ↦
            rw (dequeue_from-back idx s ys y line, dequeue_from-back idx s ys y line)
              (ends (idx, back-IsTakenFrom idx s ys y _ (mod-lt (s.cur + j) some_class) line, refl))
      ]

AreEmpty-waiting :
    (s : NrsEpoch) (i : ℕ) → s.cur < s.num → i < s.num → AreEmpty s.num s → waiting_in i s ≡ []
AreEmpty-waiting s i c lt all =
    let t = if ltb i s.cur then i + s.num - s.cur else i - s.cur in
    let less : t < s.num = ground arith in
    let at : (s.cur + t) % s.num ≡ i = elim (round_lem s.cur t s.num c (omega arith)) [
      | inl (same, below) ↦ ground arith
      | inr (same, above) ↦ ground arith
    ] in
    subst (λ (j : ℕ). waiting_in j s ≡ []) at (all t less)

total_none : (k : ℕ) (s : NrsEpoch) → ((i : ℕ) → i < k → waiting_in i s ≡ []) → total k s ≡ 0
total_none zero s none_at = refl
total_none (suc k) s none_at =
    let here : length (waiting_in k s) ≡ 0 =
      ap (λ (xs : List ℕ). length xs) (none_at k (omega arith)) in
    omega (arith, total_none k s λ i lt. none_at i (omega arith))

total_taken :
    (k i e : ℕ) (s s' : NrsEpoch)
    → IsTakenFrom s i e s'
    → total k s ≡ total k s' + (if ltb i k then 1 else 0)
total_taken zero i e s s' t = ground arith
total_taken (suc k) i e s s' t =
    let rest = total_taken k i e s s' t in
    elim (ℕ_discrete k i) [
      | yes here ↦
          let more : length (waiting_in i s) ≡ length (waiting_in i s') + 1 =
            ap (λ (xs : List ℕ). length xs) t.back ∙ length-append (waiting_in i s') (e ∷ []) in
          let at : length (waiting_in k s) ≡ length (waiting_in k s') + 1 = rw here more in
          ground arith
      | no other ↦
          let same : length (waiting_in k s') ≡ length (waiting_in k s) =
            ap (λ (c : QueueClass). length c.q.queue) (t.others k other) in
          ground arith
    ]

-- What `Dequeue` returns and leaves.
abbrev pub IsSliceServed : NrsEpoch → Option ℕ × NrsEpoch → Type 0
IsSliceServed s (none, s') = (s.size ≡ 0) × (s' ≡ s)
IsSliceServed s (some e, s') =
    IsEpoch s'
    × (s'.size + 1 ≡ s.size)
    × ((i : ℕ) × IsTakenFrom s i e s' × (waiting_in s.cur s ≢ [] → i ≡ s.cur))

total_size : (k n : ℕ) (t : NrsEpoch) → total k (record t { size = n }) ≡ total k t
total_size zero n t = refl
total_size (suc k) n t = omega (arith, total_size k n t)

-- The size counts what waits, whichever queue a request has left.
taken-IsEpoch :
    (s t : NrsEpoch) (i e : ℕ)
    → IsEpoch s
    → IsTakenFrom s i e t
    → t.size ≡ s.size
    → IsEpoch (record t { size = sub_u64 t.size 1 }) × (sub_u64 t.size 1 + 1 ≡ s.size)
taken-IsEpoch s t i e v took same =
    let all = total_taken s.num i e s t took in
    let one : total s.num s ≡ total s.num t + 1 = ground arith in
    let less : sub_u64 t.size 1 + 1 ≡ s.size =
      ap (λ (n : ℕ). n + 1) (sub_u64_lem t.size 1 (omega arith) (omega arith)) ∙ omega arith in
    let classes : total t.num t ≡ total s.num t = ap (λ (m : ℕ). total m t) took.num in
    (
      record {
        classes = omega arith;
        current = omega arith;
        pointer = omega arith;
        size = omega (arith, total_size t.num (sub_u64 t.size 1) t);
        few = omega arith;
      },
      less,
    )

-- The same after `size--`.
finish-IsSliceServed :
    (s t : NrsEpoch) (i e : ℕ)
    → IsEpoch s
    → IsTakenFrom s i e t
    → t.size ≡ s.size
    → (waiting_in s.cur s ≢ [] → i ≡ s.cur)
    → IsSliceServed s (some e, record t { size = sub_u64 t.size 1 })
finish-IsSliceServed s t i e v took same first =
    let (epoch, less) = taken-IsEpoch s t i e v took same in
    (
      epoch,
      less,
      (
        i,
        record {
          class = took.class;
          back = took.back;
          others = took.others;
          num = took.num;
          cur = took.cur;
          nrs = took.nrs;
        },
        first,
      ),
    )

-- The search finds a request where the size is not 0.
searched-IsSliceServed :
    (s : NrsEpoch) (r : Option ℕ × NrsEpoch)
    → IsEpoch s
    → s.size ≢ 0
    → waiting_in s.cur s ≡ []
    → IsFound s r
    → IsSliceServed s (r.0, record r.1 { size = sub_u64 r.1.size 1 })
searched-IsSliceServed s (none, t) v n none_here (all, same) =
    absurd (n (v.size ∙ total_none s.num s λ i lt. AreEmpty-waiting s i v.current lt all))
searched-IsSliceServed s (some e, t) v n none_here (i, took, same) =
    finish-IsSliceServed s t i e v took same λ some_here. absurd (some_here none_here)

-- While the size counts what waits, `Dequeue` returns nothing only if nothing waits; it returns the
-- oldest request of a queue, of the current one if that is not empty, and takes no other.
pub dequeue-IsSliceServed : (s : NrsEpoch) → IsEpoch s → Ends (IsSliceServed s) (dequeue s)
unfolding dequeue
dequeue-IsSliceServed s v =
    let pass : not (s.num == 0) ≡ true = ground (arith, v.classes) in
    let lt : s.nrs < s.num = omega (arith, v.pointer, v.current) in
    Ends-if (s.size == 0) (λ z. ends (ground arith, refl))
      λ n. elim (back_cases (waiting_in s.nrs s)) [
        | inr (ys, y, line) ↦
            rw (dequeue_from-back s.nrs s ys y line, dequeue_from-back s.nrs s ys y line)
              (ends (
                finish-IsSliceServed s _ s.nrs y v (back-IsTakenFrom s.nrs s ys y _ lt line) refl
                  λ _. v.pointer))
        | inl none_here ↦
            let none_cur = subst (λ (j : ℕ). waiting_in j s ≡ []) v.pointer none_here in
            let start : AreEmpty 1 s = λ i one.
              let at : (s.cur + i) % s.num ≡ s.cur = grind (arith, v.current) in
              subst (λ (j : ℕ). waiting_in j s ≡ []) (sym at) none_cur in
            rw (dequeue_from-none s.nrs s none_here, dequeue_from-none s.nrs s none_here, pass)
              (Ends-bind
                (dequeue_loop_lem s.num 1 s v.classes v.current (omega arith) (omega arith)
                  (omega (arith, v.classes)) start)
                λ r found. ends (searched-IsSliceServed s r v (ground arith) none_cur found))
      ]
