-- ===== src/Interval/Expand.antt =====
-- lustre/intervaltree.cpp: whether an interval overlaps, and how far an extent can grow.
use lustre_simulator.Base.{
  ℕ, ◌+◌, ◌-◌, ◌^◌, ◌≤◌, ◌<◌, ◌≡◌, refl, ◌⊎◌, inl, inr, Bool, true, false, List, [], ◌∷◌, ltb,
  if◌then◌else◌, Bool-cases, arith,
}
use lustre_simulator.Base.Run.{ok, Ends, ends}
use lustre_simulator.Interval.{
  Extent, IntervalNode, Tree, leaf, node, is_leaf, overlapped, interval_is_overlapped,
  interval_overlap_cb, interval_expand_low, expand_high, interval_expand_high, interval_expand,
}
use lustre_simulator.Interval.Order.{
  IsTree, tree_max, max_bounds, found, found-node, found-nothing, call_each,
}
use lustre_simulator.Interval.Search.{interval_search_lem}

abbrev pub some_found : List IntervalNode → Bool
some_found [] = false
some_found (n ∷ ns) = true

overlap_calls :
    (ns : List IntervalNode) → (call_each interval_overlap_cb ns false).1 ≡ some_found ns
unfolding call_each
overlap_calls [] = refl
overlap_calls (n ∷ ns) = refl

-- The test says whether the reference search finds anything.
pub interval_is_overlapped_lem :
    (e : Extent) (lo hi : ℕ) (t : Tree)
    → lo ≤ hi
    → IsTree lo hi t
    → interval_is_overlapped t e ≡ ok (some_found (found e t))
unfolding interval_is_overlapped
interval_is_overlapped_lem e lo hi t order ordered =
    rw (interval_search_lem interval_overlap_cb e lo hi t false order ordered)
      (rw (overlap_calls (found e t)) refl)

ltb-lt : (a b : ℕ) → ltb a b ≡ true → a < b
ltb-lt a b h = ground arith

ltb-le : (a b : ℕ) → ltb a b ≡ true → a ≤ b
ltb-le a b h = ground arith

ltb-ge : (a b : ℕ) → ltb a b ≡ false → b ≤ a
ltb-ge a b h = ground arith

-- No interval starts behind `high` and before or at `result`.
abbrev NoStart : ℕ → ℕ → Tree → Type 0
NoStart high result leaf = Unit {0}
NoStart high result (node n l r) =
    ((n.low ≤ high) ⊎ (result < n.low)) × NoStart high result l × NoStart high result r

abbrev pub Starts : ℕ → Tree → Type 0
Starts k leaf = ⊥
Starts k (node n l r) = (k ≡ n.low) ⊎ Starts k l ⊎ Starts k r

NoStart-before :
    (high result lo hi : ℕ) (t : Tree) → IsTree lo hi t → hi ≤ high → NoStart high result t
NoStart-before high result lo hi leaf ordered h = tt
NoStart-before high result lo hi (node n l r) (a, b, c, m, x, y) h = (
  inl (omega arith),
  NoStart-before high result lo n.low l x (omega arith),
  NoStart-before high result n.low hi r y h,
)

NoStart-after :
    (high result lo hi : ℕ) (t : Tree) → IsTree lo hi t → result < lo → NoStart high result t
NoStart-after high result lo hi leaf ordered h = tt
NoStart-after high result lo hi (node n l r) (a, b, c, m, x, y) h = (
  inr (omega arith),
  NoStart-after high result lo n.low l x h,
  NoStart-after high result n.low hi r y (omega arith),
)

NoStart-past :
    (high result lo hi : ℕ) (t : Tree) → IsTree lo hi t → tree_max t ≤ high → NoStart high result t
NoStart-past high result lo hi leaf ordered h = tt
NoStart-past high result lo hi (node n l r) (a, b, c, m, x, y) h =
    let (own, left, right) = max_bounds n.high (tree_max l) (tree_max r) m in
    (
      inl (omega arith),
      NoStart-past high result lo n.low l x (omega arith),
      NoStart-past high result n.low hi r y (omega arith),
    )

-- What the descent for the end returns: no start is passed, and the next one is there.
record IsReach (high result reach : ℕ) (t : Tree) : Type 0 where
  from : high ≤ reach
  to : reach ≤ result
  clear : NoStart high reach t
  most : (reach ≡ result) ⊎ Starts (reach + 1) t

module _ (high result lo hi : ℕ) (n : IntervalNode) (l r : Tree)
    (ordered : IsTree lo hi (node n l r)) where
  nearer_lem :
      (reach : ℕ)
      → high < n.low
      → hi ≤ result + 1
      → IsReach high (n.low - 1) reach l
      → IsReach high result reach (node n l r)
  nearer_lem reach before within v =
      let (a, b, c, m, x, y) = ordered in
      let short : reach < n.low = omega (arith, v.to) in
      record {
        from = v.from;
        to = omega arith;
        clear = (inr short, v.clear, NoStart-after high reach n.low hi r y short);
        most = elim v.most [
          | inl all_of_it ↦ inr (inl (omega arith))
          | inr starts ↦ inr (inr (inl starts))
        ];
      }

  farther_lem :
      (reach : ℕ)
      → n.low ≤ high
      → IsReach high result reach r
      → IsReach high result reach (node n l r)
  farther_lem reach after v =
      let (a, b, c, m, x, y) = ordered in
      record {
        from = v.from;
        to = v.to;
        clear = (inl after, NoStart-before high reach lo n.low l x after, v.clear);
        most = elim v.most [ inl all_of_it ↦ inl all_of_it | inr starts ↦ inr (inr (inr starts)) ];
      }

expand_high_lem :
    (high result lo hi : ℕ) (t : Tree)
    → IsTree lo hi t
    → high ≤ result
    → hi ≤ result + 1
    → IsReach high result (expand_high t high result) t
unfolding expand_high
expand_high_lem high result lo hi leaf ordered h within = record {
  from = h;
  to = omega arith;
  clear = tt;
  most = inl refl;
}
expand_high_lem high result lo hi (node n l r) (a, b, c, m, x, y) h within =
    elim (Bool-cases (ltb n.max_high high)) [
      | inl past ↦
          let low : n.max_high ≤ high = ltb-le n.max_high high past in
          rw past (record {
            from = h;
            to = omega arith;
            clear = NoStart-past high result lo hi (node n l r) (a, b, c, m, x, y) low;
            most = inl refl;
          })
      | inr here ↦ elim (Bool-cases (ltb high n.low)) [
        | inl before ↦
            let less = ltb-lt high n.low before in
            rw (here, before)
              (nearer_lem high result lo hi n l r (a, b, c, m, x, y)
                (expand_high l high (n.low - 1)) less within
                (expand_high_lem high (n.low - 1) lo n.low l x (omega arith) (omega arith)))
        | inr after ↦
            rw (here, after)
              (farther_lem high result lo hi n l r (a, b, c, m, x, y) (expand_high r high result)
                (ltb-ge high n.low after) (expand_high_lem high result n.low hi r y h within))
      ]
    ]

still_out :
    (start high reach : ℕ) (n : IntervalNode)
    → (n.low ≤ high) ⊎ (reach < n.low)
    → overlapped (record { start = start; end = high }) n ≡ false
    → overlapped (record { start = start; end = reach }) n ≡ false
still_out start high reach n own out = ground arith

-- Growing the end over no start, and the start where nothing is, overlaps nothing new.
found-grown :
    (start high reach : ℕ) (t : Tree)
    → NoStart high reach t
    → found (record { start = start; end = high }) t ≡ []
    → found (record { start = start; end = reach }) t ≡ []
unfolding found
found-grown start high reach leaf clear free = refl
found-grown start high reach (node n l r) (own, left, right) free =
    let old : Extent = record { start = start; end = high } in
    let new : Extent = record { start = start; end = reach } in
    let (out, x, y) = found-nothing old n l r free in
    found-node new n l r (still_out start high reach n own out)
      (found-grown start high reach l left x) (found-grown start high reach r right y)

-- The end that an expansion reaches: none is looked for where the limiter allows none, and else it
-- is the last address or the next interval starts behind it.
abbrev pub IsMost : Tree → Extent → Extent → Extent → Type 0
IsMost t e limiter grown =
    ((limiter.end ≤ e.end) × (grown.end ≡ e.end))
    ⊎ (grown.end ≡ 2 ^ 64 - 1)
    ⊎ Starts (grown.end + 1) t

pub record IsGrown (t : Tree) (e limiter grown : Extent) : Type 0 where
  pub below : grown.start ≤ e.start
  pub above : e.end ≤ grown.end
  pub free : found grown t ≡ []
  pub most : IsMost t e limiter grown

reach_high :
    (lo hi : ℕ) (t : Tree) (e limiter : Extent)
    → IsTree lo hi t
    → hi < 2 ^ 64
    → e.end < 2 ^ 64
    → found e t ≡ []
    → (test : Bool) → ltb e.end limiter.end ≡ test
    → (high : ℕ) → high ≡ (if test then interval_expand_high t e.end else e.end)
    → (e.end ≤ high)
      × (found (record { start = e.start; end = high }) t ≡ [])
      × IsMost t e limiter (record { start = e.start; end = high })
unfolding interval_expand_high
reach_high lo hi t e limiter ordered top within free true test high is =
    let v = expand_high_lem e.end (2 ^ 64 - 1) lo hi t ordered (omega arith) (omega arith) in
    rw is (v.from, found-grown e.start e.end _ t v.clear free, inr v.most)
reach_high lo hi t e limiter ordered top within free false test high is =
    rw is (omega arith, free, inl (ltb-ge e.end limiter.end test, refl))

reach_low :
    (t : Tree) (start high : ℕ) (test : Bool)
    → found (record { start = start; end = high }) t ≡ []
    → (found (record { start = if test then interval_expand_low t start else start; end = high }) t
        ≡ [])
      × ((if test then interval_expand_low t start else start) ≤ start)
unfolding interval_expand_low found is_leaf
reach_low t start high false free = (free, omega arith)
reach_low leaf start high true free = (refl, omega arith)
reach_low (node n l r) start high true free = (free, omega arith)

-- In an ordered tree where nothing overlaps an extent, the expansion ends without a failed
-- assertion, contains the extent, overlaps nothing, and is the greatest such upwards.
pub interval_expand_lem :
    (lo hi : ℕ) (t : Tree) (e limiter : Extent)
    → IsTree lo hi t
    → lo ≤ hi
    → hi < 2 ^ 64
    → e.end < 2 ^ 64
    → found e t ≡ []
    → Ends (IsGrown t e limiter) (interval_expand t e limiter)
unfolding interval_expand interval_expand_low interval_expand_high
interval_expand_lem lo hi t e limiter ordered order top within free =
    let (above, free', most) =
      reach_high lo hi t e limiter ordered top within free (ltb e.end limiter.end) refl
        (if ltb e.end limiter.end then interval_expand_high t e.end else e.end) refl in
    let low_test = ltb limiter.start e.start in
    let (free'', below) =
      reach_low t e.start (if ltb e.end limiter.end then interval_expand_high t e.end else e.end)
        low_test free' in
    rw
      (
        interval_is_overlapped_lem e lo hi t order ordered,
        free,
        interval_is_overlapped_lem _ lo hi t order ordered,
        free'',
      )
      (ends (record { below = below; above = above; free = free''; most = most }))
