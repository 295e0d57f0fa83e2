-- ===== src/Interval/Tests.antt =====
-- lustre/intervaltree.cpp: the theorems at a concrete tree.
use lustre_simulator.Base.{ℕ, ◌+◌, ◌^◌, ◌-◌, ◌≡◌, refl, Bool, true, false, [], arith}
use lustre_simulator.Base.Run.{ok, Ends}
use lustre_simulator.Interval.{
  Extent, IntervalNode, IntervalIter, Tree, leaf, node, interval_search, interval_expand,
}
use lustre_simulator.Interval.Order.{IsTree, found, call_each}
use lustre_simulator.Interval.Search.{interval_search_lem}
use lustre_simulator.Interval.Expand.{IsGrown, interval_expand_lem}
use lustre_simulator.Interval.Insert.{interval_insert}
use lustre_simulator.Interval.Insert.Context.{spans}
use lustre_simulator.Interval.Insert.Stored.{IsInserted, interval_insert_lem}

abbrev interval : ℕ → ℕ → ℕ → Bool → IntervalNode
interval low high max_high red = record {
  low = low;
  high = high;
  max_high = max_high;
  address = low;
  red = red;
}

-- The intervals 10 to 19, 30 to 39 and 50 to 59.
abbrev three : Tree
three =
    node (interval 30 39 59 false) (node (interval 10 19 19 true) leaf leaf)
      (node (interval 50 59 59 true) leaf leaf)

three-IsTree : IsTree 0 100 three
three-IsTree = (
  omega arith,
  omega arith,
  omega arith,
  refl,
  (omega arith, omega arith, omega arith, refl, tt, tt),
  (omega arith, omega arith, omega arith, refl, tt, tt),
)

abbrev count : IntervalNode → ℕ → IntervalIter × ℕ
count n k = (IntervalIter.cont, k + 1)

abbrev middle : Extent
middle = record { start = 15; end = 35 }

interval_search_lem_example :
    interval_search count three middle 0 ≡ ok (call_each count (found middle three) 0)
interval_search_lem_example =
    interval_search_lem count middle 0 100 three 0 (omega arith) three-IsTree

abbrev gap : Extent
gap = record { start = 22; end = 24 }

abbrev all_addresses : Extent
all_addresses = record { start = 0; end = 2 ^ 64 - 1 }

gap_free : found gap three ≡ []
unfolding found
gap_free = refl

interval_expand_lem_example :
    Ends (IsGrown three gap all_addresses) (interval_expand three gap all_addresses)
interval_expand_lem_example =
    interval_expand_lem 0 100 three gap all_addresses three-IsTree (omega arith) (omega arith)
      (omega arith) gap_free

-- The new node's parent and uncle are red.
interval_insert_lem_example :
    Ends
      (IsInserted 0 100 (spans three) (interval 20 29 29 false))
      (interval_insert (interval 20 29 29 false) three)
interval_insert_lem_example =
    interval_insert_lem 0 100 (interval 20 29 29 false) three (omega arith) refl three-IsTree
      (omega arith) (omega arith) refl
