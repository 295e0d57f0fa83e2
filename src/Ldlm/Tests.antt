-- ===== src/Ldlm/Tests.antt =====
-- lustre/ldlm.cpp: the theorems at concrete locks.
use lustre_simulator.Base.{◌≡◌, false, [], ◌∷◌, none, some, ◌==◌, if◌then◌else◌, arith}
use lustre_simulator.Base.Run.{out_of_fuel}
use lustre_simulator.Interval.{Extent, Tree, leaf, node}
use lustre_simulator.Ldlm.{
  Mode, ex, pw, pr, cw, cr, nl, group, Lock, IntervalTree, Resource,
  ldlm_extent_internal_policy_fixup,
}
use lustre_simulator.Ldlm.Fixup.{fixup-endless}

abbrev first_page : Extent
first_page = record { start = 0; end = 4095 }

abbrev third_page : Extent
third_page = record { start = 8192; end = 12287 }

-- A writer of the first page that waits, and a reader that holds the third.
abbrev writer : Lock
writer = record {
  req_mode = pw;
  extent = first_page;
  gid = 0;
  req_extent = first_page;
  export = some 1;
  granted_mode = none;
  tree_node = some 101;
  ast_sent = false;
  destroyed = false;
}

abbrev reader : Lock
reader = record {
  req_mode = pr;
  extent = third_page;
  gid = 0;
  req_extent = third_page;
  export = some 2;
  granted_mode = some pr;
  tree_node = some 100;
  ast_sent = false;
  destroyed = false;
}

abbrev held : Tree
held =
    node (record { low = 8192; high = 12287; max_high = 12287; address = 100; red = false }) leaf
      leaf

abbrev tree_of : Mode → Tree → IntervalTree
tree_of mode root = record { size = 1; mode = mode; root = root }

abbrev resource : Resource
resource = record {
  locks = λ l. if l == 1 then writer else reader;
  trees =
      tree_of ex leaf
      ∷ tree_of pw leaf
      ∷ tree_of pr held
      ∷ tree_of cw leaf
      ∷ tree_of cr leaf
      ∷ tree_of nl leaf
      ∷ tree_of group leaf
      ∷ [];
  waiting = 1 ∷ [];
  granted = 0 ∷ [];
  converting = [];
  most_restr = pr;
  in_tree = λ n. n == 100;
  groups = λ n. if n == 100 then 0 ∷ [] else 1 ∷ [];
}

fixup-endless_example :
    ldlm_extent_internal_policy_fixup 1000 pr
      (record { start = 0; end = 99 })
      (record { start = 0; end = 8191 })
      1
    ≡ out_of_fuel
fixup-endless_example =
    fixup-endless 1000 pr (record { start = 0; end = 99 }) (record { start = 0; end = 8191 }) 1
      (omega arith) (omega arith) (omega arith) (omega arith) (omega arith)
