-- ===== src/Ldlm/Grant/Free.antt =====
-- lustre/ldlm.cpp: the look at the granted locks (`ldlm_extent_compat_queue`).
use mathlib.Core.Path.{subst}
use lustre_simulator.Base.{
  ℕ, ◌^◌, ◌-◌, ◌≡◌, ◌≢◌, refl, true, false, not, List, [], ◌∷◌, some, ◌==◌, if◌then◌else◌,
  get_elem?, All, arith,
}
use lustre_simulator.Base.Run.{ok, Ends, ends, Ends-bind, Ends-map, Ends-if, ◌>>=◌}
use lustre_simulator.Interval.{
  Extent, IntervalNode, Tree, leaf, node, is_leaf, interval_is_overlapped,
}
use lustre_simulator.Interval.Order.{found}
use lustre_simulator.Interval.Search.{found-leaf}
use lustre_simulator.Interval.Expand.{some_found, interval_is_overlapped_lem}
use lustre_simulator.Ldlm.{Mode, group, lockmode_compat, IntervalTree, Resource}
use lustre_simulator.Ldlm.Modes.{lockmode_compat_comm}
use lustre_simulator.Ldlm.Granted.{IsSorted, IsFree}
use lustre_simulator.Ldlm.Grant.{Compat, blocked, is_group, root_gid, compat_granted}

-- Every interval in a tree is the interval of some lock; it is the root's that is looked at.
abbrev pub HasGroup : Resource → Tree → Type 0
HasGroup res leaf = Unit {0}
HasGroup res (node n l r) = (lock : ℕ) × (get_elem? (res.groups n.address) 0 ≡ some lock)

-- Behind a mode with which a group lock is compatible there are only such modes.
abbrev pub GroupsLast : List IntervalTree → Type 0
GroupsLast [] = Unit
GroupsLast (t ∷ trees) =
    (lockmode_compat group t.mode ≡ true → All (λ s. lockmode_compat group s.mode ≡ true) trees)
    × GroupsLast trees

root_gid-Ends :
    (res : Resource) (t : Tree)
    → is_leaf t ≡ false
    → HasGroup res t
    → Ends (λ _. Unit {0}) (root_gid res t)
unfolding root_gid is_leaf
root_gid-Ends res leaf inner v = cc
root_gid-Ends res (node n l r) inner (lock, is) = rw is (ends tt)

nothing_found : (ns : List IntervalNode) → some_found ns ≡ false → ns ≡ []
nothing_found [] h = refl
nothing_found (n ∷ ns) h = cc

group_asked : (m : Mode) → not (is_group m) ≡ false → m ≡ group
unfolding is_group
group_asked Mode.group h = refl
group_asked _ h = cc

-- Compatibility is symmetric, so that both cannot hold.
both : {P : Type 0} (a b : Mode) → lockmode_compat a b ≡ true → lockmode_compat b a ≡ false → P
both a b yes_one no_other = cc (lockmode_compat_comm a b)

All-compat :
    (mode : Mode) (ext : Extent) (trees : List IntervalTree)
    → mode ≡ group
    → All (λ s. lockmode_compat group s.mode ≡ true) trees
    → All (IsFree mode ext) trees
All-compat mode ext [] is v = tt
All-compat mode ext (t ∷ trees) is (here, there) = (
  λ conflict. both group t.mode here (subst (λ m. lockmode_compat t.mode m ≡ false) is conflict),
  All-compat mode ext trees is there,
)

-- Where the look at the granted locks does not say that they block the request, no granted lock
-- of a conflicting mode overlaps it.
abbrev pub IsClear : Resource → ℕ → List IntervalTree → Compat → Type 0
IsClear res req trees c =
    c ≢ blocked → All (IsFree (res.locks req).req_mode (res.locks req).req_extent) trees

module _ (res : Resource) (req : ℕ) where
  conflict_lem :
      (tree : IntervalTree) (trees : List IntervalTree)
      → IsSorted tree
      → Ends (IsClear res req trees) (compat_granted res req trees)
      → Ends (IsClear res req (tree ∷ trees)) (
          if is_group tree.mode then ok blocked else (do
            rc ← interval_is_overlapped tree.root (res.locks req).req_extent
            (if rc then ok blocked else compat_granted res req trees)))
  conflict_lem tree trees sorted next =
      let asked = (res.locks req).req_extent in
      Ends-if (is_group tree.mode) (λ _. ends λ blocks. absurd (blocks refl))
        λ _. rw (interval_is_overlapped_lem asked 0 (2 ^ 64 - 1) tree.root (omega arith) sorted) (
          Ends-if (some_found (found asked tree.root)) (λ _. ends λ blocks. absurd (blocks refl))
            λ nothing.
              Ends-map next λ c clear blocks.
                (λ _. nothing_found (found asked tree.root) nothing, clear blocks))

  pub compat_granted_lem :
      (trees : List IntervalTree)
      → All IsSorted trees
      → All (λ t. HasGroup res t.root) trees
      → GroupsLast trees
      → Ends (IsClear res req trees) (compat_granted res req trees)
  unfolding compat_granted
  compat_granted_lem [] sorted groups order = ends λ _. tt
  compat_granted_lem (tree ∷ trees) (s, sorted) (g, groups) (o, order) =
      let lock = res.locks req in
      let next = compat_granted_lem trees sorted groups order in
      let conflict = conflict_lem tree trees s next in
      Ends-if (is_leaf tree.root)
        (λ empty.
          Ends-map next
            λ c clear blocks. (λ _. found-leaf lock.req_extent tree.root empty, clear blocks))
        λ some_node.
          Ends-if (lockmode_compat lock.req_mode tree.mode)
            (λ compat.
              Ends-if (not (is_group lock.req_mode))
                (λ _.
                  Ends-map next
                    λ c clear blocks. (λ no. both lock.req_mode tree.mode compat no, clear blocks))
                λ is. Ends-bind (root_gid-Ends res tree.root some_node g) λ gid _.
                  Ends-if (lock.gid == gid)
                    (λ _. ends λ _. (
                      λ no. both lock.req_mode tree.mode compat no,
                      All-compat lock.req_mode lock.req_extent trees (group_asked lock.req_mode is)
                          (o (
                            subst (λ m. lockmode_compat m tree.mode ≡ true)
                              (group_asked lock.req_mode is) compat)),
                    ))
                    λ _. conflict)
            λ _. conflict
