-- ===== src/Ldlm/Grant.antt =====
-- lustre/ldlm.cpp: a waiting extent lock is looked at again, and granted where nothing is in its way
-- (`ldlm_process_extent_lock` not at the first enqueue: no flags, and no list of callbacks).
pub mod Free
pub mod Process
pub mod Exclusive
use lustre_simulator.Base.{
  ℕ, zero, suc, ◌+◌, ◌*◌, ◌^◌, Bool, true, false, ◌&&◌, ◌||◌, not, List, [], ◌∷◌, ◌++◌, Option,
  none, some, ltb, leb, ◌==◌, if◌then◌else◌, get_elem?,
}
use lustre_simulator.Base.Run.{Run, ok, fault, assert, or_fault, ◌>>=◌, ◌>>◌}
use lustre_simulator.Interval.{
  Extent, IntervalNode, Tree, leaf, node, is_leaf, interval_is_overlapped,
}
use lustre_simulator.Interval.Insert.{interval_insert}
use lustre_simulator.Ldlm.{
  Mode, pr, group, nl, mode_value, lockmode_compat, lock_mode_to_index, Lock, IntervalTree,
  Resource, ldlm_extent_overlap, ldlm_extent_policy,
}

-- What a look at a queue says: 0, 1, and 2 for a group lock of the same group.
pub data Compat : Type 0 where
  blocked compatible same_group : Compat

unfoldable pub is_group : Mode → Bool
is_group group = true
is_group mode = false

abbrev pub same_mode : Mode → Mode → Bool
same_mode a b = mode_value a == mode_value b

-- The group number of the first lock that has the root's interval.
pub root_gid : Resource → Tree → Run ℕ
root_gid res leaf = fault
root_gid res (node n l r) = do
  lock ← or_fault (get_elem? (res.groups n.address) 0)
  ok (res.locks lock).gid

pub compat_granted : Resource → ℕ → List IntervalTree → Run Compat
compat_granted res req [] = ok compatible
compat_granted res req (tree ∷ trees) =
    let lock = res.locks req in
    let next = compat_granted res req trees in
    let conflict = if is_group tree.mode then ok blocked else (do
      rc ← interval_is_overlapped tree.root lock.req_extent
      (if rc then ok blocked else next)) in
    if is_leaf tree.root
    then next
    else if lockmode_compat lock.req_mode tree.mode
    then (if not (is_group lock.req_mode) then next else (do
      gid ← root_gid res tree.root
      (if lock.gid == gid then ok same_group else conflict)))
    else conflict

-- The lock, which is not destroyed, is put at another place of the waiting list. It must be in no
-- list then, and is in this one.
abbrev insert_linked : Run Compat
insert_linked = fault

-- A lock is granted where its mode is the one that it asked for.
abbrev pub is_granted : Lock → Bool
is_granted lock = elim lock.granted_mode [ none ↦ false | some m ↦ same_mode lock.req_mode m ]

-- A reader like the one that asks or wider, that nobody was told to give up.
abbrev pub is_wider_reader : Lock → Lock → Bool
is_wider_reader lock asked =
    same_mode asked.req_mode pr
    && leb lock.extent.start asked.extent.start
    && leb asked.extent.end lock.extent.end
    && not lock.ast_sent

abbrev pub is_aside : Lock → Lock → Bool
is_aside lock asked =
    not (is_group lock.req_mode)
    && (ltb lock.extent.end asked.req_extent.start || ltb asked.req_extent.end lock.extent.start)

pub compat_waiting : Resource → ℕ → Bool → List ℕ → Run Compat
compat_waiting res req scan [] = ok (if scan then blocked else compatible)
compat_waiting res req scan (l ∷ queue) =
    let lock = res.locks l in
    let asked = res.locks req in
    let next = compat_waiting res req scan queue in
    let scanning = compat_waiting res req true queue in
    let compat = lockmode_compat lock.req_mode asked.req_mode in
    if l == req
    then ok (if scan then blocked else compatible)
    else if scan
    then (if not (is_group lock.req_mode) || asked.gid == lock.gid then insert_linked else next)
    else if compat && is_wider_reader lock asked
    then ok compatible
    else if compat && not (is_group asked.req_mode)
    then next
    else if compat && asked.gid == lock.gid
    then (if is_granted lock then ok same_group else insert_linked)
    else if is_group asked.req_mode && not (is_granted lock)
    then (if not (is_group lock.req_mode) || asked.gid == lock.gid then insert_linked else scanning)
    else if is_aside lock asked
    then next
    else ok blocked

pub list_del : ℕ → List ℕ → List ℕ
list_del req [] = []
list_del req (l ∷ queue) = if l == req then list_del req queue else l ∷ list_del req queue

-- A lock in a tree gives up its node here, and fails the assertion of `ldlm_extent_add_lock` that it
-- has one: the model stops at once.
pub unlink_waiting : Resource → ℕ → Run Resource
unlink_waiting res req = do
  assert (not (elim (res.locks req).tree_node [ none ↦ true | some n ↦ res.in_tree n ]))
  ok (record res { waiting = list_del req res.waiting })

pub set_lock : (ℕ → Lock) → ℕ → Lock → ℕ → Lock
set_lock locks l lock k = if k == l then lock else locks k

pub set_group : (ℕ → List ℕ) → ℕ → List ℕ → ℕ → List ℕ
set_group groups n members k = if k == n then members else groups k

pub set_in_tree : (ℕ → Bool) → ℕ → ℕ → Bool
set_in_tree in_tree n k = if k == n then true else in_tree k

pub set_tree : List IntervalTree → ℕ → IntervalTree → List IntervalTree
set_tree [] i tree = []
set_tree (t ∷ trees) zero tree = tree ∷ trees
set_tree (t ∷ trees) (suc i) tree = t ∷ set_tree trees i tree

-- The lock leaves its own node, which is freed, for the group of the node that was found.
pub join_group : Resource → ℕ → ℕ → Option IntervalNode → Run Resource
join_group res req own none = ok (record res { in_tree = set_in_tree res.in_tree own })
join_group res req own (some found) = do
  assert (not (elim (res.groups own) [ [] ↦ true | l ∷ members ↦ false ]))
  let left = list_del req (res.groups own)
  assert (elim left [ [] ↦ true | l ∷ members ↦ false ])
  let groups = set_group res.groups own left
  let members = groups found.address ++ (req ∷ [])
  ok (record res {
    groups = set_group groups found.address members;
    locks = set_lock res.locks req (record (res.locks req) { tree_node = some found.address });
  })

pub ldlm_extent_add_lock : Resource → ℕ → Run Resource
ldlm_extent_add_lock res req = do
  let lock = res.locks req
  assert (is_granted lock)
  own ← or_fault lock.tree_node
  assert (not (res.in_tree own))
  idx ← lock_mode_to_index lock.req_mode
  assert (mode_value lock.req_mode == 2 ^ idx)
  tree ← or_fault (get_elem? res.trees idx)
  assert (same_mode lock.req_mode tree.mode)
  assert (leb lock.extent.start lock.extent.end)
  let new : IntervalNode = record {
    low = lock.extent.start;
    high = lock.extent.end;
    max_high = lock.extent.end;
    address = own;
    red = false;
  }
  (found, root) ← interval_insert new tree.root
  joined ← join_group res req own found
  let trees = set_tree res.trees idx (record tree { root = root; size = tree.size + 1 })
  ok (record joined {
    trees = trees;
    granted = if lock.destroyed then res.granted else res.granted ++ (req ∷ []);
  })

pub ldlm_grant_lock : Resource → ℕ → Run Resource
ldlm_grant_lock res req = do
  let lock = res.locks req
  let locks = set_lock res.locks req (record lock { granted_mode = some lock.req_mode })
  added ← ldlm_extent_add_lock (record res { locks = locks }) req
  ok (record added {
    most_restr =
        if ltb (mode_value lock.req_mode) (mode_value res.most_restr)
        then lock.req_mode
        else res.most_restr;
  })

-- The lock leaves the waiting list, and is granted with the extent that the policy gives.
pub pass : ℕ → Resource → ℕ → Run (Bool × Resource)
pass fuel res req = do
  unlinked ← unlink_waiting res req
  (changed, ext) ← ldlm_extent_policy fuel unlinked req
  let locks = set_lock unlinked.locks req (record (unlinked.locks req) { extent = ext })
  granted ← ldlm_grant_lock (record unlinked { locks = locks }) req
  ok (true, granted)

pub waiting_look : Resource → ℕ → Compat → Run Compat
waiting_look res req compatible = compat_waiting res req false res.waiting
waiting_look res req rc = ok rc

pub finish_look : ℕ → Resource → ℕ → Compat → Run (Bool × Resource)
finish_look fuel res req blocked = ok (false, res)
finish_look fuel res req rc = pass fuel res req

abbrev pub no_lock : List ℕ → Bool
no_lock [] = true
no_lock (x ∷ xs) = false

-- With `first_enq` 0 and no flags: whether the walk over the waiting list goes on
-- (`LDLM_ITER_CONTINUE`).
pub ldlm_process_extent_lock : ℕ → Resource → ℕ → Run (Bool × Resource)
ldlm_process_extent_lock fuel res req = do
  assert (no_lock res.converting)
  rc ← compat_granted res req res.trees
  rc' ← waiting_look res req rc
  finish_look fuel res req rc'
