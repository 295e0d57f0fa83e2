-- ===== src/Ldlm/Grant/Process.antt =====
-- lustre/ldlm.cpp: when a waiting lock is looked at again, and what it is granted.
use mathlib.Core.Path.{subst}
use lustre_simulator.Base.{
  ℕ, ◌+◌, ◌^◌, ◌-◌, ◌≤◌, ◌<◌, ◌≡◌, refl, sym, ap, ◌∙◌, inl, inr, Bool, true, false, not, List, [],
  ◌∷◌, ◌++◌, Option, none, some, leb, ◌==◌, if◌then◌else◌, get_elem?, Bool-cases, ==_refl, ==_iff,
  All, arith,
}
use lustre_simulator.Base.Run.{
  ok, Ends, ends, Ends-eq, Ends-bind, Ends-map, Ends-if, assert-Ends, or_fault-Ends, Ends-value,
  ok-Ends,
}
use lustre_simulator.Interval.{Extent, IntervalNode, Tree}
use lustre_simulator.Interval.Insert.{is_red}
use lustre_simulator.Interval.Insert.Context.{spans}
use lustre_simulator.Interval.Insert.Stored.{IsInserted, interval_insert_lem}
use lustre_simulator.Ldlm.{
  Mode, mode_value, lockmode_compat, lock_mode_to_index, Lock, IntervalTree, Resource,
}
use lustre_simulator.Ldlm.Modes.{lock_mode_to_index_lem}
use lustre_simulator.Ldlm.Granted.{IsSorted, IsFree}
use lustre_simulator.Ldlm.Fixup.{IsAligned}
use lustre_simulator.Ldlm.Waiting.{IsWaiting, IsKept}
use lustre_simulator.Ldlm.Policy.{IsGiven, ldlm_extent_policy_lem}
use lustre_simulator.Ldlm.Grant.Free.{HasGroup, GroupsLast, IsClear, compat_granted_lem}
use lustre_simulator.Ldlm.Grant.{
  no_lock, Compat, blocked, compatible, same_group, is_group, same_mode, is_granted,
  is_wider_reader, is_aside, compat_waiting, list_del, unlink_waiting, set_lock, set_tree,
  join_group, ldlm_extent_add_lock, ldlm_grant_lock, pass, waiting_look, finish_look,
  ldlm_process_extent_lock,
}

abbrev pub new_node : Extent → ℕ → IntervalNode
new_node ext own = record {
  low = ext.start;
  high = ext.end;
  max_high = ext.end;
  address = own;
  red = false;
}

-- A waiting lock has an interval node of its own, outside the trees.
pub record HasNode (res : Resource) (req own : ℕ) : Type 0 where
  pub node_is : (res.locks req).tree_node ≡ some own
  pub outside : res.in_tree own ≡ false
  pub alone : res.groups own ≡ req ∷ []

-- The tree of a mode is in order, and its root is black.
pub record IsSound (mode : Mode) (tree : IntervalTree) : Type 0 where
  pub mode_is : same_mode mode tree.mode ≡ true
  pub sorted : IsSorted tree
  pub black : is_red tree.root ≡ false

-- The tree of a mode, at its index.
pub record IsTreeOf (res : Resource) (mode : Mode) (idx : ℕ) (tree : IntervalTree) : Type 0 where
  pub index_is : lock_mode_to_index mode ≡ ok idx
  pub there : get_elem? res.trees idx ≡ some tree
  pub sound : IsSound mode tree

le_leb : {a b : ℕ} → a ≤ b → leb a b ≡ true
le_leb h = ground arith

kept_alive :
    {destroyed : Bool} (x y : List ℕ) → destroyed ≡ false → (if destroyed then x else y) ≡ y
kept_alive x y h = rw h refl

some_inj : {a b : ℕ} → some a ≡ some b → a ≡ b
some_inj h = cc

node_outside :
    (o : Option ℕ) (in_tree : ℕ → Bool) {own : ℕ}
    → o ≡ some own
    → in_tree own ≡ false
    → not (elim o [ none ↦ true | some n ↦ in_tree n ]) ≡ true
node_outside none in_tree is outside = cc
node_outside (some n) in_tree is outside = ap not (ap in_tree (some_inj is) ∙ outside)

set_lock-same : (locks : ℕ → Lock) (l : ℕ) (lock : Lock) → set_lock locks l lock l ≡ lock
unfolding set_lock
set_lock-same locks l lock = rw (==_refl l) refl

-- Joining a group leaves all but the node of the lock.
record IsJoined (res : Resource) (req : ℕ) (new : Resource) : Type 0 where
  granted : new.granted ≡ res.granted
  waiting : new.waiting ≡ res.waiting
  extent : (new.locks req).extent ≡ (res.locks req).extent
  mode : (new.locks req).granted_mode ≡ (res.locks req).granted_mode

join_group_lem :
    (res : Resource) (req own : ℕ) (found : Option IntervalNode)
    → res.groups own ≡ req ∷ []
    → Ends (IsJoined res req) (join_group res req own found)
unfolding join_group list_del
join_group_lem res req own none alone =
    ends (record { granted = refl; waiting = refl; extent = refl; mode = refl })
join_group_lem res req own (some n) alone =
    let lock = record (res.locks req) { tree_node = some n.address } in
    let same = set_lock-same res.locks req lock in
    rw (alone, ==_refl req)
      (ends (record {
        granted = refl;
        waiting = refl;
        extent = ap (λ l. l.extent) same;
        mode = ap (λ l. l.granted_mode) same;
      }))

-- What adding a granted lock does: its interval goes into the tree of its mode, and the lock to the
-- end of the granted ones.
pub record IsAdded (res : Resource) (req : ℕ) (tree : IntervalTree) (new : Resource) : Type 0 where
  pub granted : new.granted ≡ res.granted ++ (req ∷ [])
  pub waiting : new.waiting ≡ res.waiting
  pub extent : (new.locks req).extent ≡ (res.locks req).extent
  pub mode : (new.locks req).granted_mode ≡ (res.locks req).granted_mode
  pub own : ℕ
  pub idx : ℕ
  pub index_is : 2 ^ idx ≡ mode_value (res.locks req).req_mode
  pub there : get_elem? res.trees idx ≡ some tree
  pub result : Option IntervalNode × Tree
  pub inserted :
      IsInserted 0 (2 ^ 64 - 1) (spans tree.root) (new_node (res.locks req).extent own) result
  pub trees :
      new.trees ≡ set_tree res.trees idx (record tree { root = result.1; size = tree.size + 1 })

module _ (res : Resource) (req own idx : ℕ) (tree : IntervalTree)
    (is : is_granted (res.locks req) ≡ true) (alive : (res.locks req).destroyed ≡ false)
    (v : HasNode res req own) (t : IsTreeOf res (res.locks req).req_mode idx tree)
    (order : (res.locks req).extent.start ≤ (res.locks req).extent.end)
    (top : (res.locks req).extent.end < 2 ^ 64) where
  ldlm_extent_add_lock_lem : Ends (IsAdded res req tree) (ldlm_extent_add_lock res req)
  unfolding ldlm_extent_add_lock
  ldlm_extent_add_lock_lem =
      let lock = res.locks req in
      let bit = Ends-value (lock_mode_to_index_lem lock.req_mode) idx t.index_is in
      Ends-bind (assert-Ends (is_granted lock) is) λ _ _.
        Ends-bind (or_fault-Ends lock.tree_node v.node_is) λ own' own_is.
          let outside = subst (λ k. not (res.in_tree k) ≡ true) (sym own_is) (ap not v.outside) in
          let alone = subst (λ k. res.groups k ≡ req ∷ []) (sym own_is) v.alone in
          Ends-bind (assert-Ends (not (res.in_tree own')) outside) λ _ _.
            Ends-bind (ok-Ends (lock_mode_to_index lock.req_mode) t.index_is) λ i i_is.
              let bit' = subst (λ k. 2 ^ k ≡ mode_value lock.req_mode) (sym i_is) bit in
              Ends-bind
                (assert-Ends (mode_value lock.req_mode == 2 ^ i)
                  ((==_iff (mode_value lock.req_mode) (2 ^ i)).1 (sym bit')))
                λ _ _.
                  Ends-bind
                    (or_fault-Ends (get_elem? res.trees i)
                      (ap (get_elem? res.trees) i_is ∙ t.there))
                    λ tree' tree_is.
                      let u = subst (λ x. IsSound lock.req_mode x) (sym tree_is) t.sound in
                      Ends-bind (assert-Ends (same_mode lock.req_mode tree'.mode) u.mode_is) λ _ _.
                        Ends-bind
                          (assert-Ends (leb lock.extent.start lock.extent.end) (le_leb order))
                          λ _ _.
                            Ends-bind
                              (interval_insert_lem 0 (2 ^ 64 - 1) (new_node lock.extent own')
                                tree'.root order refl u.sorted (omega arith)
                                (omega (arith, order, top)) u.black)
                              λ (found, root) x.
                                Ends-bind (join_group_lem res req own' found alone) λ joined y.
                                  ends (
                                    subst
                                      (λ k. IsAdded res req k (record joined {
                                        trees =
                                            set_tree res.trees i
                                              (record tree' { root = root; size = tree'.size + 1 });
                                        granted =
                                            if lock.destroyed
                                            then res.granted
                                            else res.granted ++ (req ∷ []);
                                      }))
                                      tree_is
                                      (record {
                                        granted =
                                            kept_alive res.granted (res.granted ++ (req ∷ []))
                                              alive;
                                        waiting = y.waiting;
                                        extent = y.extent;
                                        mode = y.mode;
                                        own = own';
                                        idx = i;
                                        index_is = bit';
                                        there =
                                            ap (get_elem? res.trees) i_is
                                            ∙ t.there
                                            ∙ ap some (sym tree_is);
                                        result = (found, root);
                                        inserted = x;
                                        trees = refl;
                                      }))

compat_waiting-Ends :
    (res : Resource) (req : ℕ) (queue : List ℕ)
    → is_group (res.locks req).req_mode ≡ false
    → Ends (λ _. Unit {0}) (compat_waiting res req false queue)
unfolding compat_waiting
compat_waiting-Ends res req [] other = ends tt
compat_waiting-Ends res req (l ∷ queue) other =
    let next = compat_waiting-Ends res req queue other in
    elim (Bool-cases (lockmode_compat (res.locks l).req_mode (res.locks req).req_mode)) [
      | inl compat ↦
          rw (other, compat)
            (Ends-if (l == req) (λ _. ends tt)
              λ _. Ends-if (is_wider_reader (res.locks l) (res.locks req)) (λ _. ends tt) λ _. next)
      | inr conflict ↦
          rw (other, conflict)
            (Ends-if (l == req) (λ _. ends tt)
              λ _. Ends-if (is_aside (res.locks l) (res.locks req)) (λ _. next) λ _. ends tt)
    ]

All-list_del :
    (P : ℕ → Type 0) (req : ℕ) (queue : List ℕ) → All P queue → All P (list_del req queue)
unfolding list_del
All-list_del P req [] v = tt
All-list_del P req (l ∷ queue) (here, there) = elim (Bool-cases (l == req)) [
  | inl same ↦ rw same (All-list_del P req queue there)
  | inr other ↦ rw other (here, All-list_del P req queue there)
]

-- What a lock is granted: an extent that contains the request and overlaps no granted lock of a
-- conflicting mode, nor more of the other waiting locks than it asked for.
pub record IsGranted (res : Resource) (req : ℕ) (tree : IntervalTree) (new : Resource)
    : Type 0 where
  pub ext : Extent
  pub start_asked : ext.start ≤ (res.locks req).req_extent.start
  pub end_asked : (res.locks req).req_extent.end ≤ ext.end
  pub free : All (IsFree (res.locks req).req_mode ext) res.trees
  pub kept : All (IsKept res.locks req ext) (list_del req res.waiting)
  pub waiting : new.waiting ≡ list_del req res.waiting
  pub granted : new.granted ≡ res.granted ++ (req ∷ [])
  pub extent : (new.locks req).extent ≡ ext
  pub mode : (new.locks req).granted_mode ≡ some (res.locks req).req_mode
  pub own : ℕ
  pub idx : ℕ
  pub index_is : 2 ^ idx ≡ mode_value (res.locks req).req_mode
  pub there : get_elem? res.trees idx ≡ some tree
  pub result : Option IntervalNode × Tree
  pub inserted : IsInserted 0 (2 ^ 64 - 1) (spans tree.root) (new_node ext own) result
  pub trees :
      new.trees ≡ set_tree res.trees idx (record tree { root = result.1; size = tree.size + 1 })

-- A lock that stays blocked changes nothing.
abbrev pub IsProcessed : Resource → ℕ → IntervalTree → Bool × Resource → Type 0
IsProcessed res req tree (false, new) = new ≡ res
IsProcessed res req tree (true, new) = IsGranted res req tree new

-- The lock is whole and waits for a place in a sound resource, where none is converting.
pub record IsReady (res : Resource) (req own idx : ℕ) (tree : IntervalTree) : Type 0 where
  pub settled : res.converting ≡ []
  pub asked : IsWaiting (res.locks req)
  pub aligned : IsAligned (res.locks req).req_extent
  pub no_group : is_group (res.locks req).req_mode ≡ false
  pub alive : (res.locks req).destroyed ≡ false
  pub has_node : HasNode res req own
  pub tree_of : IsTreeOf res (res.locks req).req_mode idx tree
  pub sorted : All IsSorted res.trees
  pub groups : All (λ t. HasGroup res t.root) res.trees
  pub order : GroupsLast res.trees
  pub waits : All (λ lock. IsWaiting (res.locks lock)) res.waiting

module _ (fuel : ℕ) (res : Resource) (req own idx : ℕ) (tree : IntervalTree) (enough : 52 ≤ fuel)
    (v : IsReady res req own idx tree) where
  abbrev unlinked : Resource
  unlinked = record res { waiting = list_del req res.waiting }

  abbrev given : Extent → Resource
  given ext = record unlinked {
    locks = set_lock unlinked.locks req (record (unlinked.locks req) { extent = ext });
  }

  abbrev as_granted : Lock → Lock
  as_granted lock = record lock { granted_mode = some lock.req_mode }

  -- The lock with its new extent and mode.
  abbrev final_lock : Extent → Lock
  final_lock ext = record (res.locks req) {
    extent = ext;
    granted_mode = some (res.locks req).req_mode;
  }

  grant_lem :
      (r : Bool × Extent)
      → IsGiven unlinked req r
      → Ends (IsGranted res req tree) (ldlm_grant_lock (given r.1) req)
  unfolding ldlm_grant_lock
  grant_lem (changed, ext) u =
      let g = given ext in
      let lock = g.locks req in
      let locks = set_lock g.locks req (record lock { granted_mode = some lock.req_mode }) in
      let lock_is : lock ≡ record (res.locks req) { extent = ext } =
        set_lock-same res.locks req (record (res.locks req) { extent = ext }) in
      let E : locks req ≡ final_lock ext =
        set_lock-same g.locks req (record lock { granted_mode = some lock.req_mode })
        ∙ ap as_granted lock_is in
      let back = sym E in
      let t = v.tree_of in
      let start : Resource = record g { locks = locks } in
      Ends-bind
        (ldlm_extent_add_lock_lem start req own idx tree
          (subst (λ l. is_granted l ≡ true) back (==_refl (mode_value (res.locks req).req_mode)))
          (subst (λ l. l.destroyed ≡ false) back v.alive)
          (record {
            node_is = subst (λ l. l.tree_node ≡ some own) back v.has_node.node_is;
            outside = v.has_node.outside;
            alone = v.has_node.alone;
          })
          (subst (λ l. IsTreeOf start l.req_mode idx tree) back
            (record { index_is = t.index_is; there = t.there; sound = t.sound }))
          (subst (λ l. l.extent.start ≤ l.extent.end) back
            (omega (
              arith, u.start_asked, u.end_asked, v.asked.order, v.asked.start_asked,
              v.asked.end_asked,
            )))
          (subst (λ l. l.extent.end < 2 ^ 64) back u.top))
        λ added a. ends (record {
          ext = ext;
          start_asked = u.start_asked;
          end_asked = u.end_asked;
          free = u.free;
          kept = u.kept;
          waiting = a.waiting;
          granted = a.granted;
          extent = a.extent ∙ ap (λ l. l.extent) E;
          mode = a.mode ∙ ap (λ l. l.granted_mode) E;
          own = a.own;
          idx = a.idx;
          there = a.there;
          index_is = a.index_is ∙ ap (λ l. mode_value l.req_mode) E;
          result = a.result;
          inserted =
              subst
                (λ l.
                  IsInserted 0 (2 ^ 64 - 1) (spans tree.root) (new_node l.extent a.own) a.result)
                E a.inserted;
          trees = a.trees;
        })

  -- A look that lets the lock through proves that its request is free.
  second_look :
      (rc : Compat)
      → IsClear res req res.trees rc
      → Ends (IsClear res req res.trees) (waiting_look res req rc)
  unfolding waiting_look
  second_look blocked clear = ends clear
  second_look same_group clear = ends clear
  second_look compatible clear =
      Ends-map (compat_waiting-Ends res req res.waiting v.no_group) λ c _ _. clear λ h. cc

  unlink_lem : Ends (λ new. new ≡ unlinked) (unlink_waiting res req)
  unfolding unlink_waiting
  unlink_lem =
      Ends-bind
        (assert-Ends (not (elim (res.locks req).tree_node [ none ↦ true | some n ↦ res.in_tree n ]))
          (node_outside (res.locks req).tree_node res.in_tree v.has_node.node_is
            v.has_node.outside))
        λ _ _. ends refl

  pass_lem :
      All (IsFree (res.locks req).req_mode (res.locks req).req_extent) res.trees
      → Ends (IsProcessed res req tree) (pass fuel res req)
  unfolding pass
  pass_lem free = rw (Ends-eq unlink_lem) (
      Ends-bind
        (ldlm_extent_policy_lem fuel unlinked req enough v.asked v.sorted free v.aligned
          (All-list_del (λ lock. IsWaiting (res.locks lock)) req res.waiting v.waits))
        λ r u. Ends-bind (grant_lem r u) λ granted x. ends x)

  look_lem :
      (rc : Compat)
      → IsClear res req res.trees rc
      → Ends (IsProcessed res req tree) (finish_look fuel res req rc)
  unfolding finish_look
  look_lem blocked clear = ends refl
  look_lem compatible clear = pass_lem (clear λ h. cc)
  look_lem same_group clear = pass_lem (clear λ h. cc)

  pub ldlm_process_extent_lock_lem :
      Ends (IsProcessed res req tree) (ldlm_process_extent_lock fuel res req)
  unfolding ldlm_process_extent_lock
  ldlm_process_extent_lock_lem =
      Ends-bind (assert-Ends (no_lock res.converting) (ap no_lock v.settled)) λ _ _.
        Ends-bind (compat_granted_lem res req res.trees v.sorted v.groups v.order)
          λ rc clear. Ends-bind (second_look rc clear) λ rc' clear'. look_lem rc' clear'
