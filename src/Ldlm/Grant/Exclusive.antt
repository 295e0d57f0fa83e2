-- ===== src/Ldlm/Grant/Exclusive.antt =====
-- lustre/ldlm.cpp: the granted locks exclude one another.
use mathlib.Core.Path.{subst}
use mathlib.Core.List.{append_assoc}
use lustre_simulator.Base.{
  ℕ, zero, suc, ◌+◌, ◌≤◌, ◌<◌, ◌≡◌, refl, sym, ap, ◌∙◌, ◌⊎◌, inl, inr, Bool, true, false, List, [],
  ◌∷◌, ◌++◌, Option, none, some, get_elem?, All, arith,
}
use lustre_simulator.Base.Run.{Ends, Ends-map}
use lustre_simulator.Interval.{Extent, IntervalNode, Tree, leaf, node, overlapped}
use lustre_simulator.Interval.Order.{found, found-nothing}
use lustre_simulator.Interval.Insert.Context.{spans}
use lustre_simulator.Interval.Insert.Stored.{Outcome}
use lustre_simulator.Ldlm.{Mode, mode_value, lockmode_compat, IntervalTree, Resource}
use lustre_simulator.Ldlm.Modes.{lockmode_compat_comm}
use lustre_simulator.Ldlm.Granted.{IsFree}
use lustre_simulator.Ldlm.Grant.{same_mode, set_tree, ldlm_process_extent_lock}
use lustre_simulator.Ldlm.Grant.Process.{
  new_node, IsReady, IsProcessed, ldlm_process_extent_lock_lem,
}

-- A granted interval: its mode, its start and its end.
abbrev pub Held : Type 0
Held = Mode × ℕ × ℕ

abbrev tag : Mode → List (ℕ × ℕ) → List Held
tag m [] = []
tag m ((low, high) ∷ xs) = (m, low, high) ∷ tag m xs

-- All that the trees hold.
abbrev pub held : List IntervalTree → List Held
held [] = []
held (t ∷ trees) = tag t.mode (spans t.root) ++ held trees

-- Two intervals of conflicting modes do not overlap.
abbrev pub IsApart : Held → Held → Type 0
IsApart (m, a, b) (k, c, d) = lockmode_compat m k ≡ false → (b < c) ⊎ (d < a)

-- No two granted intervals of conflicting modes overlap.
abbrev pub IsExclusive : List Held → Type 0
IsExclusive [] = Unit
IsExclusive (x ∷ xs) = All (IsApart x) xs × IsExclusive xs

swap : {P Q : Type 0} → P ⊎ Q → Q ⊎ P
swap (inl p) = inr p
swap (inr q) = inl q

IsApart-sym : (x y : Held) → IsApart x y → IsApart y x
IsApart-sym (m, a, b) (k, c, d) apart conflict = swap (apart (lockmode_compat_comm m k ∙ conflict))

All-insert :
    (P : Held → Type 0) (x : Held) (xs ys : List Held)
    → P x
    → All P (xs ++ ys)
    → All P (xs ++ (x ∷ ys))
All-insert P x [] ys here all = (here, all)
All-insert P x (z ∷ xs) ys here (z_is, all) = (z_is, All-insert P x xs ys here all)

IsExclusive-insert :
    (x : Held) (xs ys : List Held)
    → IsExclusive (xs ++ ys)
    → All (IsApart x) (xs ++ ys)
    → IsExclusive (xs ++ (x ∷ ys))
IsExclusive-insert x [] ys old all = (all, old)
IsExclusive-insert x (z ∷ xs) ys (z_is, old) (x_z, all) =
    (All-insert (IsApart z) x xs ys (IsApart-sym x z x_z) z_is, IsExclusive-insert x xs ys old all)

-- Where nothing is found, every interval ends before or starts after.
abbrev IsAside : Extent → ℕ × ℕ → Type 0
IsAside e (low, high) = (e.end < low) ⊎ (high < e.start)

aside : (e : Extent) (n : IntervalNode) → overlapped e n ≡ false → IsAside e (n.low, n.high)
aside e n out = ground arith

All-append : (P : ℕ × ℕ → Type 0) (xs ys : List (ℕ × ℕ)) → All P xs → All P ys → All P (xs ++ ys)
All-append P [] ys p q = q
All-append P (x ∷ xs) ys (here, p) q = (here, All-append P xs ys p q)

found-spans : (e : Extent) (t : Tree) → found e t ≡ [] → All (IsAside e) (spans t)
unfolding spans
found-spans e leaf nothing = tt
found-spans e (node n l r) nothing =
    let (out, x, y) = found-nothing e n l r nothing in
    All-append (IsAside e) (spans l) _ (found-spans e l x) (aside e n out, found-spans e r y)

tag-IsApart :
    (m k : Mode) (e : Extent) (xs : List (ℕ × ℕ))
    → (lockmode_compat m k ≡ false → All (IsAside e) xs)
    → All (IsApart (m, e.start, e.end)) (tag k xs)
tag-IsApart m k e [] free = tt
tag-IsApart m k e ((low, high) ∷ xs) free =
    (λ conflict. (free conflict).0, tag-IsApart m k e xs λ conflict. (free conflict).1)

All-append-Held : (P : Held → Type 0) (xs ys : List Held) → All P xs → All P ys → All P (xs ++ ys)
All-append-Held P [] ys p q = q
All-append-Held P (x ∷ xs) ys (here, p) q = (here, All-append-Held P xs ys p q)

-- An extent that is free in the trees is apart from all that they hold.
free_held :
    (m : Mode) (e : Extent) (trees : List IntervalTree)
    → All (IsFree m e) trees
    → All (IsApart (m, e.start, e.end)) (held trees)
free_held m e [] free = tt
free_held m e (t ∷ trees) (here, there) =
    All-append-Held (IsApart (m, e.start, e.end)) (tag t.mode (spans t.root)) (held trees)
      (tag-IsApart m t.mode e (spans t.root)
        λ conflict. found-spans e t.root (here (lockmode_compat_comm t.mode m ∙ conflict)))
      (free_held m e trees there)

-- A list with one element more, somewhere.
record IsMore (x : Held) (old new : List Held) : Type 0 where
  before : List Held
  after : List Held
  old_is : old ≡ before ++ after
  new_is : new ≡ before ++ (x ∷ after)

tag-append : (m : Mode) (xs ys : List (ℕ × ℕ)) → tag m (xs ++ ys) ≡ tag m xs ++ tag m ys
tag-append m [] ys = refl
tag-append m ((low, high) ∷ xs) ys = ap (λ t. (m, low, high) ∷ t) (tag-append m xs ys)

some_tree : {t u : IntervalTree} → some t ≡ some u → t ≡ u
some_tree h = cc

set_tree-IsMore :
    (trees : List IntervalTree) (idx : ℕ) (t u : IntervalTree) (low high : ℕ) (b a : List (ℕ × ℕ))
    → get_elem? trees idx ≡ some t
    → u.mode ≡ t.mode
    → spans t.root ≡ b ++ a
    → spans u.root ≡ b ++ ((low, high) ∷ a)
    → IsMore (t.mode, low, high) (held trees) (held (set_tree trees idx u))
unfolding set_tree
set_tree-IsMore [] idx t u low high b a is same old new = cc
set_tree-IsMore (t' ∷ trees) zero t u low high b a is same old new =
    let H = held trees in
    let t'_is : t' ≡ t = some_tree is in
    record {
      before = tag t.mode b;
      after = tag t.mode a ++ H;
      old_is =
          ap (λ x. tag x.mode (spans x.root) ++ H) t'_is
          ∙ ap (λ x. tag t.mode x ++ H) old
          ∙ ap (λ x. x ++ H) (tag-append t.mode b a)
          ∙ append_assoc (tag t.mode b) _ _;
      new_is =
          ap (λ x. tag x (spans u.root) ++ H) same
          ∙ ap (λ x. tag t.mode x ++ H) new
          ∙ ap (λ x. x ++ H) (tag-append t.mode b ((low, high) ∷ a))
          ∙ append_assoc (tag t.mode b) _ _;
    }
set_tree-IsMore (t' ∷ trees) (suc idx) t u low high b a is same old new =
    let v = set_tree-IsMore trees idx t u low high b a is same old new in
    let first = tag t'.mode (spans t'.root) in
    record {
      before = first ++ v.before;
      after = v.after;
      old_is = ap (λ x. first ++ x) v.old_is ∙ sym (append_assoc first v.before v.after);
      new_is = ap (λ x. first ++ x) v.new_is ∙ sym (append_assoc first v.before _);
    }

set_tree_same :
    (trees : List IntervalTree) (idx : ℕ) (t u : IntervalTree)
    → get_elem? trees idx ≡ some t
    → u.mode ≡ t.mode
    → spans u.root ≡ spans t.root
    → held (set_tree trees idx u) ≡ held trees
unfolding set_tree
set_tree_same [] idx t u is same spans_same = cc
set_tree_same (t' ∷ trees) zero t u is same spans_same =
    ap (λ x. tag x (spans u.root) ++ held trees) same
    ∙ ap (λ x. tag t.mode x ++ held trees) spans_same
    ∙ ap (λ x. tag x.mode (spans x.root) ++ held trees) (sym (some_tree is))
set_tree_same (t' ∷ trees) (suc idx) t u is same spans_same =
    ap (λ x. tag t'.mode (spans t'.root) ++ x) (set_tree_same trees idx t u is same spans_same)

same_mode_lem : (m k : Mode) → same_mode m k ≡ true → m ≡ k
unfolding mode_value
same_mode_lem Mode.ex Mode.ex h = refl
same_mode_lem Mode.pw Mode.pw h = refl
same_mode_lem Mode.pr Mode.pr h = refl
same_mode_lem Mode.cw Mode.cw h = refl
same_mode_lem Mode.cr Mode.cr h = refl
same_mode_lem Mode.nl Mode.nl h = refl
same_mode_lem Mode.group Mode.group h = refl
same_mode_lem _ _ h = cc

-- A tree with what an insertion leaves of it.
abbrev with_root : IntervalTree → Tree → IntervalTree
with_root t root = record t { root = root; size = t.size + 1 }

same_held : {m k : Mode} {a b c d : ℕ} → m ≡ k → c ≡ a → d ≡ b → ◌≡◌ {A = Held} (m, a, b) (k, c, d)
same_held p q r = cc

-- The interval that goes into a tree is apart from all that is held, so that all stay apart.
outcome_lem :
    (m : Mode) (e : Extent) (trees : List IntervalTree) (idx : ℕ) (t : IntervalTree)
    (n : IntervalNode) (r : Option IntervalNode × Tree)
    → get_elem? trees idx ≡ some t
    → m ≡ t.mode
    → n.low ≡ e.start
    → n.high ≡ e.end
    → All (IsFree m e) trees
    → IsExclusive (held trees)
    → Outcome (spans t.root) n r
    → IsExclusive (held (set_tree trees idx (with_root t r.1)))
outcome_lem m e trees idx t n (some p, root) is mode_is low high free old (_, _, same) =
    rw (set_tree_same trees idx t (with_root t root) is refl same) old
outcome_lem m e trees idx t n (none, root) is mode_is low high free old (b, a, split, more) =
    let x : Held = (t.mode, n.low, n.high) in
    let v = set_tree-IsMore trees idx t (with_root t root) n.low n.high b a is refl split more in
    let apart =
      subst (λ k. All (IsApart k) (held trees)) (same_held mode_is low high)
        (free_held m e trees free) in
    let old' = subst IsExclusive v.old_is old in
    let apart' = subst (λ xs. All (IsApart x) xs) v.old_is apart in
    subst IsExclusive (sym v.new_is) (IsExclusive-insert x v.before v.after old' apart')

processed :
    (res : Resource) (req own idx : ℕ) (tree : IntervalTree) (r : Bool × Resource)
    → IsReady res req own idx tree
    → IsExclusive (held res.trees)
    → IsProcessed res req tree r
    → IsExclusive (held r.1.trees)
processed res req own idx tree (false, new) v old same =
    subst (λ x. IsExclusive (held x.trees)) (sym same) old
processed res req own idx tree (true, new) v old g =
    let t = v.tree_of in
    let sound = t.sound in
    subst (λ x. IsExclusive (held x)) (sym g.trees)
      (outcome_lem (res.locks req).req_mode g.ext res.trees g.idx tree (new_node g.ext g.own)
        g.result g.there (same_mode_lem (res.locks req).req_mode tree.mode sound.mode_is) refl refl
        g.free old (let w = g.inserted in w.outcome))

-- Looking at a waiting lock again (`first_enq` is 0, with no flags) keeps the granted locks exclusive: where no two granted intervals
-- of conflicting modes overlap, in a sound resource where no lock is converting and for a whole lock,
-- with an interval node of its own, that is no group lock, none
-- do afterwards, whether the lock is granted or not.
pub ldlm_process_extent_lock-IsExclusive :
    (fuel : ℕ) (res : Resource) (req own idx : ℕ) (tree : IntervalTree)
    → 52 ≤ fuel
    → IsReady res req own idx tree
    → IsExclusive (held res.trees)
    → Ends (λ (_, new). IsExclusive (held new.trees)) (ldlm_process_extent_lock fuel res req)
ldlm_process_extent_lock-IsExclusive fuel res req own idx tree enough v old =
    Ends-map (ldlm_process_extent_lock_lem fuel res req own idx tree enough v)
      λ r x. processed res req own idx tree r v old x
