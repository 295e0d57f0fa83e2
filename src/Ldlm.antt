-- ===== src/Ldlm.antt =====
-- lustre/ldlm.cpp and lustre/ldlm.h: the modes of locks, and the extent that a lock is given. A lock
-- is its address; `locks` is the memory. The bit operations of the source that meet a mask of
-- the form 2 ^ k - 1 are written by division.
pub mod Modes
pub mod Mask
pub mod Fixup
pub mod Granted
pub mod Waiting
pub mod Policy
pub mod Grant
pub mod Tests
use Prim.Native.Nat.{bit_and, bit_or}
use lustre_simulator.Base.{
  ℕ, zero, suc, ◌+◌, ◌-◌, ◌*◌, ◌/◌, ◌%◌, ◌^◌, Bool, true, false, ◌&&◌, ◌||◌, not, List, [], ◌∷◌,
  Option, none, some, ltb, leb, ◌==◌, if◌then◌else◌,
}
use lustre_simulator.Base.Run.{Run, ok, out_of_fuel, assert, ◌>>◌, ◌>>=◌}
use lustre_simulator.Base.Words.{u64, sub_u64}
use lustre_simulator.Interval.{Extent, Tree, interval_is_overlapped, interval_expand}

pub data Mode : Type 0 where
  ex pw pr cw cr nl group : Mode

-- The value of a mode, `LCK_EX` to `LCK_GROUP`.
pub mode_value : Mode → ℕ
mode_value ex = 1
mode_value pw = 2
mode_value pr = 4
mode_value cw = 8
mode_value cr = 16
mode_value nl = 32
mode_value group = 64

-- `LCK_COMPAT_EX` to `LCK_COMPAT_GROUP`, with which the constructor fills `lck_compat_array`.
pub lck_compat : Mode → ℕ
unfolding mode_value
lck_compat ex = mode_value nl
lck_compat pw = bit_or (mode_value nl) (mode_value cr)
lck_compat pr = bit_or (bit_or (mode_value nl) (mode_value cr)) (mode_value pr)
lck_compat cw = bit_or (bit_or (mode_value nl) (mode_value cr)) (mode_value cw)
lck_compat cr =
    bit_or
      (bit_or (bit_or (bit_or (mode_value nl) (mode_value cr)) (mode_value cw)) (mode_value pr))
      (mode_value pw)
lck_compat nl =
    bit_or
      (bit_or
        (bit_or
          (bit_or (bit_or (bit_or (mode_value nl) (mode_value cr)) (mode_value cw)) (mode_value pr))
          (mode_value pw))
        (mode_value ex))
      (mode_value group)
lck_compat group = bit_or (mode_value group) (mode_value nl)

pub lockmode_compat : Mode → Mode → Bool
unfolding lck_compat mode_value
lockmode_compat exist newmode = not (bit_and (lck_compat exist) (mode_value newmode) == 0)

-- The rounds of a shift to the right until nothing is left.
pub index_loop : ℕ → ℕ → ℕ → Run ℕ
index_loop zero tmp index = out_of_fuel
index_loop (suc fuel) tmp index =
    let next = index_loop fuel (tmp / 2) (index + 1) in if tmp == 0 then ok index else next

-- The loop's index starts at -1, and is one more here; a mode has at most seven bits.
pub lock_mode_to_index : Mode → Run ℕ
unfolding mode_value
lock_mode_to_index mode = do
  assert (not (mode_value mode == 0))
  index ← index_loop 8 (mode_value mode) 0
  assert (ltb (index - 1) 7)
  ok (index - 1)

pub record Lock : Type 0 where
  pub req_mode : Mode
  pub extent : Extent
  pub gid : ℕ
  pub req_extent : Extent
  pub export : Option ℕ
  pub granted_mode : Option Mode
  pub tree_node : Option ℕ
  pub ast_sent : Bool
  pub destroyed : Bool

pub record IntervalTree : Type 0 where
  pub size : ℕ
  pub mode : Mode
  pub root : Tree

pub record Resource : Type 0 where
  pub locks : ℕ → Lock
  pub trees : List IntervalTree
  pub waiting : List ℕ
  pub granted : List ℕ
  pub converting : List ℕ
  pub most_restr : Mode
  -- For each interval node, whether it is in a tree, and the locks of its group.
  pub in_tree : ℕ → Bool
  pub groups : ℕ → List ℕ

abbrev pub obd_object_eof : ℕ
obd_object_eof = 2 ^ 64 - 1

abbrev pub max_grown_extent : ℕ
max_grown_extent = 32 * 1024 * 1024 - 1

abbrev pub min_u64 : ℕ → ℕ → ℕ
min_u64 x y = if ltb x y then x else y

abbrev pub max_u64 : ℕ → ℕ → ℕ
max_u64 x y = if ltb y x then x else y

abbrev pub ldlm_extent_overlap : Extent → Extent → Bool
ldlm_extent_overlap x y = leb x.start y.end && leb y.start x.end

pub is_writer : Mode → Bool
is_writer pw = true
is_writer cw = true
is_writer mode = false

-- A high-traffic lock is not grown upwards too much.
pub cap_growth : Mode → Extent → Extent → ℕ → Extent
cap_growth mode req ext conflicting =
    let limit = u64 (req.start + max_grown_extent) in
    if ltb 32 conflicting && is_writer mode
    then (if ltb req.end limit then record ext { end = min_u64 limit ext.end } else ext)
    else ext

-- `(a | b) & mask`, where the mask is one bit, or 0 once that bit is shifted out.
abbrev pub has_bit : ℕ → ℕ → ℕ → Bool
has_bit a b mask = not (a / mask % 2 == 0) || not (b / mask % 2 == 0)

pub mask_loop : ℕ → ℕ → ℕ → ℕ → Run ℕ
mask_loop zero a b mask = out_of_fuel
mask_loop (suc fuel) a b mask =
    let next = mask_loop fuel a b (u64 (mask * 2)) in if has_bit a b mask then ok mask else next

-- The bit before the 1 is taken off, for a request that ends before `a` and starts at `b`.
pub find_mask : ℕ → ℕ → ℕ → Run ℕ
find_mask fuel a b = if a == 0 && b == 0 then ok 0x1000 else mask_loop fuel a b 0x1000

-- `((start - 1) | mask) + 1` and `((end + 1) & ~mask) - 1`, with one more than the mask.
pub align_start : ℕ → ℕ → ℕ
align_start power start = let x = sub_u64 start 1 in u64 (x - x % power + (power - 1) + 1)

pub align_end : ℕ → ℕ → ℕ
align_end power end = let x = u64 (end + 1) in sub_u64 (x - x % power) 1

pub ldlm_extent_internal_policy_fixup : ℕ → Mode → Extent → Extent → ℕ → Run Extent
ldlm_extent_internal_policy_fixup fuel mode req new_ex conflicting =
    let capped = cap_growth mode req new_ex conflicting in
    if capped.start == 0 && capped.end == obd_object_eof then ok capped else (do
      power ← find_mask fuel (u64 (req.end + 1)) req.start
      let start = align_start power capped.start
      let end = align_end power capped.end
      assert (leb start req.start)
      assert (leb req.end end)
      ok (record { start = start; end = end }))

abbrev pub same_extent : Extent → Extent → Bool
same_extent x y = x.start == y.start && x.end == y.end

-- The loop over the trees of the granted locks: the limiter and the count of conflicting locks.
pub granted_loop : Mode → Extent → List IntervalTree → Extent → ℕ → Run (Extent × ℕ)
granted_loop mode req [] limiter conflicting = ok (limiter, conflicting)
granted_loop mode req (tree ∷ trees) limiter conflicting =
    let next = granted_loop mode req trees in
    if lockmode_compat tree.mode mode then next limiter conflicting else (do
      let conflicting' = conflicting + tree.size
      let start = if ltb 4 conflicting' then req.start else limiter.start
      overlap ← interval_is_overlapped tree.root req
      grown ← interval_expand tree.root req (record limiter { start = start })
      let limiter' : Extent = record {
        start = max_u64 start grown.start;
        end = min_u64 limiter.end grown.end;
      }
      (if same_extent limiter' req
          then ok (limiter', conflicting')
          else next limiter' conflicting'))

pub ldlm_extent_internal_policy_granted :
    ℕ → Mode → Extent → List IntervalTree → Extent → Run Extent
ldlm_extent_internal_policy_granted fuel mode req trees new_ex = do
  (limiter, conflicting) ← granted_loop mode req trees new_ex 0
  assert (leb limiter.start req.start)
  assert (leb req.end limiter.end)
  ldlm_extent_internal_policy_fixup fuel mode req limiter conflicting

abbrev pub same_export : Option ℕ → Option ℕ → Bool
same_export none none = true
same_export (some a) (some b) = a == b
same_export _ _ = false

-- What a conflicting lock of the waiting list leaves of the extent.
pub avoid : Extent → Lock → Extent → Extent
avoid req lock new_ex =
    let l = lock.extent in
    if not (ldlm_extent_overlap l new_ex)
    then new_ex
    else if ldlm_extent_overlap lock.req_extent req
    then new_ex
    else record {
      start =
          if ltb l.start req.start && not (new_ex.start == req.start)
          then (if leb req.start l.end then req.start else min_u64 (u64 (l.end + 1)) req.start)
          else new_ex.start;
      end =
          if ltb req.end l.end
          then (if leb l.start req.end
              then max_u64 (sub_u64 lock.req_extent.start 1) req.end
              else max_u64 (sub_u64 l.start 1) req.end)
          else new_ex.end;
    }

pub is_conflicting : Lock → Lock → Bool
is_conflicting lock req =
    not (lockmode_compat lock.req_mode req.req_mode && not (same_export lock.export req.export))

-- The loop over the waiting locks; the result says whether it has returned from the function.
pub waiting_loop : (ℕ → Lock) → ℕ → List ℕ → Extent → ℕ → Bool × Extent × ℕ
waiting_loop locks req [] new_ex conflicting = (false, new_ex, conflicting)
waiting_loop locks req (lock ∷ queue) new_ex conflicting =
    let next = waiting_loop locks req queue in
    let asked = (locks req).req_extent in
    if same_extent new_ex asked
    then (true, new_ex, conflicting)
    else if lock == req
    then next new_ex conflicting
    else if not (is_conflicting (locks lock) (locks req))
    then next new_ex conflicting
    else (let start = if ltb 4 (conflicting + 1) then asked.start else new_ex.start in
        next (avoid asked (locks lock) (record new_ex { start = start })) (conflicting + 1))

pub ldlm_extent_internal_policy_waiting : ℕ → (ℕ → Lock) → ℕ → List ℕ → Extent → Run Extent
ldlm_extent_internal_policy_waiting fuel locks req queue new_ex =
    let (done, limited, conflicting) = waiting_loop locks req queue new_ex 0 in
    if done
    then ok limited
    else ldlm_extent_internal_policy_fixup fuel (locks req).req_mode (locks req).req_extent limited
        conflicting

abbrev pub whole_file : Extent
whole_file = record { start = 0; end = obd_object_eof }

-- Whether `LDLM_FL_LOCK_CHANGED` is set, and the extent that the lock has then.
pub ldlm_extent_policy : ℕ → Resource → ℕ → Run (Bool × Extent)
ldlm_extent_policy fuel res req =
    let lock = res.locks req in
    if same_export lock.export none
    then ok (false, lock.extent)
    else if same_extent lock.extent whole_file
    then ok (false, lock.extent)
    else (do
      granted ←
          ldlm_extent_internal_policy_granted fuel lock.req_mode lock.req_extent res.trees
            whole_file
      new_ex ← ldlm_extent_internal_policy_waiting fuel res.locks req res.waiting granted
      ok (not (same_extent new_ex lock.extent), new_ex))
