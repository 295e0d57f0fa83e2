-- ===== src/Stripe/Lov.antt =====
-- lustre/lov.cpp, with `Layout` and the objects of lustre/event.h and `OSC::Create` of
-- lustre/osc.cpp: the logical object volume, which spreads a file's reads and writes over the
-- objects that it has on the object storage targets. What a target's device returns for a
-- sub-request is the argument `submit`.
pub mod Objects
pub mod Pieces
pub mod Placement
mod Tests
use Prim.Native.Nat.{min}
use lustre_simulator.Base.{
  ℕ, zero, suc, ◌+◌, ◌-◌, ◌*◌, ◌/◌, ◌%◌, ◌^◌, Bool, true, false, ◌&&◌, ◌||◌, not, List, [], ◌∷◌,
  ◌++◌, Option, none, some, ltb, leb, ◌==◌, if◌then◌else◌, get_elem?, length,
}
use lustre_simulator.Base.Run.{Run, ok, fault, out_of_fuel, ◌>>=◌, ◌>>◌, assert, or_fault}
use lustre_simulator.Base.Words.{u64}
use lustre_simulator.Stripe.Raid0.{do_div}

pub record Layout : Type 0 where
  pub stripe_size : ℕ
  pub stripe_count : ℕ
  pub stripe_pattern : ℕ

pub record ChunkObject : Type 0 where
  pub id : ℕ
  pub ost_idx : ℕ
  pub ost_gen : ℕ
  pub kms : ℕ

pub record FileObject : Type 0 where
  pub id : ℕ
  pub has_layout : Bool
  pub cobj : List ChunkObject
  pub layout : Layout

pub record Lov : Type 0 where
  pub num : ℕ
  pub layout : Layout

pub record Io : Type 0 where
  pub off : ℕ
  pub count : ℕ
  pub ref : ℕ

-- A sub-request: its stripe, the target that it goes to, and the range of the stripe's object.
pub record SubIo : Type 0 where
  pub idx : ℕ
  pub ost : ℕ
  pub off : ℕ
  pub count : ℕ

pub record RwResult : Type 0 where
  pub rc : ℕ
  pub ref : ℕ
  pub subs : List SubIo

-- A count of 0 is a division by zero; a stripe size of 0 passes by the first test.
pub check : Layout → ℕ → Run Bool
check lyt count =
    if count == 0 then fault else ok (lyt.stripe_size % count == 0 || count % lyt.stripe_size == 0)

pub stripe_offset : Layout → ℕ → Run ℕ
stripe_offset lyt off = do
  (row, stripe_off) ← do_div off (u64 (lyt.stripe_size * lyt.stripe_count))
  ok (u64 (row * lyt.stripe_size + stripe_off))

pub rw_loop : ℕ → (SubIo → ℕ) → Lov → FileObject → ℕ → ℕ → ℕ → ℕ → List SubIo → Run RwResult
rw_loop zero submit lov obj idx off left ref out = out_of_fuel
rw_loop (suc k) submit lov obj idx off left ref out =
    let count = min left obj.layout.stripe_size in
    let next = λ (sub : SubIo).
      rw_loop k submit lov obj ((idx + 1) % obj.layout.stripe_count) (u64 (off + count))
        (left - count) (ref + 1) (out ++ sub ∷ []) in
    let round : Run RwResult = do
      sobj ← or_fault (get_elem? obj.cobj idx)
      at ← stripe_offset obj.layout off
      assert (ltb sobj.ost_idx lov.num)
      let sub : SubIo = record { idx = idx; ost = sobj.ost_idx; off = at; count = count }
      if submit sub == 0
          then next sub
          else ok (record { rc = submit sub; ref = ref + 1; subs = out ++ sub ∷ [] })
    in if left == 0 then ok (record { rc = 0; ref = ref; subs = out }) else round

-- Each round takes a byte at least, so the count bounds the rounds.
pub read_write : (SubIo → ℕ) → Lov → FileObject → Io → Run RwResult
read_write submit lov obj io = do
  fits ← check obj.layout io.count
  assert fits
  (stripe, _) ← do_div io.off obj.layout.stripe_size
  assert (not (obj.layout.stripe_count == 0))
  rw_loop (io.count + 1) submit lov obj (stripe % obj.layout.stripe_count) io.off io.count io.ref []

-- `OSC::Create` on the device number `start`.
pub osc_create : ℕ → ℕ → ChunkObject
osc_create oid start = record { id = oid; ost_idx = start; ost_gen = 0; kms = 0 }

pub create_loop : ℕ → ℕ → ℕ → ℕ → Run (List ChunkObject)
create_loop zero num oid start = ok []
create_loop (suc k) num oid start = do
  assert (ltb start num)
  rest ← create_loop k num oid ((start + 1) % num)
  ok (osc_create oid start ∷ rest)

-- `fpp` says that every process has its own file (`ACM_FPP`); `wanted` is `params.io.StripeCount`.
pub create : Bool → ℕ → ℕ → Lov → FileObject → Run FileObject
create fpp wanted nid lov file = do
  assert (leb wanted lov.num)
  let layout = if file.has_layout then file.layout else lov.layout
  let oid = if fpp then nid else 0
  assert (not (lov.num == 0))
  cobj ← create_loop layout.stripe_count lov.num oid (nid % lov.num)
  ok (record file { id = oid; cobj = cobj; layout = layout })

-- `a ? : b`
pub or_else : ℕ → ℕ → ℕ
or_else a b = if a == 0 then b else a

-- `Setup`, with the configured pattern, stripe size and stripe count.
pub setup : ℕ → ℕ → ℕ → Lov → Run Lov
setup pattern size count lov = do
  assert (ltb 0 lov.num)
  let layout : Layout = record {
    stripe_size = or_else size 1048576;
    stripe_count = or_else (or_else count (lov.num - 1)) 1;
    stripe_pattern = pattern;
  }
  ok (record lov { layout = layout })
