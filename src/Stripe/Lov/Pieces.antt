-- ===== src/Stripe/Lov/Pieces.antt =====
-- The pieces that `LOV::ReadWrite` cuts a request into.
use Prim.Native.Nat.{min}
use native.Mathlib.Nat.{mod-lt, mod-add-mod, add-mod_right, add-div_right}
use mathlib.Core.List.{append-nil, append_assoc}
use lustre_simulator.Stripe.Raid0.Layout.{do_div_lem}
use lustre_simulator.Base.{
  not, ℕ, zero, suc, ◌+◌, ◌-◌, ◌/◌, ◌%◌, ◌^◌, ◌≤◌, ◌<◌, ◌≡◌, refl, sym, ap, ◌∙◌, List, [], ◌∷◌,
  ◌++◌, some, arith, ltb, ◌==◌, get_elem?, length, true,
}
use lustre_simulator.Base.Run.{ok, Ends, ends, Ends-map, Ends-if}
use lustre_simulator.Base.Words.{u64_id}
use lustre_simulator.Stripe.Lov.{
  Layout, ChunkObject, FileObject, Lov, Io, SubIo, check, rw_loop, read_write,
}
use lustre_simulator.Stripe.Lov.Placement.{IsLayout, stripe_of, object_offset, stripe_offset_lem}

-- The pieces follow one another from `x` on and hold `left` bytes; each stays inside a stripe,
-- goes to the target of its first byte's stripe, at that byte's address.
abbrev pub Covers : FileObject → ℕ → ℕ → List SubIo → Type 0
Covers obj x left [] = left ≡ 0
Covers obj x left (sub ∷ subs) =
    (0 < sub.count)
    × (x % obj.layout.stripe_size + sub.count ≤ obj.layout.stripe_size)
    × (sub.count ≤ left)
    × (sub.idx ≡ stripe_of obj.layout x)
    × (sub.off ≡ object_offset obj.layout x)
    × ((o : ChunkObject) × (get_elem? obj.cobj sub.idx ≡ some o) × (o.ost_idx ≡ sub.ost))
    × Covers obj (x + sub.count) (left - sub.count) subs

-- A file whose objects exist, one for each stripe, on targets that the volume has.
pub record IsReady (lov : Lov) (obj : FileObject) : Type 0 where
  pub layout : IsLayout obj.layout
  pub placed :
      (i : ℕ)
      → i < obj.layout.stripe_count
      → (o : ChunkObject) × (get_elem? obj.cobj i ≡ some o) × (o.ost_idx < lov.num)

next_stripe :
    (lyt : Layout) (idx x left : ℕ)
    → IsLayout lyt
    → x % lyt.stripe_size ≡ 0
    → idx ≡ stripe_of lyt x
    → 0 < left - min left lyt.stripe_size
    → ((x + min left lyt.stripe_size) % lyt.stripe_size ≡ 0)
      × ((idx + 1) % lyt.stripe_count ≡ stripe_of lyt (x + min left lyt.stripe_size))
next_stripe lyt idx x left v al stripe rest =
    let s = lyt.stripe_size in
    let pos = v.sized in
    let full : min left s ≡ s = omega arith in
    rw (full, stripe)
      (
        add-mod_right x s ∙ al,
        mod-add-mod (x / s) lyt.stripe_count 1
            ∙ ap (λ (t : ℕ). t % lyt.stripe_count) (sym (add-div_right x pos)),
      )

module _ (lov : Lov) (obj : FileObject) (ready : IsReady lov obj) (submit : SubIo → ℕ)
    (accepts : (sub : SubIo) → submit sub ≡ 0) where
  abbrev size : ℕ
  size = obj.layout.stripe_size

  rw_loop-Covers :
      (k idx x left ref : ℕ) (out : List SubIo)
      → left < k
      → x + left < 2 ^ 64
      → (0 < left → (x % size ≡ 0) × (idx ≡ stripe_of obj.layout x))
      → Ends
          (λ r.
            (subs : List SubIo) × (r.subs ≡ out ++ subs)
            × (r.rc ≡ 0)
            × (r.ref ≡ ref + length subs)
            × Covers obj x left subs)
          (rw_loop k submit lov obj idx x left ref out)
  unfolding rw_loop
  rw_loop-Covers zero idx x left ref out f fits al = absurd (omega arith)
  rw_loop-Covers (suc k) idx x left ref out f fits al =
      Ends-if (left == 0) (λ e. ends ([], sym (append-nil out), refl, omega arith, ground arith))
        λ more.
          let some_left : 0 < left = ground arith in
          let (al', stripe) = al some_left in
          let s = obj.layout.stripe_size in
          let pos = ready.layout.sized in
          let (o, at, there) = ready.placed idx (rw stripe (mod-lt (x / s) ready.layout.striped)) in
          let pass : ltb o.ost_idx lov.num ≡ true = ground arith in
          let n = min left s in
          let sub : SubIo = record {
            idx = idx;
            ost = o.ost_idx;
            off = object_offset obj.layout x;
            count = n;
          } in
          rw
            (
              at,
              stripe_offset_lem obj.layout x ready.layout (omega arith),
              pass,
              accepts sub,
              u64_id (x + n) (omega arith),
            )
            (Ends-map
              (rw_loop-Covers k ((idx + 1) % obj.layout.stripe_count) (x + n) (left - n) (ref + 1)
                (out ++ sub ∷ []) (omega arith) (omega arith)
                (next_stripe obj.layout idx x left ready.layout al' stripe))
              λ r (subs, app, rc, counted, cov). (
                sub ∷ subs,
                app ∙ append_assoc out (sub ∷ []) subs,
                rc,
                omega arith,
                (omega arith, omega arith, omega arith, stripe, refl, (o, at, refl), cov),
              ))

-- Where the targets' devices accept every sub-request, a request at a stripe's start with a count
-- that the layout allows returns 0, is counted once for each piece, and its pieces cover it.
pub read_write-Covers :
    (lov : Lov) (obj : FileObject) (io : Io) (submit : SubIo → ℕ)
    → IsReady lov obj
    → ((sub : SubIo) → submit sub ≡ 0)
    → io.off % obj.layout.stripe_size ≡ 0
    → io.off + io.count < 2 ^ 64
    → check obj.layout io.count ≡ ok true
    → Ends
        (λ r. (r.rc ≡ 0) × (r.ref ≡ io.ref + length r.subs) × Covers obj io.off io.count r.subs)
        (read_write submit lov obj io)
unfolding read_write
read_write-Covers lov obj io submit ready accepts al fits checked =
    let striped : not (obj.layout.stripe_count == 0) ≡ true =
      ground (arith, ready.layout.striped) in
    rw (checked, do_div_lem io.off obj.layout.stripe_size ready.layout.sized, striped)
      (Ends-map
        (rw_loop-Covers lov obj ready submit accepts (io.count + 1) _ io.off io.count io.ref []
          (omega arith) fits (λ _. (al, refl)))
        λ r (subs, same, rc, counted, cov). rw same (rc, counted, cov))
