-- ===== src/Stripe/Lov/Objects.antt =====
-- The objects that `LOV::Create` makes, and the default layout of `LOV::Setup`.
use native.Mathlib.Nat.{mod-lt, mod-add-mod, div-add-mod'}
use native.Mathlib.Decide.{dec_lt}
use lustre_simulator.Base.{
  ℕ, zero, suc, ◌+◌, ◌*◌, ◌/◌, ◌%◌, ◌≤◌, ◌<◌, ◌≡◌, ◌≢◌, refl, sym, ap, ◌∙◌, Bool, true, not, List,
  ◌∷◌, Option, none, some, arith, ltb, leb, ◌==◌, if◌then◌else◌, length, get_elem?,
}
use lustre_simulator.Base.Run.{Ends, ends, Ends-bind, Ends-map}
use lustre_simulator.Stripe.Lov.{ChunkObject, FileObject, Lov, osc_create, create_loop, create}

abbrev ost_of : Option ChunkObject → ℕ
ost_of none = 0
ost_of (some c) = c.ost_idx

-- The objects of a file, from the target `start` on.
abbrev IsRoundRobin : ℕ → ℕ → ℕ → ℕ → List ChunkObject → Type 0
IsRoundRobin k num oid start cobj =
    (length cobj ≡ k)
    × ((i : ℕ) → i < k → get_elem? cobj i ≡ some (osc_create oid ((start + i) % num)))

create_loop_places :
    (k num oid start : ℕ)
    → start < num
    → Ends (IsRoundRobin k num oid start) (create_loop k num oid start)
unfolding create_loop
create_loop_places zero num oid start h = ends (refl, λ i p. absurd (omega arith))
create_loop_places (suc k) num oid start h =
    let pass : ltb start num ≡ true = ground arith in
    rw pass (
      Ends-bind
        (create_loop_places k num oid ((start + 1) % num) (mod-lt (start + 1) (omega arith)))
        λ rest e. ends (ap suc e.0, places rest e.1))
  where
    places :
        (rest : List ChunkObject)
        → ((i : ℕ)
            → i < k
            → get_elem? rest i ≡ some (osc_create oid (((start + 1) % num + i) % num)))
        → (i : ℕ) → i < suc k
        → get_elem? (osc_create oid start ∷ rest) i ≡ some (osc_create oid ((start + i) % num))
    places rest e zero p =
        let at : (start + 0) % num ≡ start = grind arith in
        ap (λ (t : ℕ). some (osc_create oid t)) (sym at)
    places rest e (suc i) p =
        e i (omega arith)
        ∙ ap (λ (t : ℕ). some (osc_create oid t))
            (mod-add-mod (start + 1) num i ∙ ap (λ (t : ℕ). t % num) (omega arith))

-- `Create` gives the file the layout that it has, or the volume's, and to its stripe `i` an object on
-- the target `(nid + i) mod num`; no assertion fails where the stripe count asked is at most the
-- number of targets.
pub create_places :
    (fpp : Bool) (wanted nid : ℕ) (lov : Lov) (file : FileObject)
    → 0 < lov.num
    → wanted ≤ lov.num
    → Ends
        (λ made.
          let lyt = if file.has_layout then file.layout else lov.layout in
          (made.layout ≡ lyt)
          × (length made.cobj ≡ lyt.stripe_count)
          × ((i : ℕ)
              → i < lyt.stripe_count
              → get_elem? made.cobj i
                ≡ some (osc_create (if fpp then nid else 0) ((nid + i) % lov.num))))
        (create fpp wanted nid lov file)
unfolding create
create_places fpp wanted nid lov file pos h =
    let enough : leb wanted lov.num ≡ true = ground arith in
    let some_num : not (lov.num == 0) ≡ true = ground arith in
    let lyt = if file.has_layout then file.layout else lov.layout in
    rw (enough, some_num)
      (Ends-bind
        (create_loop_places lyt.stripe_count lov.num (if fpp then nid else 0) (nid % lov.num)
          (mod-lt nid pos))
        λ cobj e. ends (
          refl,
          e.0,
          λ i p.
              e.1 i p
              ∙ ap (λ (t : ℕ). some (osc_create (if fpp then nid else 0) t))
                  (mod-add-mod nid lov.num i),
        ))

targets_distinct : (nid num i j : ℕ) → i < j → j < num → (nid + i) % num ≢ (nid + j) % num
targets_distinct nid num i j h k e =
    let q = (nid + i) / num in
    let q' = (nid + j) / num in
    let a : q * num + (nid + i) % num ≡ nid + i = div-add-mod' (nid + i) num in
    let b : q' * num + (nid + j) % num ≡ nid + j = div-add-mod' (nid + j) num in
    elim (dec_lt q q') [
      | yes lt ↦ let step : q * num + num ≤ q' * num = grind arith in omega arith
      | no ge ↦ let step : q' * num ≤ q * num = grind arith in omega arith
    ]

-- A file that has at most as many stripes as there are targets has no two stripes on one target.
pub create_distinct :
    (fpp : Bool) (wanted nid : ℕ) (lov : Lov) (file : FileObject)
    → 0 < lov.num
    → wanted ≤ lov.num
    → (if file.has_layout then file.layout else lov.layout).stripe_count ≤ lov.num
    → Ends
        (λ made.
          (i j : ℕ) (a b : ChunkObject)
          → i < j
          → j < length made.cobj
          → get_elem? made.cobj i ≡ some a
          → get_elem? made.cobj j ≡ some b
          → a.ost_idx ≢ b.ost_idx)
        (create fpp wanted nid lov file)
unfolding osc_create
create_distinct fpp wanted nid lov file pos h few =
    Ends-map (create_places fpp wanted nid lov file pos h) λ made e i j a b ij jl ea eb same.
      targets_distinct nid lov.num i j ij (omega (arith, e.1)) (
        sym (target (e.2 i (omega (arith, e.1))) ea)
        ∙ same
        ∙ target (e.2 j (omega (arith, e.1))) eb)
  where
    target :
        {o : Option ChunkObject} {t : ℕ} {c : ChunkObject}
        → o ≡ some (osc_create (if fpp then nid else 0) t)
        → o ≡ some c
        → c.ost_idx ≡ t
    target p q = sym (ap ost_of (sym p ∙ q))
