-- ===== src/Base/Run.antt =====
-- How a call of the program ends: it returns a value, it stops at a failed assertion, a division
-- by zero or a null pointer, or the fuel of the model has run out.
use mathlib.Core.Path.{◌≡◌, refl, ap, subst}
use mathlib.Core.Option.{Option, none, some}
use mathlib.Core.Bool.{Bool, true, false}
use lustre_simulator.Base.Tests.{if◌then◌else◌}

pub data Run {ℓ} (A : Type ℓ) : Type ℓ where
  fault out_of_fuel : Run A
  ok : A → Run A

infixl 5 ◌>>=◌ ◌>>◌
abbrev pub ◌>>=◌ {ℓ κ} : {A : Type ℓ} {B : Type κ} → Run A → (A → Run B) → Run B
fault >>= next = fault
out_of_fuel >>= next = out_of_fuel
ok result >>= next = next result

abbrev pub ◌>>◌ {ℓ} : {B : Type ℓ} → Run (Unit {0}) → Run B → Run B
m >> k = m >>= λ _. k

-- `assert` and `LASSERT`: the program stops where the condition fails.
abbrev pub assert : Bool → Run (Unit {0})
assert true = ok tt
assert false = fault

-- A null pointer, or an index out of range, that is followed.
abbrev pub or_fault {ℓ} : {A : Type ℓ} → Option A → Run A
or_fault none = fault
or_fault (some a) = ok a

-- The call comes to its end, and what it returns is as `Post` says.
pub data Ends {ℓ κ} {A : Type ℓ} (Post : A → Type κ) : Run A → Type (ℓ ⊔ κ) where
  ends : {result : A} → Post result → Ends Post (ok result)

pub Ends-eq {ℓ} : {A : Type ℓ} {x : A} {run : Run A} → Ends (λ y. y ≡ x) run → run ≡ ok x
Ends-eq (ends same) = ap ok same

-- Either branch of a test ends as it should.
pub Ends-if {ℓ κ} :
    {A : Type ℓ} {Post : A → Type κ} {yes no : Run A} (test : Bool)
    → (test ≡ true → Ends Post yes)
    → (test ≡ false → Ends Post no)
    → Ends Post (if test then yes else no)
Ends-if false on_yes on_no = on_no refl
Ends-if true on_yes on_no = on_yes refl

module _ {ℓ κ μ} {A : Type ℓ} {Mid : A → Type κ} where
  pub Ends-map :
      {Post : A → Type μ} {run : Run A} → Ends Mid run → ((x : A) → Mid x → Post x) → Ends Post run
  Ends-map (ends mid) weaken = ends (weaken _ mid)

  pub Ends-bind {ν} :
      {B : Type μ} {Post : B → Type ν} {run : Run A} {next : A → Run B}
      → Ends Mid run
      → ((x : A) → Mid x → Ends Post (next x))
      → Ends Post (run >>= next)
  Ends-bind (ends mid) continue = continue _ mid

pub assert-Ends : (test : Bool) → test ≡ true → Ends (λ _. Unit {0}) (assert test)
assert-Ends false h = cc
assert-Ends true h = ends tt

pub or_fault-Ends {ℓ} :
    {A : Type ℓ} {x : A} (found : Option A) → found ≡ some x → Ends (λ y. y ≡ x) (or_fault found)
or_fault-Ends none h = cc
or_fault-Ends (some y) h = ends (cc)

pub Ends-value {ℓ κ} :
    {A : Type ℓ} {Post : A → Type κ} {run : Run A} → Ends Post run → (x : A) → run ≡ ok x → Post x
Ends-value {Post = Post} (ends post) x h = subst Post (cc) post

pub ok-Ends {ℓ} : {A : Type ℓ} {x : A} (run : Run A) → run ≡ ok x → Ends (λ y. y ≡ x) run
ok-Ends fault h = cc
ok-Ends out_of_fuel h = cc
ok-Ends (ok y) h = ends (cc)
