-- ===== src/Common/Results.antt =====
-- The outcome of fallible code: Rust's `Result`, with the two ways a call may not return.
use mathlib.Core.Path.{◌≡◌, refl, subst}
use mathlib.Core.Logic.{◌≢◌}
use mathlib.Core.Bool.{Bool, true, false}
use mathlib.Core.Option.{Option, none, some}
use thanos_datafusion_experi.Common.Tests.{if◌then◌else◌}

-- `ok` and `err` are Rust's. `panicked` is a panic of the thread, and `stuck` marks a loop of the
-- model that has used up its fuel.
pub data Outcome {ℓ κ} (E : Type ℓ) (A : Type κ) : Type (ℓ ⊔ κ) where
  ok : A → Outcome E A
  err : E → Outcome E A
  panicked : Outcome E A
  stuck : Outcome E A

infixl 5 ◌>>=◌ ◌>>◌
abbrev pub ◌>>=◌ {ℓ κ μ} :
    {E : Type ℓ} {A : Type κ} {B : Type μ} → Outcome E A → (A → Outcome E B) → Outcome E B
stuck >>= next = stuck
panicked >>= next = panicked
err fault >>= next = err fault
ok found >>= next = next found

abbrev pub ◌>>◌ {ℓ κ} : {E : Type ℓ} {B : Type κ} → Outcome E (Unit {0}) → Outcome E B → Outcome E B
first >> next = first >>= λ _. next

-- `if !test { return Err(e) }`
abbrev pub ensure {ℓ} : {E : Type ℓ} → Bool → E → Outcome E (Unit {0})
ensure true e = ok tt
ensure false e = err e

-- `option.ok_or_else(|| e)?`
abbrev pub ok_or {ℓ κ} : {E : Type ℓ} {A : Type κ} → Option A → E → Outcome E A
ok_or none e = err e
ok_or (some a) e = ok a

-- An index, a slice or a capacity that is out of range.
abbrev pub or_panic {ℓ κ} : {E : Type ℓ} {A : Type κ} → Option A → Outcome E A
or_panic none = panicked
or_panic (some a) = ok a

-- A run of two steps that has a value went through both.
pub >>=-eq-ok {ℓ κ μ} :
    {E : Type ℓ} {A : Type κ} {B : Type μ} (first : Outcome E A) (next : A → Outcome E B)
    {result : B}
    → (first >>= next) ≡ ok result
    → (found : A) × (first ≡ ok found) × (next found ≡ ok result)
>>=-eq-ok (ok found) next whole = (found, refl, whole)
>>=-eq-ok panicked next whole = cc
>>=-eq-ok stuck next whole = cc
>>=-eq-ok (err fault) next whole = cc

-- The call ends: with a value, with an error, or with a panic where `P` allows one.
pub data Ends {ℓ κ} {E : Type ℓ} {A : Type κ} (P : Type 0) : Outcome E A → Type (ℓ ⊔ κ) where
  returned : {a : A} → Ends P (ok a)
  refused : {e : E} → Ends P (err e)
  fell : P → Ends P panicked

-- It comes back, with a value or an error.
abbrev pub Returns {ℓ κ} : {E : Type ℓ} {A : Type κ} → Outcome E A → Type (ℓ ⊔ κ)
Returns r = Ends ⊥ r

module _ {ℓ κ} {E : Type ℓ} {A : Type κ} {P : Type 0} where
  pub Ends-bind {μ} :
      {B : Type μ} {r : Outcome E A} {f : A → Outcome E B}
      → Ends P r
      → ((a : A) → r ≡ ok a → Ends P (f a))
      → Ends P (r >>= f)
  Ends-bind (returned {a}) k = k a refl
  Ends-bind refused k = refused
  Ends-bind (fell p) k = fell p

  pub Ends-ne-stuck : {r : Outcome E A} → Ends P r → r ≢ stuck
  Ends-ne-stuck returned e = cc
  Ends-ne-stuck refused e = cc
  Ends-ne-stuck (fell p) e = cc

  pub Ends-mono : {Q : Type 0} {r : Outcome E A} → (P → Q) → Ends P r → Ends Q r
  Ends-mono k returned = returned
  Ends-mono k refused = refused
  Ends-mono k (fell p) = fell (k p)

  pub Ends-ok_or : (o : Option A) (e : E) → Ends P (ok_or o e)
  Ends-ok_or none e = refused
  Ends-ok_or (some a) e = returned

  pub Ends-or_panic : (o : Option A) → (o ≡ none → P) → Ends {E = E} P (or_panic o)
  Ends-or_panic none k = fell (k refl)
  Ends-or_panic (some a) k = returned

pub Ends-ensure {ℓ} : {E : Type ℓ} {P : Type 0} (b : Bool) (e : E) → Ends P (ensure b e)
Ends-ensure true e = returned
Ends-ensure false e = refused

pub Ends-if {ℓ κ} :
    {E : Type ℓ} {A : Type κ} {P : Type 0} (b : Bool) {x y : Outcome E A}
    → Ends P x
    → Ends P y
    → Ends P (if b then x else y)
Ends-if true h k = h
Ends-if false h k = k

-- `P` holds of the value, if the run has one.
pub data Ensures {ℓ κ μ} {E : Type ℓ} {A : Type κ} (P : A → Type μ)
    : Outcome E A → Type (ℓ ⊔ κ ⊔ μ) where
  holds : {a : A} → P a → Ensures P (ok a)
  rejected : {e : E} → Ensures P (err e)
  crashed : Ensures P panicked
  unfinished : Ensures P stuck

module _ {ℓ κ μ} {E : Type ℓ} {A : Type κ} {P : A → Type μ} where
  pub Ensures-eq-ok : {r : Outcome E A} {a : A} → Ensures P r → r ≡ ok a → P a
  Ensures-eq-ok (holds h) e = subst P (cc) h
  Ensures-eq-ok rejected e = cc
  Ensures-eq-ok crashed e = cc
  Ensures-eq-ok unfinished e = cc

  pub Ensures-mono {μ'} :
      {Q : A → Type μ'} {r : Outcome E A} → ((a : A) → P a → Q a) → Ensures P r → Ensures Q r
  Ensures-mono k (holds {a} h) = holds (k a h)
  Ensures-mono k rejected = rejected
  Ensures-mono k crashed = crashed
  Ensures-mono k unfinished = unfinished

  pub Ensures-bind {κ' μ'} :
      {B : Type κ'} {Q : B → Type μ'} {r : Outcome E A} {f : A → Outcome E B}
      → Ensures P r
      → ((a : A) → P a → Ensures Q (f a))
      → Ensures Q (r >>= f)
  Ensures-bind (holds {a} h) k = k a h
  Ensures-bind rejected k = rejected
  Ensures-bind crashed k = crashed
  Ensures-bind unfinished k = unfinished

module _ {ℓ κ μ} {E : Type ℓ} {A : Type κ} (P : A → Type μ) where
  pub Ensures-of : (r : Outcome E A) → ((a : A) → r ≡ ok a → P a) → Ensures P r
  Ensures-of (ok a) h = holds (h a refl)
  Ensures-of (err e) h = rejected
  Ensures-of panicked h = crashed
  Ensures-of stuck h = unfinished

  pub Ensures-ok_or : (o : Option A) (e : E) → ((a : A) → o ≡ some a → P a) → Ensures P (ok_or o e)
  Ensures-ok_or none e h = rejected
  Ensures-ok_or (some a) e h = holds (h a refl)

pub Ensures-ensure {ℓ κ} :
    {E : Type ℓ} {P : Type κ} (b : Bool) (e : E)
    → (b ≡ true → P)
    → Ensures {E = E} (λ _. P) (ensure b e)
Ensures-ensure true e h = holds (h refl)
Ensures-ensure false e h = rejected

pub Ensures-if {ℓ κ μ} :
    {E : Type ℓ} {A : Type κ} {P : A → Type μ} (b : Bool) {x y : Outcome E A}
    → Ensures P x
    → Ensures P y
    → Ensures P (if b then x else y)
Ensures-if true h k = h
Ensures-if false h k = k

-- To split on a computed outcome and keep the equation.
pub data View {ℓ κ} {E : Type ℓ} {A : Type κ} (r : Outcome E A) : Type (ℓ ⊔ κ) where
  is_ok : (a : A) → r ≡ ok a → View r
  is_err : (e : E) → r ≡ err e → View r
  is_panicked : r ≡ panicked → View r
  is_stuck : r ≡ stuck → View r

pub view {ℓ κ} : {E : Type ℓ} {A : Type κ} (r : Outcome E A) → View r
view (ok a) = is_ok a refl
view (err e) = is_err e refl
view panicked = is_panicked refl
view stuck = is_stuck refl
