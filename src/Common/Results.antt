-- ===== src/Common/Results.antt =====
-- What a step that succeeded has passed.
use mathlib.Core.Path.{◌≡◌, refl, subst}
use mathlib.Core.Bool.{Bool, true, false}
use mathlib.Core.Option.{Option, none, some}
use xmesh.Common.Tests.{Result, ok, err, ◌>>=◌, ◌>>◌, refuse_if, or_fail, if◌then◌else◌}

module _ {ℓ κ} {E : Type κ} {A : Type ℓ} where
  pub ok-injective : (a b : A) → ◌≡◌ {A = Result E A} (ok a) (ok b) → a ≡ b
  ok-injective a b h = cc

  pub err-ok : (e : E) (a : A) → ◌≡◌ {A = Result E A} (err e) (ok a) → ⊥
  err-ok e a h = cc

-- What holds of the value, if there is one.
module _ {ℓ κ μ} {E : Type κ} {A : Type ℓ} where
  abbrev pub Holds : (A → Type μ) → Result E A → Type μ
  Holds P (err e) = Unit
  Holds P (ok a) = P a

  pub Holds-ok : (P : A → Type μ) (r : Result E A) (a : A) → Holds P r → r ≡ ok a → P a
  Holds-ok P r a h e = subst (Holds P) e h

  pub refuse_if-Holds :
      (P : A → Type μ) (b : Bool) (e : E) (k : Result E A)
      → (b ≡ false → Holds P k)
      → Holds P (refuse_if b e >> k)
  refuse_if-Holds P true e k h = tt
  refuse_if-Holds P false e k h = h refl

pub or_fail-Holds {ℓ κ μ ν} :
    {E : Type κ} {A : Type ℓ} {B : Type ν} (P : B → Type μ) (o : Option A) (e : E)
    (f : A → Result E B)
    → ((a : A) → o ≡ some a → Holds P (f a))
    → Holds P (or_fail o e >>= f)
or_fail-Holds P none e f h = tt
or_fail-Holds P (some a) e f h = h a refl

pub if_holds {ℓ κ} :
    {A : Type ℓ} (P : A → Type κ) (b : Bool) (x y : A)
    → (b ≡ true → P x)
    → (b ≡ false → P y)
    → P (if b then x else y)
if_holds P true x y h k = h refl
if_holds P false x y h k = k refl

-- A check that gives no value, before the result.
pub after_Holds {ℓ κ μ} :
    {E : Type κ} {B : Type ℓ} (P : B → Type μ) (check : Result E (Unit {0})) (k : Result E B)
    → Holds P k
    → Holds P (check >> k)
after_Holds P (err e) k h = tt
after_Holds P (ok a) k h = h

-- A step, and what the next makes of a value for which the first's property holds.
pub bind-Holds {ℓ κ μ ν ρ} :
    {E : Type κ} {A : Type ℓ} {B : Type ν} (Q : A → Type ρ) (P : B → Type μ) (m : Result E A)
    (f : A → Result E B)
    → Holds Q m
    → ((a : A) → Q a → Holds P (f a))
    → Holds P (m >>= f)
bind-Holds Q P (err e) f q h = tt
bind-Holds Q P (ok a) f q h = h a q
