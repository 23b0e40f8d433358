-- ===== src/Prelude/Result.antt =====
-- Rust's `Result`, with the bind of the `?` operator.
use mathlib.Core.Path.{◌≡◌, refl, ap}
use mathlib.Core.Logic.{◌≢◌}
use mathlib.Core.Bool.{Bool, true, false, false≢true}

pub data Result {ℓ κ} (E : Type ℓ) (A : Type κ) : Type (ℓ ⊔ κ) where
  ok : A → Result E A
  err : E → Result E A

abbrev is_ok {ℓ κ} : {E : Type ℓ} {A : Type κ} → Result E A → Bool
is_ok (ok a) = true
is_ok (err e) = false

pub err-ne-ok {ℓ κ} : {E : Type ℓ} {A : Type κ} (e : E) (a : A) → err e ≢ ok a
err-ne-ok e a p = false≢true (ap is_ok p)

abbrev of_ok {ℓ κ} : {E : Type ℓ} {A : Type κ} → A → Result E A → A
of_ok d (ok a) = a
of_ok d (err e) = d

pub ok-injective {ℓ κ} :
    {E : Type ℓ} {A : Type κ} (a b : A) → ◌≡◌ {A = Result E A} (ok a) (ok b) → a ≡ b
ok-injective a b p = ap (λ r. of_ok a r) p

infixl 5 ◌>>=◌
abbrev pub ◌>>=◌ {ℓ κ μ} :
    {E : Type ℓ} {A : Type κ} {B : Type μ} → Result E A → (A → Result E B) → Result E B
ok a >>= f = f a
err e >>= f = err e

-- A chain ends well only if its first part does.
pub bind-ok {ℓ κ μ} :
    {E : Type ℓ} {A : Type κ} {B : Type μ} (r : Result E A) (f : A → Result E B) (b : B)
    → (r >>= f) ≡ ok b
    → (a : A) × ((r ≡ ok a) × (f a ≡ ok b))
bind-ok (ok a) f b e = (a, (refl, e))
bind-ok (err x) f b e = absurd (err-ne-ok x b e)
