-- ===== src/Prelude/Results.antt =====
-- `Result<A, E>`, with the case split that keeps its equation, and the signed integers.
use Prim.Native.Nat.{ℕ}
use mathlib.Core.Path.{◌≡◌, refl}
use mathlib.Core.Bool.{Bool, true, false}
use mxdx.Prelude.Tests.{if◌then◌else◌}
use mathlib.Core.Logic.{◌⊎◌, inl, inr}

pub data Result {ℓ κ} (E : Type ℓ) (A : Type κ) : Type (ℓ ⊔ κ) where
  ok : A → Result E A
  err : E → Result E A

pub Result-cases {ℓ κ} :
    {E : Type ℓ} {A : Type κ} (r : Result E A) → ((a : A) × (r ≡ ok a)) ⊎ ((e : E) × (r ≡ err e))
Result-cases (ok a) = inl (a, refl)
Result-cases (err e) = inr (e, refl)

pub ok-injective {ℓ κ} :
    {E : Type ℓ} {A : Type κ} (a b : A) → ◌≡◌ {A = Result E A} (ok a) (ok b) → a ≡ b
ok-injective a b h = cc

-- A check that bails out has passed if the whole succeeds.
pub guard_ok {ℓ κ} :
    {E : Type ℓ} {A : Type κ} (b : Bool) (e : E) (rest : Result E A) (a : A)
    → (if b then err e else rest) ≡ ok a
    → (b ≡ false) × (rest ≡ ok a)
guard_ok true e rest a h = cc
guard_ok false e rest a h = (refl, h)

pub choice_ok {ℓ κ} :
    {E : Type ℓ} {A : Type κ} (b : Bool) (x : A) (e : E) (a : A)
    → (if b then ok x else err e) ≡ ok a
    → (b ≡ true) × (x ≡ a)
choice_ok true x e a h = (refl, ok-injective x a h)
choice_ok false x e a h = cc

-- `negsuc n` is -(n + 1).
pub data ℤ : Type 0 where
  pos : ℕ → ℤ
  negsuc : ℕ → ℤ
