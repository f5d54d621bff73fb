-- ===== src/Kernel/Clash.antt =====
-- Results that cannot be equal, cases and an inversion.
use linux_device_driver.Common.{ℕ, ◌≡◌, ◌⊎◌, inl, inr, refl, true, false, none, some}
use linux_device_driver.Kernel.{Errno, ok, err, Outcome, done, oops, ◌>>=◌}

pub ok_injective : {a b : ℕ} → ok a ≡ ok b → a ≡ b
ok_injective e = cc

pub none-ne-some {ℓ} : {A : Type ℓ} (v : A) → none ≡ some v → ⊥
none-ne-some v h = cc

pub true-ne-false : true ≡ false → ⊥
true-ne-false h = cc

pub ok-ne-err : {a : ℕ} {e : Errno} → ok a ≡ err e → ⊥
ok-ne-err h = cc

pub some_injective {ℓ} : {A : Type ℓ} {a b : A} → some a ≡ some b → a ≡ b
some_injective e = cc

pub done_injective {ℓ} : {A : Type ℓ} {a b : A} → done a ≡ done b → a ≡ b
done_injective e = cc

pub oops-ne-done {ℓ} : {A : Type ℓ} {a : A} → oops ≡ done a → ⊥
oops-ne-done h = cc

-- A sequence that is defined went through its first half.
pub bind-done {ℓ κ} :
    {A : Type ℓ} {B : Type κ} (o : Outcome A) (f : A → Outcome B) {b : B}
    → o >>= f ≡ done b
    → (a : A) × (o ≡ done a) × (f a ≡ done b)
bind-done (done a) f e = (a, refl, e)
bind-done oops f e = absurd (oops-ne-done e)

pub Outcome-cases {ℓ} : {A : Type ℓ} (o : Outcome A) → (o ≡ oops) ⊎ ((a : A) × (o ≡ done a))
Outcome-cases oops = inl refl
Outcome-cases (done a) = inr (a, refl)
