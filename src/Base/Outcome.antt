-- ===== src/Base/Outcome.antt =====
-- The outcome of kernel code: a value, a failed ASSERT or PANIC (`panic_spin` of kernel/debug.c
-- turns interrupts off and spins), or a loop that used up the fuel that the model gives it.
use mathlib.Core.Bool.{Bool, true, false}

pub data Run {ℓ} (A : Type ℓ) : Type ℓ where
  ok : A → Run A
  panic : Run A
  hang : Run A

infixl 5 ◌>>=◌ ◌>>◌
abbrev pub ◌>>=◌ {ℓ κ} : {A : Type ℓ} {B : Type κ} → Run A → (A → Run B) → Run B
ok a >>= f = f a
panic >>= f = panic
hang >>= f = hang

abbrev pub ◌>>◌ {ℓ} : {B : Type ℓ} → Run (Unit {0}) → Run B → Run B
m >> k = m >>= λ _. k

-- ASSERT of kernel/debug.h, with NODEBUG not defined.
abbrev pub assert : Bool → Run (Unit {0})
assert true = ok tt
assert false = panic
