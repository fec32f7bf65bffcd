-- ===== src/Prelude/Outcome.antt =====
-- The outcome of a Go call: a value, or a run-time panic. `stuck` is no outcome of the program: a
-- loop of the model ran out of fuel.

pub data Go {ℓ} (A : Type ℓ) : Type ℓ where
  ok : A → Go A
  panic : Go A
  stuck : Go A

infixl 5 ◌>>=◌
abbrev pub ◌>>=◌ {ℓ κ} : {A : Type ℓ} {B : Type κ} → Go A → (A → Go B) → Go B
ok a >>= f = f a
panic >>= f = panic
stuck >>= f = stuck
