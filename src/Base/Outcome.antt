-- ===== src/Base/Outcome.antt =====
-- What a Go call comes to where the runtime may panic or a loop may not end.

-- `panic` is a run-time panic: an index or a slice out of range, a call of a nil function, or an
-- explicit `panic`. `stuck` is no Go value: a loop ran out of the fuel that the model gives it.
pub data Result {ℓ} (A : Type ℓ) : Type ℓ where
  ok : A → Result A
  panic : Result A
  stuck : Result A

infixl 5 ◌>>=◌
abbrev pub ◌>>=◌ {ℓ κ} : {A : Type ℓ} {B : Type κ} → Result A → (A → Result B) → Result B
ok a >>= f = f a
panic >>= f = panic
stuck >>= f = stuck
