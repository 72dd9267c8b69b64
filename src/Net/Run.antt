-- ===== src/Net/Run.antt =====
-- What a call of the stack comes to: a result, a write past the end of a buffer on the C stack, or
-- work that goes on when the fuel is used up.
pub data Run {ℓ} (A : Type ℓ) : Type ℓ where
  done : A → Run A
  overrun : Run A
  unfinished : Run A

infixl 5 ◌>>=◌
abbrev pub ◌>>=◌ {ℓ κ} : {A : Type ℓ} {B : Type κ} → Run A → (A → Run B) → Run B
done a >>= f = f a
overrun >>= f = overrun
unfinished >>= f = unfinished
