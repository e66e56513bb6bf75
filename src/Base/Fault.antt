-- ===== src/Base/Fault.antt =====
-- Code that can touch freed memory: `none` is a use after free, `do` threads the state on.
use mathlib.Core.Option.{Option, none, some}

infixl 5 ◌>>=◌
abbrev pub ◌>>=◌ {ℓ κ} : {A : Type ℓ} {B : Type κ} → Option A → (A → Option B) → Option B
none >>= f = none
some a >>= f = f a
