-- ===== src/Prelude/Memory.antt =====
-- Byte-addressed memory, and the commands that run in it with a bound on their loops.
use Prim.Native.Nat.{ℕ}
use mathlib.Core.Option.{Option, none, some}
use boron.Prelude.Tests.{◌==◌, if◌then◌else◌}

-- The byte at each address. Pointers are plain numbers, with no wrap-around.
abbrev pub Memory : Type 0
Memory = ℕ → ℕ

abbrev pub write : Memory → ℕ → ℕ → Memory
write m a v x = if x == a then v else m x

-- `none` is a loop that has used up its bound.
infixl 5 ◌>>=◌
abbrev pub ◌>>=◌ {ℓ κ} : {A : Type ℓ} {B : Type κ} → Option A → (A → Option B) → Option B
none >>= f = none
some a >>= f = f a
