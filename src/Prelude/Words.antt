-- ===== src/Prelude/Words.antt =====
-- Arithmetic of `u64` and of `usize`, which has 64 bits too: `+`, `-` and `*` wrap, as in a
-- release build.
use Prim.Native.Nat.{ℕ, ◌+◌, ◌-◌, ◌*◌, ◌%◌, ◌^◌, min}

abbrev pub u64_max : ℕ
u64_max = 2 ^ 64 - 1

infixl 65 ◌+w◌ ◌-w◌
abbrev pub ◌+w◌ : ℕ → ℕ → ℕ
a +w b = (a + b) % 2 ^ 64

abbrev pub ◌-w◌ : ℕ → ℕ → ℕ
a -w b = (a + 2 ^ 64 - b) % 2 ^ 64

infixl 70 ◌*w◌
abbrev pub ◌*w◌ : ℕ → ℕ → ℕ
a *w b = (a * b) % 2 ^ 64

-- `saturating_add`; `saturating_sub` is `-` on ℕ.
abbrev pub saturating_add : ℕ → ℕ → ℕ
saturating_add a b = min (a + b) u64_max
