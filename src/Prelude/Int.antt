-- ===== src/Prelude/Int.antt =====
-- Signed integers: Go's `int` and `time.Duration`. `negsuc n` is -(n + 1).
use Prim.Native.Nat.{ℕ, suc, ◌+◌}
use mathlib.Core.Bool.{Bool, true, false}
use sqlguard.Prelude.Tests.{ltb, leb}

pub data ℤ : Type 0 where
  pos : ℕ → ℤ
  negsuc : ℕ → ℤ

-- `0 < z`.
abbrev pub is_positive : ℤ → Bool
is_positive (pos n) = ltb 0 n
is_positive (negsuc n) = false

-- `z <= n` for an `int` and a count.
abbrev pub le_count : ℤ → ℕ → Bool
le_count (pos k) n = leb k n
le_count (negsuc k) n = true

-- `now.Sub(then) > d` for instants on one clock, counted in nanoseconds.
abbrev pub passed : ℕ → ℕ → ℤ → Bool
passed now then' (pos d) = ltb (then' + d) now
passed now then' (negsuc d) = ltb then' (now + suc d)
