-- ===== src/Base/Integers.antt =====
-- The integers over the native numbers: a version that a request names may be negative.
use Prim.Native.Nat.{ℕ}
use mathlib.Core.Bool.{Bool, false}
use mathlib.Core.Option.{Option, none, some}
use project_progress_registe.Base.Tests.{ltb, ◌==◌, if◌then◌else◌}

pub data ℤ : Type 0 where
  pos : ℕ → ℤ
  negsuc : ℕ → ℤ

-- The number, if it is not below the bound.
abbrev pub at_least : ℕ → ℤ → Option ℕ
at_least low (pos n) = if ltb n low then none else some n
at_least low (negsuc n) = none

abbrev pub is_pos_of : ℕ → ℤ → Bool
is_pos_of n (pos k) = n == k
is_pos_of n (negsuc k) = false

abbrev pub natural : ℤ → ℕ
natural (pos n) = n
natural (negsuc n) = 0
