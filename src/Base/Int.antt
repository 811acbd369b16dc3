-- ===== src/Base/Int.antt =====
-- Signed values such as a length of -1, and the comparisons the code makes with them.
use Prim.Native.Nat.{ℕ, zero, suc}
use mathlib.Core.Bool.{Bool, true, false}
use cache_server.Base.Tests.{ltb}

-- `negsuc n` is -(n + 1).
pub data ℤ : Type 0 where
  pos : ℕ → ℤ
  negsuc : ℕ → ℤ

-- `n < z` for a count `n`.
abbrev pub ltb_ℤ : ℕ → ℤ → Bool
ltb_ℤ n (pos m) = ltb n m
ltb_ℤ n (negsuc _) = false

-- `z < 0`
abbrev pub is_neg : ℤ → Bool
is_neg (pos _) = false
is_neg (negsuc _) = true

-- `z <= 0`
abbrev pub is_nonpos : ℤ → Bool
is_nonpos (pos zero) = true
is_nonpos (pos (suc _)) = false
is_nonpos (negsuc _) = true
