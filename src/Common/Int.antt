-- ===== src/Common/Int.antt =====
-- The C type `int` where a value can be negative: error codes and remaining lengths.
use Prim.Native.Nat.{ℕ}
use mathlib.Core.Bool.{Bool, true, false}
use modules.Common.Tests.{◌==◌, if◌then◌else◌}

-- `negsuc n` is -(n + 1).
pub data ℤ : Type 0 where
  pos : ℕ → ℤ
  negsuc : ℕ → ℤ

abbrev pub pos_part : ℤ → ℕ
pos_part (pos n) = n
pos_part (negsuc n) = 0

abbrev pub is_neg : ℤ → Bool
is_neg (pos n) = false
is_neg (negsuc n) = true

-- C's truth value of an `int`.
abbrev pub is_nonzero : ℤ → Bool
is_nonzero (pos n) = if n == 0 then false else true
is_nonzero (negsuc n) = true

abbrev pub eq_ℤ : ℤ → ℤ → Bool
eq_ℤ (pos a) (pos b) = a == b
eq_ℤ (negsuc a) (negsuc b) = a == b
eq_ℤ _ _ = false

-- The Linux error codes that the modules return, negated as the code returns them.
abbrev pub neg_einval : ℤ
neg_einval = negsuc 21

abbrev pub neg_enomem : ℤ
neg_enomem = negsuc 11

abbrev pub neg_efault : ℤ
neg_efault = negsuc 13

abbrev pub neg_eopnotsupp : ℤ
neg_eopnotsupp = negsuc 94

abbrev pub neg_econnrefused : ℤ
neg_econnrefused = negsuc 110
