-- ===== src/Common/Code.antt =====
-- The `int` that a kernel function returns: 0, a negative errno, or a positive status.
use Prim.Native.Nat.{ℕ}
use mathlib.Core.Bool.{Bool, true, false}
use net_cas.Common.Tests.{◌==◌}

-- `negsuc n` is -(n + 1).
pub data ℤ : Type 0 where
  pos : ℕ → ℤ
  negsuc : ℕ → ℤ

-- `!ret`
abbrev pub is_zero : ℤ → Bool
is_zero (pos n) = n == 0
is_zero (negsuc n) = false

-- `ret < 0`
abbrev pub is_neg : ℤ → Bool
is_neg (pos n) = false
is_neg (negsuc n) = true

-- `ret > 0`
abbrev pub is_pos : ℤ → Bool
is_pos (pos n) = elim (n == 0) [ true ↦ false | false ↦ true ]
is_pos (negsuc n) = false

infix 50 ◌==ℤ◌
abbrev pub ◌==ℤ◌ : ℤ → ℤ → Bool
pos a ==ℤ pos b = a == b
negsuc a ==ℤ negsuc b = a == b
pos a ==ℤ negsuc b = false
negsuc a ==ℤ pos b = false

-- 0 and the negated errno values of Linux.
abbrev pub success : ℤ
success = pos 0

abbrev pub eio : ℤ
eio = negsuc 4

abbrev pub eagain : ℤ
eagain = negsuc 10

abbrev pub enomem : ℤ
enomem = negsuc 11

abbrev pub ebusy : ℤ
ebusy = negsuc 15

abbrev pub einval : ℤ
einval = negsuc 21

abbrev pub econnreset : ℤ
econnreset = negsuc 103

abbrev pub etimedout : ℤ
etimedout = negsuc 109

abbrev pub econnrefused : ℤ
econnrefused = negsuc 110

abbrev pub ealready : ℤ
ealready = negsuc 113

abbrev enetreset : ℤ
enetreset = negsuc 101
