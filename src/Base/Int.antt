-- ===== src/Base/Int.antt =====
-- Go's `int`, over the native numbers: the program's integers are small, and none overflows.
use Prim.Native.Nat.{ℕ, ◌-◌, ◌%◌}
use mathlib.Core.Bool.{Bool, true, false}
use callsignet.Base.Tests.{leb, ltb, nat_beq}

-- `negsuc n` is -(n + 1).
pub data ℤ : Type 0 where
  pos : ℕ → ℤ
  negsuc : ℕ → ℤ

abbrev pub int_beq : ℤ → ℤ → Bool
int_beq (pos a) (pos b) = nat_beq a b
int_beq (negsuc a) (negsuc b) = nat_beq a b
int_beq (pos _) (negsuc _) = false
int_beq (negsuc _) (pos _) = false

-- `a < b`.
abbrev pub int_ltb : ℤ → ℤ → Bool
int_ltb (pos a) (pos b) = ltb a b
int_ltb (negsuc a) (negsuc b) = ltb b a
int_ltb (pos _) (negsuc _) = false
int_ltb (negsuc _) (pos _) = true

-- `a <= b`.
abbrev pub int_leb : ℤ → ℤ → Bool
int_leb (pos a) (pos b) = leb a b
int_leb (negsuc a) (negsuc b) = leb b a
int_leb (pos _) (negsuc _) = false
int_leb (negsuc _) (pos _) = true

-- The conversion `uint16(n)`.
abbrev pub to_uint16 : ℤ → ℕ
to_uint16 (pos n) = n % 65536
to_uint16 (negsuc n) = 65535 - n % 65536
