-- ===== src/Common/Words.antt =====
-- Machine words as native numbers: a w-bit value is a number below 2 ^ w.
use Prim.Native.Nat.{ℕ, zero, suc, ◌+◌, ◌-◌, ◌/◌, ◌%◌, ◌^◌}
use mathlib.Core.Bool.{Bool}
use rv32imac_soc.Common.Tests.{◌==◌}

abbrev pub u32 : ℕ → ℕ
u32 n = n % 2 ^ 32

abbrev pub u8 : ℕ → ℕ
u8 n = n % 2 ^ 8

-- a - b on uint32_t.
abbrev pub sub32 : ℕ → ℕ → ℕ
sub32 a b = (a + 2 ^ 32 - b) % 2 ^ 32

-- BIT(n), a word with one bit set.
abbrev pub bit : ℕ → ℕ
bit n = 2 ^ n

-- ~w on uint32_t.
abbrev pub not32 : ℕ → ℕ
not32 w = 2 ^ 32 - 1 - w

-- ~w on 8 wires.
abbrev pub not8 : ℕ → ℕ
not8 w = 2 ^ 8 - 1 - w

-- Bit n of w.
abbrev pub is_set : ℕ → ℕ → Bool
is_set w zero = w % 2 == 1
is_set w (suc n) = is_set (w / 2) n
