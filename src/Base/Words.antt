-- ===== src/Base/Words.antt =====
-- Fixed-width unsigned integers of lib/stdint.h: a value is a number, and a store wraps it.
use Prim.Native.Nat.{ℕ, ◌+◌, ◌-◌, ◌/◌, ◌%◌, ◌^◌}

abbrev pub u8 : ℕ → ℕ
u8 n = n % 2 ^ 8

abbrev pub u16 : ℕ → ℕ
u16 n = n % 2 ^ 16

abbrev pub u32 : ℕ → ℕ
u32 n = n % 2 ^ 32

-- uint32_t subtraction, which wraps.
abbrev pub sub32 : ℕ → ℕ → ℕ
sub32 a b = (a + 2 ^ 32 - b) % 2 ^ 32

-- DIV_ROUND_UP of kernel/global.h on uint32_t operands.
abbrev pub div_round_up : ℕ → ℕ → ℕ
div_round_up x step = (x + step - 1) % 2 ^ 32 / step
