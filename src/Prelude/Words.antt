-- ===== src/Prelude/Words.antt =====
-- Unsigned machine words as native numbers, with their wrap-around.
use Prim.Native.Nat.{ℕ, ◌+◌, ◌-◌, ◌*◌, ◌/◌, ◌%◌, ◌^◌}

abbrev pub add32 : ℕ → ℕ → ℕ
add32 a b = (a + b) % 2 ^ 32

abbrev pub sub32 : ℕ → ℕ → ℕ
sub32 a b = (a + 2 ^ 32 - b) % 2 ^ 32

abbrev pub mul32 : ℕ → ℕ → ℕ
mul32 a b = (a * b) % 2 ^ 32

abbrev pub u32 : ℕ → ℕ
u32 a = a % 2 ^ 32

abbrev pub add64 : ℕ → ℕ → ℕ
add64 a b = (a + b) % 2 ^ 64

abbrev pub sub64 : ℕ → ℕ → ℕ
sub64 a b = (a + 2 ^ 64 - b) % 2 ^ 64

abbrev pub mul64 : ℕ → ℕ → ℕ
mul64 a b = (a * b) % 2 ^ 64

-- `DIV_ROUND_UP(n, d)` of the kernel, (n + d - 1) / d, on 64 bits
abbrev pub div_round_up : ℕ → ℕ → ℕ
div_round_up n d = (n + d - 1) % 2 ^ 64 / d

-- `KB(k)`, `MB(m)`
abbrev pub kb : ℕ → ℕ
kb k = k * 1024

abbrev pub mb : ℕ → ℕ
mb m = m * 1048576
