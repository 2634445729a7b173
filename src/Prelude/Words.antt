-- ===== src/Prelude/Words.antt =====
-- 64-bit cells. A Cell and a UCell are the same pattern of bits, a number below `2 ^ 64`; a Cell
-- is negative when its highest bit is set.
use Prim.Native.Nat.{ℕ, ◌+◌, ◌-◌, ◌*◌, ◌%◌, ◌^◌}
use mathlib.Core.Bool.{Bool}
use gforth.Prelude.Tests.{leb}

-- The number of values of a cell.
abbrev pub cell_mod : ℕ
cell_mod = 2 ^ 64

-- `(Cell)x < 0`
abbrev pub is_negative : ℕ → Bool
is_negative x = leb (2 ^ 63) x

-- The cell with the value -1.
abbrev pub minus_one : ℕ
minus_one = 2 ^ 64 - 1

abbrev pub add_cell : ℕ → ℕ → ℕ
add_cell a b = (a + b) % cell_mod

-- `-` on ℕ stops at 0, so the modulus is added first.
abbrev pub sub_cell : ℕ → ℕ → ℕ
sub_cell a b = (a + cell_mod - b) % cell_mod

-- `-x`
abbrev pub neg_cell : ℕ → ℕ
neg_cell x = (cell_mod - x) % cell_mod

-- `~x`
abbrev pub not_cell : ℕ → ℕ
not_cell x = cell_mod - 1 - x

abbrev pub mul_cell : ℕ → ℕ → ℕ
mul_cell a b = (a * b) % cell_mod
