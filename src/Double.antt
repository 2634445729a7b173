-- ===== src/Double.antt =====
-- engine/dblsub.c: double-cell arithmetic on a machine with no usable double-cell type
-- (BUGGY_LONG_LONG), with the macros UH, LH and L2U of engine/forth.h and the struct that stands
-- for DCell and UDCell there. The two have the same bits and differ in how the high cell is read.
pub mod Sums
pub mod Products
use gforth.Prelude.{
  ℕ, ◌+◌, ◌-◌, ◌*◌, ◌/◌, ◌%◌, ◌^◌, ◌<◌, bit_and, Bool, ltb, leb, ◌==◌, if◌then◌else◌, cell_mod,
  add_cell, sub_cell, mul_cell, neg_cell, not_cell, is_negative,
}

pub record Double : Type 0 where
  pub hi : ℕ
  pub lo : ℕ

-- The number that a pair of cells stands for when it is read without a sign.
abbrev pub value : Double → ℕ
value d = d.hi * cell_mod + d.lo

abbrev pub IsDouble : Double → Type 0
IsDouble d = (d.hi < cell_mod) × (d.lo < cell_mod)

-- The value of a comparison in C.
abbrev pub flag : Bool → ℕ
flag b = if b then 1 else 0

-- The high half of a cell, its low half, and a half moved to the high place.
abbrev pub upper_half : ℕ → ℕ
upper_half x = x / 2 ^ 32

abbrev pub lower_half : ℕ → ℕ
lower_half x = bit_and x (2 ^ 32 - 1)

abbrev pub to_upper_half : ℕ → ℕ
to_upper_half x = (x * 2 ^ 32) % cell_mod

unfoldable pub dnegate : Double → Double
dnegate d = record { hi = add_cell (not_cell d.hi) (flag (d.lo == 0)); lo = neg_cell d.lo }

unfoldable pub ummul : ℕ → ℕ → Double
ummul a b =
    let lo = mul_cell a b in
    let ul = mul_cell (upper_half a) (lower_half b) in
    let lu = mul_cell (lower_half a) (upper_half b) in
    let uu = mul_cell (upper_half a) (upper_half b) in
    let m = add_cell ul lu in
    record {
      hi =
          (uu + to_upper_half (flag (ltb m ul)) + upper_half m + flag (ltb lo (to_upper_half m)))
          % cell_mod;
      lo = lo;
    }

unfoldable pub mmul : ℕ → ℕ → Double
mmul a b =
    let res = ummul a b in
    let hi1 = if is_negative a then sub_cell res.hi b else res.hi in
    let hi2 = if is_negative b then sub_cell hi1 a else hi1 in record { hi = hi2; lo = res.lo }

unfoldable pub dadd : Double → Double → Double
dadd d1 d2 =
    let lo = add_cell d1.lo d2.lo in
    record { hi = (d1.hi + d2.hi + flag (ltb lo d1.lo)) % cell_mod; lo = lo }
