-- ===== src/Divide/Signs.antt =====
-- engine/support.c: the sign of an exclusive or, by which the signed divisions compare signs, and
-- the sizes of signed cells and doubles.
use gforth.Prelude.{
  ℕ, ◌+◌, ◌*◌, ◌/◌, ◌%◌, ◌^◌, ◌<◌, ◌≡◌, ◌∙◌, ap₂, arith, cell_mod, true, false, Bool, Bool-cases,
  inl, inr, not, bit_xor, is_negative, if◌then◌else◌, neg_cell,
}
use gforth.Prelude.Bits.{bit_xor_high}
use gforth.Prelude.Int.{ℤ, pos, signed, signed_at, sub_ℕ, ◌+ℤ◌, ◌*ℤ◌}
use gforth.Double.{Double, value, IsDouble, dnegate}
use gforth.Double.Sums.{value-dnegate}
use gforth.Divide.{signs_differ}

high_bit : (a : ℕ) → a < cell_mod → a / 2 ^ 63 ≡ (if is_negative a then 1 else 0)
high_bit a h = ground arith

pub signs_differ_lem :
    (a b : ℕ)
    → a < cell_mod
    → b < cell_mod
    → signs_differ a b ≡ (if is_negative a then not (is_negative b) else is_negative b)
signs_differ_lem a b ha hb =
    let (r, bound, eq) =
      bit_xor_high 63 (a / 2 ^ 63) (a % 2 ^ 63) (b / 2 ^ 63) (b % 2 ^ 63) (omega arith)
        (omega arith) in
    let whole : bit_xor a b ≡ bit_xor (a / 2 ^ 63) (b / 2 ^ 63) * 2 ^ 63 + r =
      ap₂ bit_xor (omega arith) (omega arith) ∙ eq in
    elim (Bool-cases (is_negative a)) [
      | inl na ↦ elim (Bool-cases (is_negative b)) [
        | inl nb ↦ rw (whole, high_bit a ha, high_bit b hb, na, nb) (ground arith)
        | inr nb ↦ rw (whole, high_bit a ha, high_bit b hb, na, nb) (ground arith)
      ]
      | inr na ↦ elim (Bool-cases (is_negative b)) [
        | inl nb ↦ rw (whole, high_bit a ha, high_bit b hb, na, nb) (ground arith)
        | inr nb ↦ rw (whole, high_bit a ha, high_bit b hb, na, nb) (ground arith)
      ]
    ]

-- The size of a signed cell, as `-x` if it is negative leaves it.
abbrev pub cell_size : ℕ → ℕ
cell_size x = if is_negative x then neg_cell x else x

-- The value of a signed double.
abbrev pub signed_double : Double → ℤ
signed_double d = signed_at (2 ^ 127) (value d)

-- The size of a signed double.
abbrev pub double_size : Double → Double
double_size d = if is_negative d.hi then dnegate d else d

-- The integer with the given sign (`true` for minus) and size.
abbrev pub with_sign : Bool → ℕ → ℤ
with_sign true n = sub_ℕ 0 n
with_sign false n = pos n

pub signed-with_sign : (x : ℕ) → x < cell_mod → signed x ≡ with_sign (is_negative x) (cell_size x)
signed-with_sign x h = ground arith

pub signed_double-with_sign :
    (d : Double)
    → IsDouble d
    → signed_double d ≡ with_sign (is_negative d.hi) (value (double_size d))
signed_double-with_sign d h = ground (arith, value-dnegate d h)

-- A size that fits, with a sign put on it.
pub signed-put_sign :
    (b : Bool) (x : ℕ)
    → x < (if b then 2 ^ 63 + 1 else 2 ^ 63)
    → signed (if b then neg_cell x else x) ≡ with_sign b x
signed-put_sign true x h = ground arith
signed-put_sign false x h = ground arith

-- The division equation between sizes, with the signs of a division towards zero.
pub division_signs :
    (a b : Bool) (q m r : ℕ)
    → with_sign a (q * m + r)
      ≡ with_sign (if a then not b else b) q *ℤ with_sign b m +ℤ with_sign a r
unfolding ◌*ℤ◌ ◌+ℤ◌
division_signs true true q m r = ground arith
division_signs true false q m r = ground arith
division_signs false true q m r = ground arith
division_signs false false q m r = ground arith
