-- ===== src/Divide/Equations.antt =====
-- engine/support.c: arithmetic that the two signed divisions share.
use gforth.Prelude.{
  ℕ, zero, suc, ◌+◌, ◌-◌, ◌*◌, ◌^◌, ◌≤◌, ◌<◌, ◌≡◌, refl, arith, cell_mod, true, false, Bool, inl,
  inr, ◌⊎◌, is_negative, if◌then◌else◌, neg_cell, add_cell, dec_lt, not,
}
use gforth.Prelude.Int.{pos, ◌+ℤ◌, ◌*ℤ◌}
use gforth.Double.{Double, value, IsDouble, dnegate}
use gforth.Double.Sums.{value-dnegate, dnegate-IsDouble}
use gforth.Divide.Signs.{cell_size, signed_double, with_sign}

-- The division equations, for a dividend of the divisor's sign and of the other sign.
pub same_sides :
    (b : Bool) (q m r : ℕ) → with_sign b (q * m + r) ≡ pos q *ℤ with_sign b m +ℤ with_sign b r
unfolding ◌*ℤ◌ ◌+ℤ◌
same_sides true q m r = ground arith
same_sides false q m r = ground arith

pub other_sides :
    (b : Bool) (k p m r : ℕ)
    → k + r ≡ p * m
    → with_sign (not b) k ≡ with_sign true p *ℤ with_sign b m +ℤ with_sign b r
unfolding ◌*ℤ◌ ◌+ℤ◌
other_sides true k p m r h = ground arith
other_sides false k p m r h = ground arith

-- The dividend's value from the turned one.
pub value_same :
    (num : Double) (b : Bool)
    → IsDouble num
    → let t = (if b then dnegate num else num) in
      is_negative t.hi ≡ false → signed_double num ≡ with_sign b (value t)
value_same num true h e = ground (arith, value-dnegate num h, dnegate-IsDouble num)
value_same num false h e = ground arith

pub value_other :
    (num : Double) (b : Bool)
    → IsDouble num
    → let t = (if b then dnegate num else num) in
      is_negative t.hi ≡ true
      → 2 ^ 128 - value t < 2 ^ 127
      → signed_double num ≡ with_sign (not b) (2 ^ 128 - value t)
value_other num true h e k = ground (arith, value-dnegate num h)
value_other num false h e k = ground arith

-- The size and the side of a remainder, with a sign put on it.
pub same_size :
    (b : Bool) (r m : ℕ) → r < m → m ≤ 2 ^ 63 → cell_size (if b then neg_cell r else r) < m
same_size true r m h k = ground arith
same_size false r m h k = ground arith

pub sign_kept :
    (b : Bool) (r : ℕ)
    → r < 2 ^ 63
    → ((if b then neg_cell r else r) ≡ 0) ⊎ (is_negative (if b then neg_cell r else r) ≡ b)
sign_kept true zero h = inl refl
sign_kept true (suc r) h = inr (ground arith)
sign_kept false r h = inr (ground arith)

pub times_le : (m a b : ℕ) → a ≤ b → m * a ≤ m * b
times_le m a b h = grind arith

-- The high cell of a negative dividend wraps when the divisor is added to it, unless the quotient
-- would not fit.
pub wrap_value :
    (hi lo m q r : ℕ)
    → hi < cell_mod
    → lo < cell_mod
    → 2 ^ 63 ≤ hi
    → m ≤ 2 ^ 63
    → q * m + r ≡ add_cell hi m * cell_mod + lo
    → r < m
    → m * q ≤ m * (cell_mod - 1)
    → q * m + r + (2 ^ 128 - (hi * cell_mod + lo)) ≡ m * cell_mod
wrap_value hi lo m q r hh hl neg hm eq hr most = elim (dec_lt (hi + m) cell_mod) [
  | yes under ↦
      let plain : add_cell hi m ≡ hi + m = omega arith in absurd (omega (arith, rw plain at eq))
  | no over ↦
      let less : add_cell hi m ≡ hi + m - cell_mod = omega arith in omega (arith, rw less at eq)
]
