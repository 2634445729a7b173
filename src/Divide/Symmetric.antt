-- ===== src/Divide/Symmetric.antt =====
-- engine/support.c: `smdiv`, which rounds towards zero.
use gforth.Prelude.{
  ℕ, ◌+◌, ◌*◌, ◌^◌, ◌≤◌, ◌<◌, ◌≡◌, arith, cell_mod, inl, inr, ◌⊎◌, is_negative, if◌then◌else◌,
  neg_cell, dec_lt,
}
use native.Mathlib.Nat.{le_trans}
use gforth.Prelude.Int.{signed, ◌+ℤ◌, ◌*ℤ◌}
use gforth.Double.{Double, value, IsDouble}
use gforth.Double.Sums.{dnegate-IsDouble}
use gforth.Divide.{
  ◌>>=◌, smdiv, umdiv, symmetric_result, signs_differ, returns, throws, div_zero, result_range,
}
use gforth.Divide.Signs.{
  signs_differ_lem, cell_size, signed_double, double_size, signed_double-with_sign, signed-put_sign,
  signed-with_sign, division_signs,
}
use gforth.Divide.Equations.{same_size, sign_kept, times_le}
use gforth.Divide.Unsigned.{umdiv_lem, IsQuotient}

-- `d` holds a quotient rounded towards zero in its low cell and the remainder in its high cell:
-- the remainder is smaller than the divisor and has the sign of the dividend.
pub record IsTruncated (num : Double) (denom : ℕ) (d : Double) : Type 0 where
  pub exact : signed_double num ≡ signed d.lo *ℤ signed denom +ℤ signed d.hi
  pub smaller : cell_size d.hi < cell_size denom
  pub side : (d.hi ≡ 0) ⊎ (is_negative d.hi ≡ is_negative num.hi)

-- The size of a dividend from which on the quotient does not fit a cell.
abbrev pub symmetric_limit : Double → ℕ → ℕ
symmetric_limit num denom =
    cell_size denom * (if signs_differ num.hi denom then 2 ^ 63 + 1 else 2 ^ 63)

module _ (num : Double) (denom : ℕ) (hn : IsDouble num) (hd : denom < cell_mod) where
  size-IsDouble : IsDouble (double_size num)
  size-IsDouble = ground (arith, dnegate-IsDouble num)

  size_bound : cell_size denom ≤ 2 ^ 63
  size_bound = ground arith

  -- The two ways to leave after `umdiv` has returned.
  result_fits :
      (d : Double)
      → d.lo < (if signs_differ num.hi denom then 2 ^ 63 + 1 else 2 ^ 63)
      → symmetric_result num.hi denom d
        ≡ returns (record {
          hi = if is_negative num.hi then neg_cell d.hi else d.hi;
          lo = if signs_differ num.hi denom then neg_cell d.lo else d.lo;
        })
  unfolding symmetric_result
  result_fits d h = ground arith

  result_overflows :
      (d : Double)
      → d.lo < cell_mod
      → (if signs_differ num.hi denom then 2 ^ 63 + 1 else 2 ^ 63) ≤ d.lo
      → symmetric_result num.hi denom d ≡ throws result_range
  unfolding symmetric_result
  result_overflows d h k = ground arith

  -- The signs put back give the quotient and remainder of the signed operands.
  signs_back :
      (d : Double)
      → d.lo < (if signs_differ num.hi denom then 2 ^ 63 + 1 else 2 ^ 63)
      → IsQuotient (value (double_size num)) (cell_size denom) d
      → IsTruncated num denom (record {
        hi = if is_negative num.hi then neg_cell d.hi else d.hi;
        lo = if signs_differ num.hi denom then neg_cell d.lo else d.lo;
      })
  signs_back d h m =
      let r_small : d.hi < 2 ^ 63 = ground (arith, m.remainder) in
      let r_fits : d.hi < (if is_negative num.hi then 2 ^ 63 + 1 else 2 ^ 63) = ground arith in
      record {
        exact =
            rw
              (
                signed_double-with_sign num hn,
                ← m.exact,
                signed-put_sign (signs_differ num.hi denom) d.lo h,
                signed-with_sign denom hd,
                signs_differ_lem num.hi denom hn.0 hd,
                signed-put_sign (is_negative num.hi) d.hi r_fits,
              )
              (division_signs (is_negative num.hi) (is_negative denom) d.lo (cell_size denom) d.hi);
        smaller = same_size (is_negative num.hi) d.hi (cell_size denom) m.remainder size_bound;
        side = sign_kept (is_negative num.hi) d.hi r_small;
      }

  symmetric_cases :
      (d : Double)
      → umdiv (double_size num) (cell_size denom) ≡ returns d
      → IsQuotient (value (double_size num)) (cell_size denom) d
      → ((symmetric_limit num denom ≤ value (double_size num))
          × (smdiv num denom ≡ throws result_range))
        ⊎ ((value (double_size num) < symmetric_limit num denom)
            × ((e : Double) × (smdiv num denom ≡ returns e) × IsTruncated num denom e))
  unfolding smdiv
  symmetric_cases d eq m =
      let bound = if signs_differ num.hi denom then 2 ^ 63 + 1 else 2 ^ 63 in
      elim (dec_lt d.lo bound) [
        | yes h ↦ inr (
          omega (
            arith,
            m.exact,
            m.remainder,
            times_le (cell_size denom) (d.lo + 1) bound (omega arith),
          ),
          (_, rw (eq, ◌>>=◌) (result_fits d h), signs_back d h m),
        )
        | no h ↦ inl (
          omega (arith, m.exact, times_le (cell_size denom) bound d.lo (omega arith)),
          rw (eq, ◌>>=◌) (result_overflows d m.fits (omega arith)),
        )
      ]

-- `smdiv` on every branch. It throws on a zero divisor; it throws a range error exactly when the
-- quotient, rounded towards zero, is no signed cell; else it returns that quotient and the
-- remainder, which has the sign of the dividend.
pub smdiv_lem :
    (num : Double) (denom : ℕ)
    → IsDouble num
    → denom < cell_mod
    → ((denom ≡ 0) × (smdiv num denom ≡ throws div_zero))
      ⊎ ((0 < denom)
          × (symmetric_limit num denom ≤ value (double_size num))
          × (smdiv num denom ≡ throws result_range))
      ⊎ ((value (double_size num) < symmetric_limit num denom)
          × ((d : Double) × (smdiv num denom ≡ returns d) × IsTruncated num denom d))
unfolding smdiv
smdiv_lem num denom hn hd =
    elim (umdiv_lem (double_size num) (cell_size denom) (size-IsDouble num denom hn hd)
      (omega (arith, size_bound num denom hn hd))) [
        | inl (z, eq) ↦ inl (ground arith, rw (eq, ◌>>=◌))
        | inr (inl (p, big, eq)) ↦ inr (
            inl (
              ground arith,
              le_trans (times_le (cell_size denom) _ cell_mod (ground arith)) big,
              rw (eq, ◌>>=◌),
            ))
        | inr (inr (fits, (d, eq, m))) ↦ elim (symmetric_cases num denom hn hd d eq m) [
          | inl (big, e) ↦ inr (inl (ground (arith, m.remainder), big, e))
          | inr fine ↦ inr (inr fine)
        ]
      ]
