-- ===== src/Divide/Floored.antt =====
-- engine/support.c: `fmdiv`, which rounds down.
use gforth.Prelude.{
  ℕ, ◌+◌, ◌-◌, ◌*◌, ◌^◌, ◌≤◌, ◌<◌, ◌≡◌, ap, arith, cell_mod, true, false, Bool-cases, inl, inr, ◌⊎◌,
  is_negative, if◌then◌else◌, neg_cell, add_cell, not,
}
use gforth.Prelude.Int.{pos, signed, ◌+ℤ◌, ◌*ℤ◌}
use gforth.Double.{Double, value, IsDouble, dnegate}
use gforth.Double.Sums.{dnegate-IsDouble}
use gforth.Divide.{◌>>=◌, fmdiv, umdiv, floored_result, returns, throws, div_zero, result_range}
use gforth.Divide.Signs.{
  signs_differ_lem, cell_size, signed_double, with_sign, signed-with_sign, signed-put_sign,
}
use gforth.Divide.Equations.{
  same_sides, other_sides, value_same, value_other, same_size, sign_kept, times_le, wrap_value,
}
use gforth.Divide.Unsigned.{umdiv_lem, IsQuotient}

-- `d` holds a quotient rounded down in its low cell and the remainder in its high cell: the
-- remainder is smaller than the divisor and has its sign.
pub record IsFloored (num : Double) (denom : ℕ) (d : Double) : Type 0 where
  pub exact : signed_double num ≡ signed d.lo *ℤ signed denom +ℤ signed d.hi
  pub smaller : cell_size d.hi < cell_size denom
  pub side : (d.hi ≡ 0) ⊎ (is_negative d.hi ≡ is_negative denom)

-- The dividend with the sign that it has over a positive divisor.
abbrev pub turned : Double → ℕ → Double
turned num denom = if is_negative denom then dnegate num else num

-- What must be at most `2 ^ 63` times the divisor for the quotient to fit a cell.
abbrev pub floored_reach : Double → ℕ
floored_reach t = if is_negative t.hi then 2 ^ 128 - value t else value t + 1

module _ (num : Double) (denom : ℕ) (hn : IsDouble num) (hd : denom < cell_mod) where
  turned-IsDouble : IsDouble (turned num denom)
  turned-IsDouble = ground (arith, dnegate-IsDouble num)

  size_bound : cell_size denom ≤ 2 ^ 63
  size_bound = ground arith

  -- The result of `fmdiv` for a quotient and remainder that fit.
  abbrev with_denom_sign : Double → Double
  with_denom_sign d = record { hi = if is_negative denom then neg_cell d.hi else d.hi; lo = d.lo }

  result_same :
      (d : Double)
      → d.lo < cell_mod
      → is_negative (turned num denom).hi ≡ is_negative d.lo
      → floored_result (turned num denom).hi denom d ≡ returns (with_denom_sign d)
  unfolding floored_result
  result_same d h e =
      ground (arith, signs_differ_lem (turned num denom).hi d.lo turned-IsDouble.0 h)

  result_other :
      (d : Double)
      → d.lo < cell_mod
      → is_negative d.lo ≡ not (is_negative (turned num denom).hi)
      → floored_result (turned num denom).hi denom d ≡ throws result_range
  unfolding floored_result
  result_other d h e =
      ground (arith, signs_differ_lem (turned num denom).hi d.lo turned-IsDouble.0 h)

  signed-remainder :
      (r : ℕ)
      → r < cell_size denom
      → signed (if is_negative denom then neg_cell r else r) ≡ with_sign (is_negative denom) r
  signed-remainder r h = signed-put_sign (is_negative denom) r (ground arith)

  nonneg-IsFloored :
      is_negative (turned num denom).hi ≡ false
      → (d : Double) → is_negative d.lo ≡ false
      → IsQuotient (value (turned num denom)) (cell_size denom) d
      → IsFloored num denom (with_denom_sign d)
  nonneg-IsFloored e d small m =
      let plain : signed d.lo ≡ pos d.lo = ground arith in
      record {
        exact =
            rw
              (
                value_same num (is_negative denom) hn e,
                ← m.exact,
                plain,
                signed-with_sign denom hd,
                signed-remainder d.hi m.remainder,
              )
              (same_sides (is_negative denom) d.lo (cell_size denom) d.hi);
        smaller = same_size (is_negative denom) d.hi (cell_size denom) m.remainder size_bound;
        side = sign_kept (is_negative denom) d.hi (omega (arith, m.remainder, size_bound));
      }

  -- What the high cell with the divisor added stands for, once `umdiv` has a quotient.
  wrapped :
      is_negative (turned num denom).hi ≡ true
      → let t = turned num denom in
        (d : Double)
        → IsQuotient (value (record t { hi = add_cell t.hi (cell_size denom) })) (cell_size denom) d
        → d.lo * cell_size denom + d.hi + (2 ^ 128 - value t) ≡ cell_size denom * cell_mod
  wrapped e d m =
      let most = times_le (cell_size denom) d.lo (cell_mod - 1) (omega (arith, m.fits)) in
      let h = turned-IsDouble in
      wrap_value (turned num denom).hi (turned num denom).lo (cell_size denom) d.lo d.hi h.0 h.1
        (ground arith) size_bound m.exact m.remainder most

  negative-IsFloored :
      is_negative (turned num denom).hi ≡ true
      → (d : Double) → d.lo < cell_mod
      → is_negative d.lo ≡ true
      → d.hi < cell_size denom
      → d.lo * cell_size denom + d.hi + (2 ^ 128 - value (turned num denom))
        ≡ cell_size denom * cell_mod
      → IsFloored num denom (with_denom_sign d)
  negative-IsFloored e d h small r eq =
      let m = cell_size denom in
      let k = 2 ^ 128 - value (turned num denom) in
      let most = times_le m (2 ^ 63) d.lo (ground arith) in
      let parts : (d.lo + (cell_mod - d.lo)) * m ≡ cell_mod * m =
        ap (λ (t : ℕ). t * m) (omega arith) in
      let minus : signed d.lo ≡ with_sign true (cell_mod - d.lo) = ground arith in
      record {
        exact =
            rw
              (
                value_other num (is_negative denom) hn e (omega (arith, eq, most, size_bound)),
                minus,
                signed-with_sign denom hd,
                signed-remainder d.hi r,
              )
              (other_sides (is_negative denom) k (cell_mod - d.lo) m d.hi
                (omega (arith, eq, parts)));
        smaller = same_size (is_negative denom) d.hi m r size_bound;
        side = sign_kept (is_negative denom) d.hi (omega (arith, r, size_bound));
      }

  -- What `fmdiv` may do: the statement of the theorem below, but for the zero divisor.
  Ends : Type 0
  Ends =
      ((cell_size denom * 2 ^ 63 < floored_reach (turned num denom))
        × (fmdiv num denom ≡ throws result_range))
      ⊎ ((floored_reach (turned num denom) ≤ cell_size denom * 2 ^ 63)
          × ((d : Double) × (fmdiv num denom ≡ returns d) × IsFloored num denom d))

  nonneg_ends :
      is_negative (turned num denom).hi ≡ false
      → (d : Double) → umdiv (turned num denom) (cell_size denom) ≡ returns d
      → IsQuotient (value (turned num denom)) (cell_size denom) d
      → Ends
  unfolding fmdiv Ends
  nonneg_ends e d eq m = elim (Bool-cases (is_negative d.lo)) [
    | inl big ↦ inl (
      rw e (omega (arith, m.exact, times_le (cell_size denom) (2 ^ 63) d.lo (ground arith))),
      rw (e, eq, ◌>>=◌) (result_other d m.fits (rw (e, big))),
    )
    | inr small ↦ inr (
      rw e (
          omega (
            arith,
            m.exact,
            m.remainder,
            times_le (cell_size denom) (d.lo + 1) (2 ^ 63) (ground arith),
          )),
      (
        with_denom_sign d,
        rw (e, eq, ◌>>=◌) (result_same d m.fits (rw (e, small))),
        nonneg-IsFloored e d small m,
      ),
    )
  ]

  negative_ends :
      is_negative (turned num denom).hi ≡ true
      → let t = turned num denom in
        (d : Double)
        → umdiv (record t { hi = add_cell t.hi (cell_size denom) }) (cell_size denom) ≡ returns d
        → IsQuotient (value (record t { hi = add_cell t.hi (cell_size denom) })) (cell_size denom) d
        → Ends
  unfolding fmdiv Ends
  negative_ends e d eq m =
      let eq' = wrapped e d m in
      elim (Bool-cases (is_negative d.lo)) [
        | inl small ↦ inr (
          rw e (omega (arith, eq', times_le (cell_size denom) (2 ^ 63) d.lo (ground arith))),
          (
            with_denom_sign d,
            rw (e, eq, ◌>>=◌) (result_same d m.fits (rw (e, small))),
            negative-IsFloored e d m.fits small m.remainder eq',
          ),
        )
        | inr big ↦ inl (
          rw e (
              omega (
                arith,
                eq',
                m.remainder,
                times_le (cell_size denom) (d.lo + 1) (2 ^ 63) (ground arith),
              )),
          rw (e, eq, ◌>>=◌) (result_other d m.fits (rw (e, big))),
        )
      ]

  umdiv_throws :
      let t = turned num denom in
      let u = (if is_negative t.hi then record t { hi = add_cell t.hi (cell_size denom) } else t) in
      cell_size denom * cell_mod ≤ value u → cell_size denom * 2 ^ 63 < floored_reach t
  umdiv_throws h = ground (arith, turned-IsDouble, size_bound)

  operand-IsDouble :
      let t = turned num denom in
      IsDouble (if is_negative t.hi then record t { hi = add_cell t.hi (cell_size denom) } else t)
  operand-IsDouble = ground (arith, turned-IsDouble)

-- `fmdiv` on every branch. It throws on a zero divisor; it throws a range error exactly when the
-- quotient, rounded down, is no signed cell; else it returns that quotient and the remainder,
-- which has the sign of the divisor.
pub fmdiv_lem :
    (num : Double) (denom : ℕ)
    → IsDouble num
    → denom < cell_mod
    → ((denom ≡ 0) × (fmdiv num denom ≡ throws div_zero))
      ⊎ ((cell_size denom * 2 ^ 63 < floored_reach (turned num denom))
          × (fmdiv num denom ≡ throws result_range))
      ⊎ ((floored_reach (turned num denom) ≤ cell_size denom * 2 ^ 63)
          × ((d : Double) × (fmdiv num denom ≡ returns d) × IsFloored num denom d))
unfolding fmdiv Ends
fmdiv_lem num denom hn hd =
    let t = turned num denom in
    let u : Double =
      (if is_negative t.hi then record t { hi = add_cell t.hi (cell_size denom) } else t) in
    let bound = size_bound num denom hn hd in
    elim (umdiv_lem u (cell_size denom) (operand-IsDouble num denom hn hd) (omega (arith, bound))) [
      | inl (z, eq) ↦ inl (ground arith, rw (eq, ◌>>=◌))
      | inr (inl (p, big, eq)) ↦ inr (inl (umdiv_throws num denom hn hd big, rw (eq, ◌>>=◌)))
      | inr (inr (fits, (d, eq, m))) ↦ elim (Bool-cases (is_negative t.hi)) [
        | inl neg ↦ inr (negative_ends num denom hn hd neg d (rw neg at eq) (rw neg at m))
        | inr nonneg ↦ inr (nonneg_ends num denom hn hd nonneg d (rw nonneg at eq) (rw nonneg at m))
      ]
    ]
