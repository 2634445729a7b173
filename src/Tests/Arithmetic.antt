-- ===== src/Tests/Arithmetic.antt =====
-- The arithmetic of engine/dblsub.c and engine/support.c at concrete inputs.
use gforth.Prelude.{ℕ, ◌-◌, ◌*◌, ◌^◌, ◌≤◌, ◌<◌, ◌≡◌, refl, ◌⊎◌, arith, cell_mod}
use gforth.Prelude.Int.{signed, signed_at, ◌*ℤ◌}
use gforth.Double.{Double, value, dnegate, ummul, mmul}
use gforth.Double.Products.{value-ummul, signed-mmul}
use gforth.Divide.{
  subtract, shift, loop, umdiv, smdiv, fmdiv, symmetric_result, floored_result, returns, throws,
  div_zero, result_range,
}
use gforth.Divide.Signs.{double_size, cell_size}
use gforth.Divide.Unsigned.{umdiv_lem, IsQuotient}
use gforth.Divide.Symmetric.{smdiv_lem, IsTruncated, symmetric_limit}
use gforth.Divide.Floored.{fmdiv_lem, IsFloored, floored_reach, turned}

abbrev minus_seven : Double
minus_seven = record { hi = 2 ^ 64 - 1; lo = 2 ^ 64 - 7 }

abbrev wide : Double
wide = record { hi = 2; lo = 2 ^ 64 - 1 }

fmdiv-minus_seven : fmdiv minus_seven 2 ≡ returns (record { hi = 1; lo = 2 ^ 64 - 4 })
unfolding fmdiv umdiv loop subtract shift floored_result dnegate
fmdiv-minus_seven = refl

smdiv-minus_seven : smdiv minus_seven 2 ≡ returns (record { hi = 2 ^ 64 - 1; lo = 2 ^ 64 - 3 })
unfolding smdiv umdiv loop subtract shift symmetric_result dnegate
smdiv-minus_seven = refl

umdiv_range : umdiv wide 2 ≡ throws result_range
unfolding umdiv loop subtract shift
umdiv_range = refl

value-ummul_example : value (ummul (2 ^ 64 - 1) (2 ^ 64 - 3)) ≡ (2 ^ 64 - 1) * (2 ^ 64 - 3)
value-ummul_example = value-ummul (2 ^ 64 - 1) (2 ^ 64 - 3) (omega arith) (omega arith)

signed-mmul_example :
    signed_at (2 ^ 127) (value (mmul (2 ^ 64 - 5) 7)) ≡ signed (2 ^ 64 - 5) *ℤ signed 7
signed-mmul_example = signed-mmul (2 ^ 64 - 5) 7 (omega arith) (omega arith)

umdiv_lem_example :
    (◌≡◌ {A = ℕ} 5 0 × (umdiv wide 5 ≡ throws div_zero))
    ⊎ ((0 < 5) × (5 * cell_mod ≤ value wide) × (umdiv wide 5 ≡ throws result_range))
    ⊎ ((value wide < 5 * cell_mod)
        × ((d : Double) × (umdiv wide 5 ≡ returns d) × IsQuotient (value wide) 5 d))
umdiv_lem_example = umdiv_lem wide 5 (omega arith) (omega arith)

smdiv_lem_example :
    (◌≡◌ {A = ℕ} 5 0 × (smdiv minus_seven 5 ≡ throws div_zero))
    ⊎ ((0 < 5)
        × (symmetric_limit minus_seven 5 ≤ value (double_size minus_seven))
        × (smdiv minus_seven 5 ≡ throws result_range))
    ⊎ ((value (double_size minus_seven) < symmetric_limit minus_seven 5)
        × ((d : Double) × (smdiv minus_seven 5 ≡ returns d) × IsTruncated minus_seven 5 d))
smdiv_lem_example = smdiv_lem minus_seven 5 (omega arith) (omega arith)

fmdiv_lem_example :
    (◌≡◌ {A = ℕ} 5 0 × (fmdiv minus_seven 5 ≡ throws div_zero))
    ⊎ ((cell_size 5 * 2 ^ 63 < floored_reach (turned minus_seven 5))
        × (fmdiv minus_seven 5 ≡ throws result_range))
    ⊎ ((floored_reach (turned minus_seven 5) ≤ cell_size 5 * 2 ^ 63)
        × ((d : Double) × (fmdiv minus_seven 5 ≡ returns d) × IsFloored minus_seven 5 d))
fmdiv_lem_example = fmdiv_lem minus_seven 5 (omega arith) (omega arith)
