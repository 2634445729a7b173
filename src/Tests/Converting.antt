-- ===== src/Tests/Converting.antt =====
-- engine/support.c: strings for `to_float`. The Float is the characters that `strtod` reads.
use gforth.Prelude.{ℕ, ◌≡◌, ◌↔◌, refl, ap, arith, true, List, [], ◌∷◌, length}
use gforth.ToFloat.{
  is_digit, is_sign, is_e_char, done, edigits0, exponent_sign, exponent_marker, exponent, aftersign,
  blanks, scan_float, Strtod, converted, failed, converted_text, finish, to_float,
}
use gforth.ToFloat.Grammar.{Parts, written, c_number, IsNumber, IsSeparator}
use gforth.ToFloat.Converted.{to_float-written}
use gforth.ToFloat.Failed.{IsConvertible, to_float-failed}

abbrev read_all : List ℕ → Strtod (List ℕ)
read_all t = record { r = t; endconv = length t }

-- "-1,5d3" with a comma for the dot
abbrev number : Parts
number = record {
  sign = 45 ∷ [];
  whole = 49 ∷ [];
  point = true;
  fraction = 53 ∷ [];
  marker = 100 ∷ [];
  exponent_sign = [];
  exponent_digits = 51 ∷ [];
}

-- "-1.5E3"
to_float_number :
    to_float [] read_all 44 (45 ∷ 49 ∷ 44 ∷ 53 ∷ 100 ∷ 51 ∷ [])
    ≡ converted (45 ∷ 49 ∷ 46 ∷ 53 ∷ 69 ∷ 51 ∷ [])
unfolding to_float finish converted_text scan_float aftersign exponent exponent_marker exponent_sign
    edigits0 done is_digit is_sign is_e_char
to_float_number = refl

-- "1e" is converted as "1E0", "1,2,3" and "  1" are not, a blank is zero.
to_float_branches :
    (to_float [] read_all 44 (49 ∷ 101 ∷ []) ≡ converted (49 ∷ 69 ∷ 48 ∷ []))
    × (to_float [] read_all 44 (49 ∷ 44 ∷ 50 ∷ 44 ∷ 51 ∷ []) ≡ failed [])
    × (to_float [] read_all 44 (32 ∷ 49 ∷ []) ≡ failed [])
    × (to_float [] read_all 44 (32 ∷ 32 ∷ []) ≡ converted [])
unfolding to_float finish converted_text scan_float aftersign exponent exponent_marker exponent_sign
    edigits0 done is_digit is_sign is_e_char blanks
to_float_branches = (refl, refl, refl, refl)

comma-IsSeparator : IsSeparator 44
unfolding is_digit is_sign is_e_char
comma-IsSeparator = record { digit = refl; sign = refl; e_char = refl; blank = refl }

number-IsNumber : IsNumber number
unfolding is_digit is_sign is_e_char
number-IsNumber = record {
  sign = refl;
  whole = (refl, tt);
  fraction = (refl, tt);
  no_point = λ e. absurd (ground (arith, e));
  some_digit = omega arith;
  marker = refl;
  exponent_sign = tt;
  exponent_digits = (refl, tt);
  marked = λ e. absurd (ground (arith, ap length e));
}

to_float-written_example : to_float [] read_all 44 (written 44 number) ≡ converted (c_number number)
to_float-written_example =
    to_float-written [] read_all (λ p is. refl) 44 number comma-IsSeparator number-IsNumber

-- "1x"
to_float-failed_example :
    (to_float [] read_all 44 (49 ∷ 120 ∷ []) ≡ failed []) ↔ ¬ IsConvertible 44 (49 ∷ 120 ∷ [])
to_float-failed_example = to_float-failed [] read_all 44 (49 ∷ 120 ∷ []) comma-IsSeparator
