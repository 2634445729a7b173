-- ===== src/ToFloat/Grammar.antt =====
-- engine/support.c: the grammar in the comment of `to_float`.
use gforth.Prelude.{ℕ, ◌+◌, ◌<◌, ◌≡◌, Bool, true, false, ◌==◌, List, [], ◌∷◌, ◌++◌, length}
use gforth.Parse.White.{All}
use gforth.ToFloat.{is_digit, is_sign, is_e_char}

-- The parts of a convertible string, and whether there is a dot.
pub record Parts : Type 0 where
  pub sign : List ℕ
  pub whole : List ℕ
  pub point : Bool
  pub fraction : List ℕ
  pub marker : List ℕ
  pub exponent_sign : List ℕ
  pub exponent_digits : List ℕ

abbrev pub AllDigits : List ℕ → Type 0
AllDigits s = All (λ c. is_digit c ≡ true) s

-- At most one character, one that passes the test.
abbrev pub IsOptional : (ℕ → Bool) → List ℕ → Type 0
IsOptional test [] = Unit
IsOptional test (c ∷ []) = test c ≡ true
IsOptional test (c ∷ (d ∷ s)) = true ≡ false

-- The fraction with its dot.
unfoldable pub fraction_chars : ℕ → Bool → List ℕ → List ℕ
fraction_chars dot true fraction = dot ∷ fraction
fraction_chars dot false fraction = []

unfoldable pub or_zero : List ℕ → List ℕ
or_zero [] = 48 ∷ []
or_zero (c ∷ s) = c ∷ s

-- The exponent as it is written, and the string.
unfoldable pub written_exponent : Parts → List ℕ
written_exponent p = p.marker ++ (p.exponent_sign ++ p.exponent_digits)

unfoldable pub written : ℕ → Parts → List ℕ
written dot p = p.sign ++ (p.whole ++ (fraction_chars dot p.point p.fraction ++ written_exponent p))

-- The same number in the form that C reads: with `.` for the dot, with `E`, and with a digit in the exponent.
unfoldable pub c_number : Parts → List ℕ
c_number p =
    p.sign
    ++ (p.whole
        ++ (fraction_chars 46 p.point p.fraction
            ++ (69 ∷ (p.exponent_sign ++ or_zero p.exponent_digits))))

pub record IsNumber (p : Parts) : Type 0 where
  pub sign : IsOptional is_sign p.sign
  pub whole : AllDigits p.whole
  pub fraction : AllDigits p.fraction
  pub no_point : p.point ≡ false → p.fraction ≡ []
  pub some_digit : 0 < length p.whole + length p.fraction
  pub marker : IsOptional is_e_char p.marker
  pub exponent_sign : IsOptional is_sign p.exponent_sign
  pub exponent_digits : AllDigits p.exponent_digits
  pub marked : p.marker ≡ [] → p.exponent_sign ≡ [] → p.exponent_digits ≡ []

-- The dot is a character that has no other meaning in the grammar.
pub record IsSeparator (dot : ℕ) : Type 0 where
  pub digit : is_digit dot ≡ false
  pub sign : is_sign dot ≡ false
  pub e_char : is_e_char dot ≡ false
  pub blank : (dot == 32) ≡ false
