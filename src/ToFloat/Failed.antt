-- ===== src/ToFloat/Failed.antt =====
-- engine/support.c: the strings on which `to_float` returns 0.
use gforth.Prelude.{
  ℕ, inl, inr, Bool-cases, ◌+◌, ◌≡◌, ◌↔◌, ◌⊎◌, refl, ◌∙◌, sym, ap, subst, arith, Bool, true, false,
  ◌&&◌, ◌==◌, leb, List, [], ◌∷◌, ◌++◌, length,
}
use gforth.Parse.White.{All, Starts}
use gforth.ToFloat.{
  is_digit, is_sign, return0, malformed, blanks, scan_float, Strtod, Conversion, converted, failed,
  aborted, converted_text, finish, to_float,
}
use gforth.ToFloat.Grammar.{
  Parts, AllDigits, IsOptional, fraction_chars, written_exponent, written, c_number, IsNumber,
  IsSeparator,
}
use gforth.ToFloat.Converted.{scan_float-written}
use gforth.ToFloat.Rest.{Exponent, Rest, aftersign-Rest}

unmarked_digits :
    (tail d : List ℕ) → tail ≡ d → Starts (λ c. is_digit c ≡ false) tail → AllDigits d → d ≡ []
unmarked_digits tail [] split stops all = refl
unmarked_digits tail (c ∷ d) split stops all =
    let other = subst (Starts (λ x. is_digit x ≡ false)) split stops in
    absurd (ground (arith, sym other ∙ all.0))

Exponent-marked :
    (tail : List ℕ) (x : Exponent tail)
    → Starts (λ c. is_digit c ≡ false) tail
    → x.marker ≡ []
    → x.sign ≡ []
    → x.digits ≡ []
Exponent-marked tail x stops no_marker no_sign =
    unmarked_digits tail x.digits
      (x.split ∙ ap (λ m. m ++ (x.sign ++ x.digits)) no_marker ∙ ap (λ m. m ++ x.digits) no_sign)
      stops x.digit_chars

-- The strings that are convertible: blanks only, none at all included, or a number.
unfoldable pub IsConvertible : ℕ → List ℕ → Type 0
IsConvertible dot s =
    All (λ c. (c == 32) ≡ true) s ⊎ ((p : Parts) × IsNumber p × (s ≡ written dot p))

Rest-IsConvertible :
    (dot : ℕ) (sign s : List ℕ)
    → IsOptional is_sign sign
    → Rest dot 0 0 s
    → IsConvertible dot (sign ++ s)
unfolding IsConvertible written written_exponent
Rest-IsConvertible dot sign s one r = inr (
  record {
    sign = sign;
    whole = r.whole;
    point = r.point;
    fraction = r.fraction;
    marker = r.exponent.marker;
    exponent_sign = r.exponent.sign;
    exponent_digits = r.exponent.digits;
  },
  record {
    sign = one;
    whole = r.whole_digits;
    fraction = r.fraction_digits;
    no_point = r.no_point;
    some_digit = omega (arith, r.some_digit);
    marker = r.exponent.marker_chars;
    exponent_sign = r.exponent.sign_chars;
    exponent_digits = r.exponent.digit_chars;
    marked = Exponent-marked r.tail r.exponent r.stops;
  },
  ap (λ x. sign ++ x)
      (r.split
        ∙ ap (λ x. r.whole ++ (fraction_chars dot r.point r.fraction ++ x)) r.exponent.split),
)

blanks-All : (s : List ℕ) → (blanks s ≡ malformed) ⊎ All (λ c. (c == 32) ≡ true) s
unfolding blanks
blanks-All [] = inr tt
blanks-All (c ∷ s) = elim (Bool-cases (c == 32)) [
  | inr other ↦ inl (rw other refl)
  | inl blank ↦ elim (blanks-All s) [ inl e ↦ inl (rw blank e) | inr all ↦ inr (blank, all) ]
]

all_blanks : (s : List ℕ) → All (λ c. (c == 32) ≡ true) s → blanks s ≡ return0
unfolding blanks
all_blanks [] all = refl
all_blanks (c ∷ s) (blank, all) = rw blank (all_blanks s all)

scan_float-IsConvertible :
    (dot : ℕ) (s : List ℕ) → (scan_float dot s ≡ malformed) ⊎ IsConvertible dot s
unfolding scan_float IsConvertible
scan_float-IsConvertible dot [] = inr (inl tt)
scan_float-IsConvertible dot (c ∷ s) = elim (Bool-cases (c == 32)) [
  | inl blank ↦ elim (blanks-All s) [ inl e ↦ inl (rw blank e) | inr all ↦ inr (inl (blank, all)) ]
  | inr no_blank ↦ elim (Bool-cases (is_sign c)) [
    | inl sign ↦ elim (aftersign-Rest dot s (c ∷ []) 0 0) [
      | inl e ↦ inl (rw (no_blank, sign) e)
      | inr r ↦ inr (Rest-IsConvertible dot (c ∷ []) s sign r)
    ]
    | inr other ↦ elim (aftersign-Rest dot (c ∷ s) [] 0 0) [
      | inl e ↦ inl (rw (no_blank, other) e)
      | inr r ↦ inr (Rest-IsConvertible dot [] (c ∷ s) tt r)
    ]
  ]
]

scan_float-blanks :
    (dot : ℕ) (s : List ℕ) → All (λ c. (c == 32) ≡ true) s → scan_float dot s ≡ return0
unfolding scan_float
scan_float-blanks dot [] all = refl
scan_float-blanks dot (c ∷ s) (blank, all) = rw blank (all_blanks s all)

module _ {F : Type 0} (zero : F) (strtod : List ℕ → Strtod F) where
  unfoldable is_failed : Conversion F → Bool
  is_failed (converted r) = false
  is_failed (failed r) = true
  is_failed aborted = false

  converted_text-is_failed :
      (u : ℕ) (t : List ℕ) → is_failed (converted_text zero strtod u t) ≡ false
  unfolding converted_text is_failed
  converted_text-is_failed u t =
      elim (Bool-cases (leb (length t + 1) (u + 3) && (strtod t).endconv == length t)) [
        | inl e ↦ rw e refl
        | inr e ↦ rw e refl
      ]

  to_float-is_failed :
      (dot : ℕ) (s : List ℕ)
      → IsSeparator dot
      → IsConvertible dot s
      → is_failed (to_float zero strtod dot s) ≡ false
  unfolding to_float finish IsConvertible is_failed
  to_float-is_failed dot s is_dot (inl all) = rw (scan_float-blanks dot s all) refl
  to_float-is_failed dot s is_dot (inr (p, is, split)) =
      rw (split, scan_float-written dot is_dot p is)
        (converted_text-is_failed (length (written dot p)) (c_number p))

  -- `to_float` returns 0, and stores the zero, exactly on the strings that are not convertible: those that
  -- have another character than a blank and that the grammar in the comment does not derive, with a dot
  -- that has no other meaning in it. This needs no assumption on `strtod`.
  pub to_float-failed :
      (dot : ℕ) (s : List ℕ)
      → IsSeparator dot
      → (to_float zero strtod dot s ≡ failed zero) ↔ ¬ IsConvertible dot s
  unfolding to_float finish is_failed
  to_float-failed dot s is_dot = (
    λ failed convertible.
        absurd (ground (arith, ap is_failed failed, to_float-is_failed dot s is_dot convertible)),
    λ other. elim (scan_float-IsConvertible dot s) [
      | inl e ↦ rw e refl
      | inr convertible ↦ absurd (other convertible)
    ],
  )
