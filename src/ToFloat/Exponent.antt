-- ===== src/ToFloat/Exponent.antt =====
-- engine/support.c: the exponent of a number in `to_float`, and the characters that it begins with.
use gforth.Prelude.{
  ℕ, suc, ◌+◌, ◌≤◌, ◌<◌, ◌≡◌, refl, ◌∙◌, sym, ap, arith, true, false, ◌||◌, ◌==◌, ltb, List, [],
  ◌∷◌, ◌++◌, append_assoc, append-nil, length,
}
use gforth.ToFloat.{
  is_digit, is_sign, is_e_char, text, done, edigits0, exponent_sign, exponent_marker, exponent,
}
use gforth.ToFloat.Grammar.{Parts, AllDigits, IsOptional, or_zero, written_exponent, IsNumber}

edigits0_lem : (d t : List ℕ) (n : ℕ) → AllDigits d → edigits0 d t n ≡ done (t ++ d) (n + length d)
unfolding edigits0
edigits0_lem [] t n all = rw (append-nil t) (ap (done t) (omega arith))
edigits0_lem (c ∷ d) t n (digit, all) = rw digit (
    edigits0_lem d (t ++ (c ∷ [])) (n + 1) all
    ∙ ap (λ x. done x ((n + 1) + length d)) (append_assoc t (c ∷ []) d)
    ∙ ap (done (t ++ (c ∷ d))) (omega arith))

pub digit-sign : (c : ℕ) → is_digit c ≡ true → is_sign c ≡ false
unfolding is_digit is_sign
digit-sign c h = ground arith

digit-e_char : (c : ℕ) → is_digit c ≡ true → is_e_char c ≡ false
unfolding is_digit is_e_char
digit-e_char c h = ground arith

pub digit-blank : (c : ℕ) → is_digit c ≡ true → (c == 32) ≡ false
unfolding is_digit
digit-blank c h = ground arith

pub sign-digit : (c : ℕ) → is_sign c ≡ true → is_digit c ≡ false
unfolding is_digit is_sign
sign-digit c h = ground arith

sign-e_char : (c : ℕ) → is_sign c ≡ true → is_e_char c ≡ false
unfolding is_e_char is_sign
sign-e_char c h = ground arith

pub sign-blank : (c : ℕ) → is_sign c ≡ true → (c == 32) ≡ false
unfolding is_sign
sign-blank c h = ground arith

pub e_char-digit : (c : ℕ) → is_e_char c ≡ true → is_digit c ≡ false
unfolding is_digit is_e_char
e_char-digit c h = ground arith

exponent_sign_lem :
    (sign d t : List ℕ)
    → IsOptional is_sign sign
    → AllDigits d
    → exponent_sign (sign ++ d) t ≡ done (t ++ (sign ++ d)) (length d)
unfolding exponent_sign
exponent_sign_lem [] [] t one all = ap (λ x. done x 0) (sym (append-nil t))
exponent_sign_lem [] (c ∷ d) t one all =
    rw (digit-sign c all.0) (edigits0_lem (c ∷ d) t 0 all ∙ ap (done (t ++ (c ∷ d))) (omega arith))
exponent_sign_lem (c ∷ []) d t one all = rw one (
    edigits0_lem d (t ++ (c ∷ [])) 0 all
    ∙ ap (λ x. done x (0 + length d)) (append_assoc t (c ∷ []) d)
    ∙ ap (done (t ++ (c ∷ d))) (omega arith))
exponent_sign_lem (c ∷ (e ∷ s)) d t one all = absurd (ground (arith, one))

exponent_marker_lem :
    (m sign d t : List ℕ)
    → IsOptional is_e_char m
    → IsOptional is_sign sign
    → AllDigits d
    → exponent_marker (m ++ (sign ++ d)) t ≡ done (t ++ (sign ++ d)) (length d)
unfolding exponent_marker
exponent_marker_lem [] [] [] t one sign all = ap (λ x. done x 0) (sym (append-nil t))
exponent_marker_lem [] [] (c ∷ d) t one sign all =
    rw (digit-e_char c all.0) (exponent_sign_lem [] (c ∷ d) t sign all)
exponent_marker_lem [] (c ∷ []) d t one sign all =
    rw (sign-e_char c sign) (exponent_sign_lem (c ∷ []) d t sign all)
exponent_marker_lem [] (c ∷ (e ∷ s)) d t one sign all = absurd (ground (arith, sign))
exponent_marker_lem (c ∷ []) sign d t one is all = rw one (exponent_sign_lem sign d t is all)
exponent_marker_lem (c ∷ (e ∷ s)) sign d t one is all = absurd (ground (arith, one))

done-or_zero :
    (x sign d : List ℕ) → done (x ++ (sign ++ d)) (length d) ≡ text (x ++ (sign ++ or_zero d))
unfolding done or_zero
done-or_zero x sign [] =
    ap text
      (append_assoc x (sign ++ []) (48 ∷ []) ∙ ap (λ s. x ++ (s ++ (48 ∷ []))) (append-nil sign))
done-or_zero x sign (c ∷ d) =
    let rest : (suc (length d) == 0) ≡ false = ground arith in rw rest refl

pub exponent_lem :
    (p : Parts) (t : List ℕ) (ndigits ndots : ℕ)
    → IsNumber p
    → 0 < ndigits
    → ndots ≤ 1
    → exponent (written_exponent p) t ndigits ndots
      ≡ text ((t ++ (69 ∷ [])) ++ (p.exponent_sign ++ or_zero p.exponent_digits))
unfolding exponent written_exponent
exponent_lem p t ndigits ndots is some one =
    let test : (ltb ndigits 1 || ltb 1 ndots) ≡ false = ground (arith, some, one) in
    rw test (
      exponent_marker_lem p.marker p.exponent_sign p.exponent_digits (t ++ (69 ∷ [])) is.marker
        is.exponent_sign is.exponent_digits
      ∙ done-or_zero (t ++ (69 ∷ [])) p.exponent_sign p.exponent_digits)
