-- ===== src/ToFloat/Rest.antt =====
-- engine/support.c: what the labels of `to_float` have read where they do not reach `error`.
use gforth.Prelude.{
  ℕ, inl, inr, Bool-cases, ◌+◌, ◌≤◌, ◌<◌, ◌≡◌, ◌⊎◌, refl, ◌∙◌, sym, ap, subst, arith, Bool, true,
  false, ◌||◌, ◌==◌, ltb, if◌then◌else◌, List, [], ◌∷◌, ◌++◌, length,
}
use gforth.Parse.White.{Starts}
use gforth.ToFloat.{
  is_digit, is_sign, is_e_char, malformed, edigits0, exponent_sign, exponent_marker, exponent,
  aftersign,
}
use gforth.ToFloat.Grammar.{AllDigits, IsOptional, fraction_chars}

-- An exponent, behind the significand.
pub record Exponent (s : List ℕ) : Type 0 where
  pub marker : List ℕ
  pub sign : List ℕ
  pub digits : List ℕ
  pub split : s ≡ marker ++ (sign ++ digits)
  pub marker_chars : IsOptional is_e_char marker
  pub sign_chars : IsOptional is_sign sign
  pub digit_chars : AllDigits digits

edigits0-digits : (s t : List ℕ) (n : ℕ) → (edigits0 s t n ≡ malformed) ⊎ AllDigits s
unfolding edigits0
edigits0-digits [] t n = inr tt
edigits0-digits (c ∷ s) t n = elim (Bool-cases (is_digit c)) [
  | inr other ↦ inl (rw other refl)
  | inl digit ↦ elim (edigits0-digits s (t ++ (c ∷ [])) (n + 1)) [
    | inl e ↦ inl (rw digit e)
    | inr all ↦ inr (digit, all)
  ]
]

exponent_sign-Exponent :
    (s t : List ℕ)
    → (exponent_sign s t ≡ malformed)
      ⊎ ((sign : List ℕ) × (digits : List ℕ) × (s ≡ sign ++ digits)
          × IsOptional is_sign sign
          × AllDigits digits)
unfolding exponent_sign
exponent_sign-Exponent [] t = inr ([], [], refl, tt, tt)
exponent_sign-Exponent (c ∷ s) t = elim (Bool-cases (is_sign c)) [
  | inl sign ↦ elim (edigits0-digits s (t ++ (c ∷ [])) 0) [
    | inl e ↦ inl (rw sign e)
    | inr all ↦ inr (c ∷ [], s, refl, sign, all)
  ]
  | inr other ↦ elim (edigits0-digits (c ∷ s) t 0) [
    | inl e ↦ inl (rw other e)
    | inr all ↦ inr ([], c ∷ s, refl, tt, all)
  ]
]

exponent_marker-Exponent : (s t : List ℕ) → (exponent_marker s t ≡ malformed) ⊎ Exponent s
unfolding exponent_marker
exponent_marker-Exponent [] t = inr (record {
  marker = [];
  sign = [];
  digits = [];
  split = refl;
  marker_chars = tt;
  sign_chars = tt;
  digit_chars = tt;
})
exponent_marker-Exponent (c ∷ s) t = elim (Bool-cases (is_e_char c)) [
  | inl mark ↦ elim (exponent_sign-Exponent s t) [
    | inl e ↦ inl (rw mark e)
    | inr (sign, digits, split, sign_chars, all) ↦ inr (record {
      marker = c ∷ [];
      sign = sign;
      digits = digits;
      split = ap (λ x. c ∷ x) split;
      marker_chars = mark;
      sign_chars = sign_chars;
      digit_chars = all;
    })
  ]
  | inr other ↦ elim (exponent_sign-Exponent (c ∷ s) t) [
    | inl e ↦ inl (rw other e)
    | inr (sign, digits, split, sign_chars, all) ↦ inr (record {
      marker = [];
      sign = sign;
      digits = digits;
      split = split;
      marker_chars = tt;
      sign_chars = sign_chars;
      digit_chars = all;
    })
  ]
]

-- What is left of a number, behind so many digits and dots.
pub record Rest (dot ndigits ndots : ℕ) (s : List ℕ) : Type 0 where
  pub whole : List ℕ
  pub point : Bool
  pub fraction : List ℕ
  pub tail : List ℕ
  pub split : s ≡ whole ++ (fraction_chars dot point fraction ++ tail)
  pub whole_digits : AllDigits whole
  pub fraction_digits : AllDigits fraction
  pub no_point : point ≡ false → fraction ≡ []
  pub dots : (if point then 1 else 0) + ndots ≤ 1
  pub some_digit : 0 < ndigits + (length whole + length fraction)
  pub exponent : Exponent tail
  pub stops : Starts (λ c. is_digit c ≡ false) tail

exponent-Rest :
    (dot : ℕ) (s t : List ℕ) (ndigits ndots : ℕ)
    → Starts (λ c. is_digit c ≡ false) s
    → (exponent s t ndigits ndots ≡ malformed) ⊎ Rest dot ndigits ndots s
unfolding exponent fraction_chars
exponent-Rest dot s t ndigits ndots stops = elim (Bool-cases (ltb ndigits 1 || ltb 1 ndots)) [
  | inl bad ↦ inl (rw bad refl)
  | inr good ↦ elim (exponent_marker-Exponent s (t ++ (69 ∷ []))) [
    | inl e ↦ inl (rw good e)
    | inr is ↦ inr (record {
      whole = [];
      point = false;
      fraction = [];
      tail = s;
      split = refl;
      whole_digits = tt;
      fraction_digits = tt;
      no_point = λ e. refl;
      dots = ground (arith, good);
      some_digit = ground (arith, good);
      exponent = is;
      stops = stops;
    })
  ]
]

dot-Rest :
    (dot c : ℕ) (s : List ℕ) (ndigits ndots : ℕ)
    → c ≡ dot
    → Rest dot ndigits (ndots + 1) s
    → Rest dot ndigits ndots (c ∷ s)
unfolding fraction_chars
dot-Rest dot c s ndigits ndots same r = elim (Bool-cases r.point) [
  | inl e ↦
      let over : (if true then 1 else 0) + (ndots + 1) ≤ 1 =
        subst (λ b. (if b then 1 else 0) + (ndots + 1) ≤ 1) e r.dots in
      absurd (omega (arith, over))
  | inr e ↦
      let none : fraction_chars dot r.point r.fraction ≡ [] =
        ap (λ b. fraction_chars dot b r.fraction) e in
      let no_digit : length r.fraction ≡ 0 = ap length (r.no_point e) in
      record {
        whole = [];
        point = true;
        fraction = r.whole;
        tail = r.tail;
        split =
            ap (λ x. x ∷ s) same
            ∙ ap (λ x. dot ∷ x) (r.split ∙ ap (λ x. r.whole ++ (x ++ r.tail)) none);
        whole_digits = tt;
        fraction_digits = r.whole_digits;
        no_point = λ never. absurd (ground (arith, never));
        dots =
            subst (λ b. (if b then 1 else 0) + (ndots + 1) ≤ 1 → 1 + ndots ≤ 1) (sym e)
              (λ h. omega (arith, h)) r.dots;
        some_digit = omega (arith, r.some_digit, no_digit);
        exponent = r.exponent;
        stops = r.stops;
      }
]

digit-Rest :
    (dot c : ℕ) (s : List ℕ) (ndigits ndots : ℕ)
    → is_digit c ≡ true
    → Rest dot (ndigits + 1) ndots s
    → Rest dot ndigits ndots (c ∷ s)
digit-Rest dot c s ndigits ndots digit r = record {
  whole = c ∷ r.whole;
  point = r.point;
  fraction = r.fraction;
  tail = r.tail;
  split = ap (λ x. c ∷ x) r.split;
  whole_digits = (digit, r.whole_digits);
  fraction_digits = r.fraction_digits;
  no_point = r.no_point;
  dots = r.dots;
  some_digit = omega arith;
  exponent = r.exponent;
  stops = r.stops;
}

pub aftersign-Rest :
    (dot : ℕ) (s t : List ℕ) (ndigits ndots : ℕ)
    → (aftersign dot s t ndigits ndots ≡ malformed) ⊎ Rest dot ndigits ndots s
unfolding aftersign
aftersign-Rest dot [] t ndigits ndots = exponent-Rest dot [] t ndigits ndots tt
aftersign-Rest dot (c ∷ s) t ndigits ndots = elim (Bool-cases (c == dot)) [
  | inl is_dot ↦ elim (aftersign-Rest dot s (t ++ (46 ∷ [])) ndigits (ndots + 1)) [
    | inl e ↦ inl (rw (is_dot, aftersign) e)
    | inr r ↦ inr (dot-Rest dot c s ndigits ndots (ground (arith, is_dot)) r)
  ]
  | inr no_dot ↦ elim (Bool-cases (is_digit c)) [
    | inl digit ↦ elim (aftersign-Rest dot s (t ++ (c ∷ [])) (ndigits + 1) ndots) [
      | inl e ↦ inl (rw (no_dot, digit, aftersign) e)
      | inr r ↦ inr (digit-Rest dot c s ndigits ndots digit r)
    ]
    | inr other ↦ elim (exponent-Rest dot (c ∷ s) t ndigits ndots other) [
      | inl e ↦ inl (rw (no_dot, other, aftersign) e)
      | inr r ↦ inr r
    ]
  ]
]
