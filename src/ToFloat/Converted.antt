-- ===== src/ToFloat/Converted.antt =====
-- engine/support.c: `to_float` on a string of its grammar.
use gforth.Prelude.{
  ℕ, length-append, inl, inr, Bool-cases, ◌+◌, ◌≤◌, ◌<◌, ◌≡◌, refl, ◌∙◌, sym, ap, subst, arith,
  Bool, true, false, ◌&&◌, ◌==◌, leb, List, [], ◌∷◌, ◌++◌, append_assoc, append-nil, length,
}
use gforth.Parse.White.{Starts}
use gforth.ToFloat.{
  is_digit, is_sign, is_e_char, text, exponent, aftersign, scan_float, Strtod, converted,
  converted_text, finish, to_float,
}
use gforth.ToFloat.Grammar.{
  Parts, AllDigits, IsOptional, fraction_chars, or_zero, written_exponent, written, c_number,
  IsNumber, IsSeparator,
}
use gforth.ToFloat.Exponent.{
  digit-sign, digit-blank, sign-digit, sign-blank, e_char-digit, exponent_lem,
}

module _ (dot : ℕ) (is_dot : IsSeparator dot) where
  dot-digit : (c : ℕ) → is_digit c ≡ true → (c == dot) ≡ false
  dot-digit c h = elim (Bool-cases (c == dot)) [
    | inl e ↦
        let same : c ≡ dot = ground (arith, e) in
        absurd (ground (arith, sym h ∙ ap is_digit same ∙ is_dot.digit))
    | inr e ↦ e
  ]

  aftersign_digits :
      (w rest t : List ℕ) (ndigits ndots : ℕ)
      → AllDigits w
      → aftersign dot (w ++ rest) t ndigits ndots
        ≡ aftersign dot rest (t ++ w) (ndigits + length w) ndots
  unfolding aftersign
  aftersign_digits [] rest t ndigits ndots all =
      rw (append-nil t) (ap (λ n. aftersign dot rest t n ndots) (omega arith))
  aftersign_digits (c ∷ w) rest t ndigits ndots (digit, all) =
      rw (dot-digit c digit, digit, aftersign)
        (aftersign_digits w rest (t ++ (c ∷ [])) (ndigits + 1) ndots all
          ∙ ap (λ x. aftersign dot rest x ((ndigits + 1) + length w) ndots)
              (append_assoc t (c ∷ []) w)
          ∙ ap (λ n. aftersign dot rest (t ++ (c ∷ w)) n ndots) (omega arith))

  aftersign_stop :
      (s t : List ℕ) (ndigits ndots : ℕ)
      → Starts (λ c. ((c == dot) ≡ false) × (is_digit c ≡ false)) s
      → aftersign dot s t ndigits ndots ≡ exponent s t ndigits ndots
  unfolding aftersign
  aftersign_stop [] t ndigits ndots stop = refl
  aftersign_stop (c ∷ s) t ndigits ndots (no_dot, no_digit) = rw (no_dot, no_digit, aftersign) refl

  separator_other :
      (test : ℕ → Bool) → test dot ≡ false → (c : ℕ) → test c ≡ true → (c == dot) ≡ false
  separator_other test none c h = elim (Bool-cases (c == dot)) [
    | inl e ↦
        let same : c ≡ dot = ground (arith, e) in
        absurd (ground (arith, sym h ∙ ap test same ∙ none))
    | inr e ↦ e
  ]

  exponent_stops :
      (m sign d : List ℕ)
      → IsOptional is_e_char m
      → IsOptional is_sign sign
      → (m ≡ [] → sign ≡ [] → d ≡ [])
      → Starts (λ c. ((c == dot) ≡ false) × (is_digit c ≡ false)) (m ++ (sign ++ d))
  exponent_stops [] [] d one sign marked =
      subst (Starts (λ c. ((c == dot) ≡ false) × (is_digit c ≡ false))) (sym (marked refl refl)) tt
  exponent_stops [] (c ∷ []) d one sign marked =
      (separator_other is_sign is_dot.sign c sign, sign-digit c sign)
  exponent_stops [] (c ∷ (e ∷ s)) d one sign marked = absurd (ground (arith, sign))
  exponent_stops (c ∷ []) sign d one is marked =
      (separator_other is_e_char is_dot.e_char c one, e_char-digit c one)
  exponent_stops (c ∷ (e ∷ s)) sign d one is marked = absurd (ground (arith, one))

  module _ (p : Parts) (is : IsNumber p) where
    abbrev c_exponent : List ℕ
    c_exponent = 69 ∷ (p.exponent_sign ++ or_zero p.exponent_digits)

    aftersign_exponent :
        (t : List ℕ) (ndigits ndots : ℕ)
        → 0 < ndigits
        → ndots ≤ 1
        → aftersign dot (written_exponent p) t ndigits ndots ≡ text (t ++ c_exponent)
    unfolding written_exponent
    aftersign_exponent t ndigits ndots some one =
        aftersign_stop (written_exponent p) t ndigits ndots (
          exponent_stops p.marker p.exponent_sign p.exponent_digits is.marker is.exponent_sign
            is.marked)
        ∙ exponent_lem p t ndigits ndots is some one
        ∙ ap text (append_assoc t (69 ∷ []) (p.exponent_sign ++ or_zero p.exponent_digits))

    -- Behind the digits before the dot.
    aftersign_fraction :
        (point : Bool) (f t : List ℕ) (n : ℕ)
        → AllDigits f
        → (point ≡ false → f ≡ [])
        → 0 < n + length f
        → aftersign dot (fraction_chars dot point f ++ written_exponent p) t n 0
          ≡ text (t ++ (fraction_chars 46 point f ++ c_exponent))
    unfolding fraction_chars aftersign
    aftersign_fraction false f t n all no_point some =
        let counted : length f ≡ 0 = ap length (no_point refl) in
        aftersign_exponent t n 0 (omega (arith, some, counted)) (omega arith)
    aftersign_fraction true f t n all no_point some =
        let test : (dot == dot) ≡ true = ground arith in
        rw (test, aftersign)
          (aftersign_digits f (written_exponent p) (t ++ (46 ∷ [])) n 1 all
            ∙ aftersign_exponent ((t ++ (46 ∷ [])) ++ f) (n + length f) 1 some (omega arith)
            ∙ ap text (
                append_assoc (t ++ (46 ∷ [])) f c_exponent
                ∙ append_assoc t (46 ∷ []) (f ++ c_exponent)))

    aftersign_lem :
        (t : List ℕ)
        → aftersign dot
            (p.whole ++ (fraction_chars dot p.point p.fraction ++ written_exponent p))
            t
            0
            0
          ≡ text (t ++ (p.whole ++ (fraction_chars 46 p.point p.fraction ++ c_exponent)))
    aftersign_lem t =
        aftersign_digits p.whole (fraction_chars dot p.point p.fraction ++ written_exponent p) t 0 0
          is.whole
        ∙ aftersign_fraction p.point p.fraction (t ++ p.whole) (0 + length p.whole) is.fraction
            is.no_point (omega (arith, is.some_digit))
        ∙ ap text (append_assoc t p.whole (fraction_chars 46 p.point p.fraction ++ c_exponent))

  abbrev IsUnsigned : List ℕ → Type 0
  IsUnsigned [] = true ≡ false
  IsUnsigned (c ∷ s) = ((c == 32) ≡ false) × (is_sign c ≡ false)

  number_start :
      (w : List ℕ) (point : Bool) (f tail : List ℕ)
      → AllDigits w
      → (point ≡ false → f ≡ [])
      → 0 < length w + length f
      → IsUnsigned (w ++ (fraction_chars dot point f ++ tail))
  unfolding fraction_chars
  number_start [] false f tail all no_point some =
      let counted : length f ≡ 0 = ap length (no_point refl) in
      absurd (omega (arith, some, counted))
  number_start [] true f tail all no_point some = (is_dot.blank, is_dot.sign)
  number_start (c ∷ w) point f tail all no_point some = (digit-blank c all.0, digit-sign c all.0)

  scan_unsigned : (s : List ℕ) → IsUnsigned s → scan_float dot s ≡ aftersign dot s [] 0 0
  unfolding scan_float
  scan_unsigned [] is = absurd (ground (arith, is))
  scan_unsigned (c ∷ s) (no_blank, no_sign) = rw (no_blank, no_sign) refl

  scan_signed :
      (sign body : List ℕ)
      → IsOptional is_sign sign
      → IsUnsigned body
      → scan_float dot (sign ++ body) ≡ aftersign dot body sign 0 0
  unfolding scan_float
  scan_signed [] body one is = scan_unsigned body is
  scan_signed (c ∷ []) body one is = rw (sign-blank c one, one) refl
  scan_signed (c ∷ (e ∷ s)) body one is = absurd (ground (arith, one))

  pub scan_float-written :
      (p : Parts) → IsNumber p → scan_float dot (written dot p) ≡ text (c_number p)
  unfolding written c_number
  scan_float-written p is =
      let body = p.whole ++ (fraction_chars dot p.point p.fraction ++ written_exponent p) in
      scan_signed p.sign body is.sign (
        number_start p.whole p.point p.fraction (written_exponent p) is.whole is.no_point
          is.some_digit)
      ∙ aftersign_lem p is p.sign

  length-fraction_chars :
      (point : Bool) (f : List ℕ)
      → length (fraction_chars 46 point f) ≡ length (fraction_chars dot point f)
  unfolding fraction_chars
  length-fraction_chars true f = refl
  length-fraction_chars false f = refl

  length-or_zero : (d : List ℕ) → length (or_zero d) ≤ length d + 1
  unfolding or_zero
  length-or_zero [] = omega arith
  length-or_zero (c ∷ d) = omega arith

  -- `cnum` has room for the characters.
  length-c_number : (p : Parts) → length (c_number p) + 1 ≤ length (written dot p) + 3
  unfolding c_number written written_exponent
  length-c_number p =
      let same = length-fraction_chars p.point p.fraction in
      let zero = length-or_zero p.exponent_digits in
      simp (length-append) (omega (arith, same, zero))

module _ {F : Type 0} (zero : F) (strtod : List ℕ → Strtod F)
    (whole_string : (p : Parts)
      → IsNumber p
      → (strtod (c_number p)).endconv ≡ length (c_number p)) where
  -- A string that the grammar in the comment derives, with a dot that has no other meaning in it, is
  -- converted: to what `strtod`, which reads to the end of a number in the form of C, gives for the same
  -- sign, digits and exponent with `.`, `E` and at least one digit in the exponent. No `assert` fails, so
  -- the characters fit into `cnum`.
  pub to_float-written :
      (dot : ℕ) (p : Parts)
      → IsSeparator dot
      → IsNumber p
      → to_float zero strtod dot (written dot p) ≡ converted (strtod (c_number p)).r
  unfolding to_float finish converted_text
  to_float-written dot p is_dot is =
      let room = length-c_number dot is_dot p in
      let end = whole_string p is in
      let test : (leb (length (c_number p) + 1) (length (written dot p) + 3)
            && (strtod (c_number p)).endconv == length (c_number p))
          ≡ true =
        ground (arith, room, end) in
      rw (scan_float-written dot is_dot p is, test) refl
