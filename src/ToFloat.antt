-- ===== src/ToFloat.antt =====
-- engine/support.c: `to_float`. The labels of the function are definitions, from the last to the first:
-- each takes the characters from `s` on, the characters that are written to `cnum`, and the counts.
-- `strtod` and the type of a Float are parameters.
pub mod Grammar
pub mod Exponent
pub mod Converted
pub mod Rest
pub mod Failed
use gforth.Prelude.{
  ℕ, ◌+◌, Bool, true, false, ◌&&◌, ◌||◌, ltb, leb, ◌==◌, if◌then◌else◌, List, [], ◌∷◌, ◌++◌, length,
}

-- `case '0' ... '9'`
unfoldable pub is_digit : ℕ → Bool
is_digit c = leb 48 c && leb c 57

-- `case '+': case '-'`
unfoldable pub is_sign : ℕ → Bool
is_sign c = c == 43 || c == 45

-- `case 'D': case 'd': case 'E': case 'e'`
unfoldable pub is_e_char : ℕ → Bool
is_e_char c = (c == 68 || c == 100) || (c == 69 || c == 101)

-- Where the scan ends: at `return0`, at `error`, or with the characters for `strtod`.
pub data Scan : Type 0 where
  return0 malformed : Scan
  text : List ℕ → Scan

-- `done`, up to the terminating NUL.
unfoldable pub done : List ℕ → ℕ → Scan
done t edigits = text (if edigits == 0 then t ++ (48 ∷ []) else t)

unfoldable pub edigits0 : List ℕ → List ℕ → ℕ → Scan
edigits0 [] t edigits = done t edigits
edigits0 (c ∷ s) t edigits =
    let rest = edigits0 s (t ++ (c ∷ [])) (edigits + 1) in if is_digit c then rest else malformed

-- The sign of the exponent.
unfoldable pub exponent_sign : List ℕ → List ℕ → Scan
exponent_sign [] t = done t 0
exponent_sign (c ∷ s) t = if is_sign c then edigits0 s (t ++ (c ∷ [])) 0 else edigits0 (c ∷ s) t 0

-- The character that marks the exponent.
unfoldable pub exponent_marker : List ℕ → List ℕ → Scan
exponent_marker [] t = done t 0
exponent_marker (c ∷ s) t = if is_e_char c then exponent_sign s t else exponent_sign (c ∷ s) t

unfoldable pub exponent : List ℕ → List ℕ → ℕ → ℕ → Scan
exponent s t ndigits ndots =
    if ltb ndigits 1 || ltb 1 ndots then malformed else exponent_marker s (t ++ (69 ∷ []))

unfoldable pub aftersign : ℕ → List ℕ → List ℕ → ℕ → ℕ → Scan
aftersign dot [] t ndigits ndots = exponent [] t ndigits ndots
aftersign dot (c ∷ s) t ndigits ndots = elim (c == dot) [
  | true ↦ aftersign dot s (t ++ (46 ∷ [])) ndigits (ndots + 1)
  | false ↦ elim (is_digit c) [
    | true ↦ aftersign dot s (t ++ (c ∷ [])) (ndigits + 1) ndots
    | false ↦ exponent (c ∷ s) t ndigits ndots
  ]
]

-- The loop behind a first blank.
unfoldable pub blanks : List ℕ → Scan
blanks [] = return0
blanks (c ∷ s) = let rest = blanks s in if c == 32 then rest else malformed

unfoldable pub scan_float : ℕ → List ℕ → Scan
scan_float dot [] = return0
scan_float dot (c ∷ s) =
    if c == 32
    then blanks s
    else if is_sign c
    then aftersign dot s (c ∷ []) 0 0
    else aftersign dot (c ∷ s) [] 0 0

-- What `strtod` gives for characters that end with NUL: the Float and how many of them `endconv` is behind.
pub record Strtod (F : Type 0) : Type 0 where
  pub r : F
  pub endconv : ℕ

-- `to_float` returns -1 and stores a Float, returns 0 and stores a Float, or an `assert` fails.
pub data Conversion (F : Type 0) : Type 0 where
  converted failed : F → Conversion F
  aborted : Conversion F

module _ {F : Type 0} (zero : F) (strtod : List ℕ → Strtod F) where
  unfoldable pub converted_text : ℕ → List ℕ → Conversion F
  converted_text u t =
      if leb (length t + 1) (u + 3) && (strtod t).endconv == length t
      then converted (strtod t).r
      else aborted

  unfoldable pub finish : ℕ → Scan → Conversion F
  finish u return0 = converted zero
  finish u malformed = failed zero
  finish u (text t) = converted_text u t

  -- The String is `c_addr u`, and the character that separates the fraction is `dot`.
  unfoldable pub to_float : ℕ → List ℕ → Conversion F
  to_float dot c_addr = finish (length c_addr) (scan_float dot c_addr)
