-- ===== src/Divide.antt =====
-- engine/support.c: the mixed division of a double by a cell, in the configuration without a
-- native double-cell type (BUGGY_LONG_LONG) and without `udiv_qrnnd`: the shift-and-subtract
-- loop, with HIGHBIT of engine/forth.h. A throw is a value, since it leaves the function.
pub mod Signs
pub mod Equations
pub mod Unsigned
pub mod Symmetric
pub mod Floored
use gforth.Prelude.{
  ℕ, zero, suc, ◌+◌, ◌*◌, ◌/◌, ◌%◌, ◌^◌, Bool, true, false, ◌||◌, ◌&&◌, not, leb, ltb, ◌==◌,
  if◌then◌else◌, bit_xor, cell_mod, add_cell, sub_cell, neg_cell, is_negative,
}
use gforth.Double.{Double, dnegate}

-- The throw codes BALL_DIVZERO and BALL_RESULTRANGE.
pub data Ball : Type 0 where
  div_zero result_range : Ball

pub data Outcome {ℓ} (A : Type ℓ) : Type ℓ where
  returns : A → Outcome A
  throws : Ball → Outcome A

infixl 5 ◌>>=◌
abbrev pub ◌>>=◌ {ℓ κ} : {A : Type ℓ} {B : Type κ} → Outcome A → (A → Outcome B) → Outcome B
returns a >>= f = f a
throws e >>= f = throws e

abbrev pub highbit : ℕ → ℕ
highbit x = x / 2 ^ 63

-- The variables of the loop: the carry, the two cells of the dividend, and the quotient so far.
pub record Loop : Type 0 where
  pub c : ℕ
  pub h : ℕ
  pub l : ℕ
  pub q : ℕ

-- `if (c || h >= v) { q++; h -= v; }`
unfoldable pub subtract : ℕ → Loop → Loop
subtract v s =
    if ltb 0 s.c || leb v s.h then record s { h = sub_cell s.h v; q = add_cell s.q 1 } else s

-- `c = HIGHBIT(h); h <<= 1; h += HIGHBIT(l); l <<= 1; q <<= 1;`
unfoldable pub shift : Loop → Loop
shift s = record {
  c = highbit s.h;
  h = add_cell ((s.h * 2) % cell_mod) (highbit s.l);
  l = (s.l * 2) % cell_mod;
  q = (s.q * 2) % cell_mod;
}

-- The loop with `i` shifts to go: it ends after a subtraction, when `--i < 0`.
unfoldable pub loop : ℕ → ℕ → Loop → Loop
loop zero v s = subtract v s
loop (suc i) v s = loop i v (shift (subtract v s))

-- The quotient is the low cell of the result and the remainder is the high one.
unfoldable pub umdiv : Double → ℕ → Outcome Double
umdiv u v =
    if v == 0
    then throws div_zero
    else if leb v u.hi
    then throws result_range
    else let s = loop 64 v (record { c = 0; h = u.hi; l = u.lo; q = 0 }) in
      returns (record { hi = s.h; lo = s.q })

-- The sign of `a ^ b`.
abbrev pub signs_differ : ℕ → ℕ → Bool
signs_differ a b = is_negative (bit_xor a b)

-- What `smdiv` does with the result of `umdiv`, from the signs of the operands.
unfoldable pub symmetric_result : ℕ → ℕ → Double → Outcome Double
symmetric_result h denom ures =
    let q = if signs_differ h denom then neg_cell ures.lo else ures.lo in
    let bad = if signs_differ h denom then ltb 0 q && not (is_negative q) else is_negative q in
    let r = if is_negative h then neg_cell ures.hi else ures.hi in
    if bad then throws result_range else returns (record { hi = r; lo = q })

unfoldable pub smdiv : Double → ℕ → Outcome Double
smdiv num denom =
    let num' = if is_negative num.hi then dnegate num else num in
    let denom' = if is_negative denom then neg_cell denom else denom in
    umdiv num' denom' >>= symmetric_result num.hi denom

-- What `fmdiv` does with the result of `umdiv`.
unfoldable pub floored_result : ℕ → ℕ → Double → Outcome Double
floored_result numsign denomsign ures =
    let r = if is_negative denomsign then neg_cell ures.hi else ures.hi in
    if signs_differ numsign ures.lo
    then throws result_range
    else returns (record { hi = r; lo = ures.lo })

unfoldable pub fmdiv : Double → ℕ → Outcome Double
fmdiv num denom =
    let denom' = if is_negative denom then neg_cell denom else denom in
    let num' = if is_negative denom then dnegate num else num in
    let num'' =
      if is_negative num'.hi then record num' { hi = add_cell num'.hi denom' } else num' in
    umdiv num'' denom' >>= floored_result num'.hi denom
