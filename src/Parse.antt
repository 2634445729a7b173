-- ===== src/Parse.antt =====
-- engine/support.c: `parse_white`. The C library's `isspace` is a parameter. The result gives the
-- offset of the word from `c_addr1` in place of its address.
pub mod White
use gforth.Prelude.{
  ℕ, zero, suc, Bool, true, false, not, ltb, if◌then◌else◌, List, [], ◌∷◌, length, drop,
}

-- How many Chars from the start on have the property: the rounds of `while (c_addr1<endp && …)`.
unfoldable pub leading : (ℕ → Bool) → List ℕ → ℕ
leading test [] = 0
leading test (c ∷ s) = let rest = leading test s in if test c then suc rest else 0

-- `struct Cellpair`
pub record Word : Type 0 where
  pub n1 : ℕ
  pub n2 : ℕ

unfoldable pub parse_white : (ℕ → Bool) → List ℕ → Word
parse_white isspace s =
    let white = leading isspace s in
    if ltb white (length s)
    then record { n1 = white; n2 = leading (λ c. not (isspace c)) (drop white s) }
    else record { n1 = white; n2 = 0 }
