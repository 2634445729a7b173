-- ===== src/Strings.antt =====
-- engine/support.c: comparing and finding names; engine/memcmp.c. A string is the list of its
-- Chars, the length of the list being the `u` that goes with the address.
pub mod Order
pub mod Names
use gforth.Prelude.{
  ℕ, zero, suc, ◌+◌, ◌-◌, Bool, true, false, not, ◌&&◌, ltb, leb, ◌==◌, if◌then◌else◌, List, [],
  ◌∷◌, Option, none, some, length, sub_cell,
}
use gforth.Prelude.Int.{ℤ, pos, negsuc, sub_ℕ, signed}

-- `memcmp` of engine/memcmp.c, which reads no string beyond its end here.
unfoldable pub memcmp : List ℕ → List ℕ → ℕ → ℤ
memcmp s1 s2 zero = pos 0
memcmp (c ∷ s1) (d ∷ s2) (suc n) = let rest = memcmp s1 s2 n in if c == d then rest else sub_ℕ c d
memcmp s1 s2 (suc n) = pos 0

-- `if (n<0) n = -1; else if (n>0) n = 1;`
unfoldable pub sign : ℤ → ℤ
sign (pos zero) = pos 0
sign (pos (suc n)) = pos 1
sign (negsuc n) = negsuc 0

-- `if (n==0) n = u1-u2;` where the difference of two UCells becomes a Cell.
unfoldable pub or_lengths : ℤ → ℕ → ℕ → ℤ
or_lengths (pos zero) u1 u2 = signed (sub_cell u1 u2)
or_lengths (pos (suc n)) u1 u2 = pos (suc n)
or_lengths (negsuc n) u1 u2 = negsuc n

-- `u1<u2 ? u1 : u2`
abbrev pub shorter_of : ℕ → ℕ → ℕ
shorter_of u1 u2 = if ltb u1 u2 then u1 else u2

unfoldable pub compare : List ℕ → List ℕ → ℤ
compare s1 s2 =
    let u1 = length s1 in
    let u2 = length s2 in
    let umin = shorter_of u1 u2 in
    sign (or_lengths (if umin == 0 then pos 0 else memcmp s1 s2 umin) u1 u2)

unfoldable pub ascii_toupper : ℕ → ℕ
ascii_toupper c = if leb 97 c && leb c 122 then c - 32 else c

unfoldable pub memcasecmp : List ℕ → List ℕ → ℕ → ℤ
memcasecmp s1 s2 zero = pos 0
memcasecmp (c ∷ s1) (d ∷ s2) (suc n) =
    let c1 = ascii_toupper c in
    let c2 = ascii_toupper d in
    let rest = memcasecmp s1 s2 n in
    if not (c1 == c2) then (if ltb c1 c2 then negsuc 0 else pos 1) else rest
memcasecmp s1 s2 (suc n) = pos 0

unfoldable pub clip_lengths : ℤ → ℕ → ℕ → ℤ
clip_lengths (pos zero) u1 u2 = sign (signed (sub_cell u1 u2))
clip_lengths (pos (suc n)) u1 u2 = pos (suc n)
clip_lengths (negsuc n) u1 u2 = negsuc n

unfoldable pub capscompare : List ℕ → List ℕ → ℤ
capscompare s1 s2 =
    let u1 = length s1 in
    let u2 = length s2 in clip_lengths (memcasecmp s1 s2 (shorter_of u1 u2)) u1 u2

unfoldable pub is_zero : ℤ → Bool
is_zero (pos n) = n == 0
is_zero (negsuc n) = false

-- `struct Longname`: where it is and its name; the words of a wordlist or of one hash chain are a list of
-- them.
pub record Longname : Type 0 where
  pub address : ℕ
  pub name : List ℕ

unfoldable pub listlfind : List ℕ → List Longname → Option Longname
listlfind s [] = none
listlfind s (w ∷ ws) =
    let rest = listlfind s ws in
    if length w.name == length s && is_zero (memcasecmp s w.name (length s)) then some w else rest

-- `tablelfind`, where the case of the letters matters.
unfoldable pub tablelfind : List ℕ → List Longname → Option Longname
tablelfind s [] = none
tablelfind s (w ∷ ws) =
    let rest = tablelfind s ws in
    if length w.name == length s && is_zero (memcmp s w.name (length s)) then some w else rest
