-- ===== src/Hashing.antt =====
-- engine/support.c: the keys of a name, `hashkey2a` and `hashkey1`, on a 64-bit machine with the lowest byte first.
-- The memory gives a byte for each address. `none` is a loop that would not end.
pub mod Bytes
pub mod Bits
use gforth.Prelude.{
  ℕ, zero, suc, ◌+◌, ◌-◌, ◌*◌, ◌/◌, ◌%◌, ◌^◌, bit_and, bit_or, bit_xor, Bool, true, false, not, ltb,
  leb, ◌==◌, if◌then◌else◌, Option, none, some, List, [], ◌∷◌, get_or, cell_mod, not_cell, mul_cell,
}
use mathlib.Core.Option as Option

-- The number that the `k` bytes from `a` on are.
unfoldable pub value : (ℕ → ℕ) → ℕ → ℕ → ℕ
value mem a zero = 0
value mem a (suc k) = mem a + 256 * value mem (a + 1) k

-- `memmove(&h,a,w)`
unfoldable pub load : (ℕ → ℕ) → ℕ → ℕ
load mem a = value mem a 8

-- `rotl(x,rot1)`, where `rot1` is 31.
unfoldable pub rotl : ℕ → ℕ
rotl x = bit_or ((x * 2 ^ 31) % cell_mod) (x / 2 ^ (64 - 31))

abbrev pub k0 : ℕ
k0 = 13136247130826648277

abbrev pub upmask : ℕ
upmask = 2314885530818453536

-- `h |= upmask & ~(h >> 2)`
unfoldable pub caseless : ℕ → ℕ
caseless h = bit_or h (bit_and upmask (not_cell (h / 4)))

-- `h = (h^h1)*k0; h = rotl(h,rot1);`
unfoldable pub mix : ℕ → ℕ → ℕ
mix h h1 = rotl (mul_cell (bit_xor h h1) k0)

-- Whether the access to a cell at `s` would reach into the next page.
unfoldable pub crosses_page : ℕ → ℕ → Bool
crosses_page s n = not (bit_and (bit_xor (s + n - 1) (s + 8 - 1)) (cell_mod - 4096) == 0)

-- The bytes of a string of at most 8 bytes, in a cell.
unfoldable pub short_string : (ℕ → ℕ) → ℕ → ℕ → ℕ
short_string mem s n =
    let erase = (8 - n) * 8 in
    if crosses_page s n
    then load mem (s + n - 8) / 2 ^ erase
    else bit_and (load mem s) ((cell_mod - 1) / 2 ^ erase)

-- The `do` loop, at most `fuel` rounds of it.
unfoldable pub mix_cells : (ℕ → ℕ) → ℕ → ℕ → ℕ → ℕ → Option ℕ
mix_cells mem zero end p h = none
mix_cells mem (suc fuel) end p h =
    let h' = mix h (caseless (load mem p)) in
    let rest = mix_cells mem fuel end (p + 8) h' in if ltb (p + 8) end then rest else some h'

unfoldable pub hashkey2a : (ℕ → ℕ) → ℕ → ℕ → Option ℕ
hashkey2a mem s n =
    if leb n 8
    then (if n == 0 then some n else some (mul_cell (mix (caseless (short_string mem s n)) n) k0))
    else Option.map (λ h. mul_cell (mix h (caseless (load mem (s + n - 8)))) k0)
        (mix_cells mem n (s + n - 8) s n)

-- `rot_values` of `hashkey1`.
abbrev pub rot_values : List ℕ
rot_values =
    5 ∷ 0 ∷ 1 ∷ 2 ∷ 3 ∷ 4 ∷ 5 ∷ 5 ∷ 5 ∷ 5 ∷ 3 ∷ 5 ∷ 5 ∷ 5 ∷ 5 ∷ 7 ∷ 5 ∷ 5 ∷ 5 ∷ 5 ∷ 7 ∷ 5 ∷ 5 ∷ 5
    ∷ 5 ∷ 6 ∷ 5 ∷ 5 ∷ 5 ∷ 5 ∷ 7 ∷ 5 ∷ 5 ∷ []

-- One round of the loop, for `ubits` from 1 to 30: `toupper` is that of the C library.
unfoldable pub rotate_in : (ℕ → ℕ) → ℕ → ℕ → ℕ → ℕ
rotate_in toupper ubits ukey c =
    let rot = get_or rot_values ubits 0 in
    bit_and (bit_xor (bit_or (ukey * 2 ^ rot % cell_mod) (ukey / 2 ^ (ubits - rot))) (toupper c))
      (2 ^ ubits - 1)

unfoldable pub hash_chars : (ℕ → ℕ) → ℕ → List ℕ → ℕ → ℕ
hash_chars toupper ubits [] ukey = ukey
hash_chars toupper ubits (c ∷ s) ukey = hash_chars toupper ubits s (rotate_in toupper ubits ukey c)

-- For `ubits` from 1 to 30, where each shift is by fewer bits than its operand has.
unfoldable pub hashkey1 : (ℕ → ℕ) → List ℕ → ℕ → ℕ
hashkey1 toupper s ubits = hash_chars toupper ubits s 0
