-- ===== src/Memory.antt =====
-- engine/support.c: `cmove` and `cmove_up`; engine/memmove.c. The memory is a list of bytes, an
-- address its index; a write out of bounds is lost.
pub mod Copies
use gforth.Prelude.{ℕ, zero, suc, ◌+◌, ltb, if◌then◌else◌, List, get_or, set}

-- The byte at an address.
abbrev pub byte : List ℕ → ℕ → ℕ
byte mem a = get_or mem a 0

-- From the lowest address on.
unfoldable pub cmove : List ℕ → ℕ → ℕ → ℕ → List ℕ
cmove mem c_from c_to zero = mem
cmove mem c_from c_to (suc u) = cmove (set mem c_to (byte mem c_from)) (c_from + 1) (c_to + 1) u

-- From the highest address down.
unfoldable pub cmove_up : List ℕ → ℕ → ℕ → ℕ → List ℕ
cmove_up mem c_from c_to zero = mem
cmove_up mem c_from c_to (suc u) =
    cmove_up (set mem (c_to + u) (byte mem (c_from + u))) c_from c_to u

-- Its two loops are those of `cmove` and `cmove_up`, with an index in place of the pointers.
unfoldable pub memmove : List ℕ → ℕ → ℕ → ℕ → List ℕ
memmove mem dest src n = if ltb dest src then cmove mem src dest n else cmove_up mem src dest n
