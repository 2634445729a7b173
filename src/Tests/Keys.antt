-- ===== src/Tests/Keys.antt =====
-- engine/support.c: the key of a name at the end of a page and of the same name elsewhere.
use gforth.Prelude.{
  ℕ, ◌+◌, ◌%◌, ◌^◌, ◌<◌, ◌≡◌, refl, arith, ltb, if◌then◌else◌, true, false, List, [], ◌∷◌,
}
use gforth.Hashing.{crosses_page, hashkey2a, hashkey1}
use gforth.Hashing.Bits.{key_of, hashkey1_lem}
use gforth.Strings.{ascii_toupper}
use gforth.Hashing.Bytes.{SameBytes, SameKey, hashkey2a-SameKey}

-- "abc" stands at 4090 in the one and at 100 in the other.
abbrev page_end : ℕ → ℕ
page_end a = (a + 103) % 256

abbrev elsewhere : ℕ → ℕ
elsewhere a = if ltb a 103 then (a + 253) % 256 else 0

same_bytes : SameBytes page_end 4090 elsewhere 100 3
same_bytes i h = ground (arith, h)

two_ways : (crosses_page 4090 3 ≡ true) × (crosses_page 100 3 ≡ false)
unfolding crosses_page
two_ways = (refl, refl)

hashkey2a-SameKey_example : SameKey (hashkey2a page_end 4090 3) (hashkey2a elsewhere 100 3)
hashkey2a-SameKey_example =
    hashkey2a-SameKey page_end elsewhere 4090 100 3 same_bytes (λ i. ground arith)
      (λ i. ground arith) (omega arith) (omega arith)

-- "dup" and "DUp"
abbrev lower_dup : List ℕ
lower_dup = 100 ∷ 117 ∷ 112 ∷ []

abbrev upper_dup : List ℕ
upper_dup = 68 ∷ 85 ∷ 112 ∷ []

hashkey1_lem_example :
    (hashkey1 ascii_toupper lower_dup 10 ≡ key_of ascii_toupper 10 lower_dup 0)
    × (hashkey1 ascii_toupper lower_dup 10 ≡ hashkey1 ascii_toupper upper_dup 10)
    × (hashkey1 ascii_toupper lower_dup 10 < 2 ^ 10)
unfolding ascii_toupper
hashkey1_lem_example =
    hashkey1_lem ascii_toupper lower_dup upper_dup 10 (omega arith) (omega arith) refl
