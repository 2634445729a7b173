-- ===== src/Strings/Order.antt =====
-- engine/support.c: `compare` and `capscompare` are the lexicographic order.
use gforth.Prelude.{
  ℕ, zero, suc, ◌+◌, ◌-◌, ◌<◌, ◌^◌, ◌≡◌, refl, ◌∙◌, sym, arith, min, false, Bool-cases, inl, inr,
  ltb, ◌==◌, if◌then◌else◌, List, [], ◌∷◌, length, map, length-map, sub_cell,
}
use gforth.Prelude.Int.{ℤ, pos, negsuc, sub_ℕ, signed}
use gforth.Strings.{
  memcmp, sign, or_lengths, shorter_of, compare, ascii_toupper, memcasecmp, clip_lengths,
  capscompare,
}

-- The dictionary order of strings.
pub data IsLess : List ℕ → List ℕ → Type 0 where
  ended : {d : ℕ} {s2 : List ℕ} → IsLess [] (d ∷ s2)
  lower : {c d : ℕ} {s1 s2 : List ℕ} → c < d → IsLess (c ∷ s1) (d ∷ s2)
  later : {c d : ℕ} {s1 s2 : List ℕ} → c ≡ d → IsLess s1 s2 → IsLess (c ∷ s1) (d ∷ s2)

-- What the three results of a comparison mean.
pub data Compared (s1 s2 : List ℕ) : ℤ → Type 0 where
  less : IsLess s1 s2 → Compared s1 s2 (negsuc 0)
  same : s1 ≡ s2 → Compared s1 s2 (pos 0)
  greater : IsLess s2 s1 → Compared s1 s2 (pos 1)

unfoldable pub dictionary : List ℕ → List ℕ → ℤ
dictionary [] [] = pos 0
dictionary [] (d ∷ s2) = negsuc 0
dictionary (c ∷ s1) [] = pos 1
dictionary (c ∷ s1) (d ∷ s2) =
    let rest = dictionary s1 s2 in if c == d then rest else if ltb c d then negsuc 0 else pos 1

Compared-cons :
    (c d : ℕ) (s1 s2 : List ℕ) (n : ℤ) → c ≡ d → Compared s1 s2 n → Compared (c ∷ s1) (d ∷ s2) n
Compared-cons c d s1 s2 _ e (less l) = less (later e l)
Compared-cons c d s1 s2 _ e (same h) = same (rw (e, h) refl)
Compared-cons c d s1 s2 _ e (greater l) = greater (later (sym e) l)

dictionary-Compared : (s1 s2 : List ℕ) → Compared s1 s2 (dictionary s1 s2)
unfolding dictionary
dictionary-Compared [] [] = same refl
dictionary-Compared [] (d ∷ s2) = less ended
dictionary-Compared (c ∷ s1) [] = greater ended
dictionary-Compared (c ∷ s1) (d ∷ s2) = elim (Bool-cases (c == d)) [
  | inl e ↦
      rw e
        (Compared-cons c d s1 s2 (dictionary s1 s2) (ground (arith, e)) (dictionary-Compared s1 s2))
  | inr ne ↦ elim (Bool-cases (ltb c d)) [
    | inl l ↦ rw (ne, l) (less (lower (ground (arith, l))))
    | inr g ↦ rw (ne, g) (greater (lower (ground (arith, ne, g))))
  ]
]

sub_ℕ_lt : (a b : ℕ) → a < b → sub_ℕ a b ≡ negsuc (b - a - 1)
sub_ℕ_lt a b h = ground arith

sub_ℕ_gt : (a b : ℕ) → b < a → sub_ℕ a b ≡ pos (suc (a - b - 1))
sub_ℕ_gt a b h = ground arith

sub_ℕ_self : (a : ℕ) → sub_ℕ a a ≡ pos 0
sub_ℕ_self a = ground arith

-- The difference of two lengths, as a Cell.
signed-sub_cell : (a b : ℕ) → a < 2 ^ 63 → b < 2 ^ 63 → signed (sub_cell a b) ≡ sub_ℕ a b
signed-sub_cell a b h h' = ground arith

-- How the lengths decide, when one string is the beginning of the other: `k` Chars are read.
lengths-dictionary :
    (s1 s2 : List ℕ) (k : ℕ)
    → zero ≡ min (length s1) (length s2)
    → k + length s1 < 2 ^ 63
    → k + length s2 < 2 ^ 63
    → sign (signed (sub_cell (k + length s1) (k + length s2))) ≡ dictionary s1 s2
unfolding dictionary sign
lengths-dictionary [] [] k e b1 b2 =
    rw (signed-sub_cell (k + 0) (k + 0) b1 b2, sub_ℕ_self (k + 0)) refl
lengths-dictionary [] (d ∷ s2) k e b1 b2 =
    let u2 = k + suc (length s2) in
    rw (signed-sub_cell (k + 0) u2 b1 b2, sub_ℕ_lt (k + 0) u2 (omega arith)) refl
lengths-dictionary (c ∷ s1) [] k e b1 b2 =
    let u1 = k + suc (length s1) in
    rw (signed-sub_cell u1 (k + 0) b1 b2, sub_ℕ_gt u1 (k + 0) (omega arith)) refl
lengths-dictionary (c ∷ s1) (d ∷ s2) k e b1 b2 = absurd (omega arith)

shift_length : {A : Type 0} (k : ℕ) (s : List A) → suc k + length s ≡ k + suc (length s)
shift_length k s = omega arith

-- Behind `k` equal Chars, the shorter rest is read.
memcmp-dictionary :
    (s1 s2 : List ℕ) (n k : ℕ)
    → n ≡ min (length s1) (length s2)
    → k + length s1 < 2 ^ 63
    → k + length s2 < 2 ^ 63
    → sign (or_lengths (memcmp s1 s2 n) (k + length s1) (k + length s2)) ≡ dictionary s1 s2
unfolding memcmp dictionary sign or_lengths
memcmp-dictionary s1 s2 zero k e b1 b2 = lengths-dictionary s1 s2 k e b1 b2
memcmp-dictionary [] s2 (suc n) k e b1 b2 = absurd (omega arith)
memcmp-dictionary (c ∷ s1) [] (suc n) k e b1 b2 = absurd (omega arith)
memcmp-dictionary (c ∷ s1) (d ∷ s2) (suc n) k e b1 b2 = elim (Bool-cases (c == d)) [
  | inl h ↦
      let rest = memcmp-dictionary s1 s2 n (suc k) (omega arith) (omega arith) (omega arith) in
      rw h (rw (shift_length k s1, shift_length k s2) at rest)
  | inr ne ↦ elim (Bool-cases (ltb c d)) [
    | inl l ↦ rw (ne, l, sub_ℕ_lt c d (ground arith)) refl
    | inr g ↦ rw (ne, g, sub_ℕ_gt c d (ground arith)) refl
  ]
]

memcmp_zero : (s1 s2 : List ℕ) (n : ℕ) → (if n == 0 then pos 0 else memcmp s1 s2 n) ≡ memcmp s1 s2 n
unfolding memcmp
memcmp_zero s1 s2 zero = refl
memcmp_zero s1 s2 (suc n) = let some_left : suc n == 0 ≡ false = ground arith in rw some_left refl

zero_add : (n : ℕ) → 0 + n ≡ n
zero_add n = omega arith

compare-dictionary :
    (s1 s2 : List ℕ) → length s1 < 2 ^ 63 → length s2 < 2 ^ 63 → compare s1 s2 ≡ dictionary s1 s2
unfolding compare
compare-dictionary s1 s2 b1 b2 =
    let n = shorter_of (length s1) (length s2) in
    let read = memcmp-dictionary s1 s2 n 0 (ground arith) (omega arith) (omega arith) in
    rw (memcmp_zero s1 s2 n) (rw (zero_add (length s1), zero_add (length s2)) at read)

-- The same loop on the Chars without case.
memcasecmp-dictionary :
    (s1 s2 : List ℕ) (n k : ℕ)
    → n ≡ min (length s1) (length s2)
    → k + length s1 < 2 ^ 63
    → k + length s2 < 2 ^ 63
    → clip_lengths (memcasecmp s1 s2 n) (k + length s1) (k + length s2)
      ≡ dictionary (map ascii_toupper s1) (map ascii_toupper s2)
unfolding memcasecmp dictionary clip_lengths
memcasecmp-dictionary s1 s2 zero k e b1 b2 =
    rw (length-map s1 ascii_toupper, length-map s2 ascii_toupper) at
      (lengths-dictionary (map ascii_toupper s1) (map ascii_toupper s2) k
        (omega (arith, e, length-map s1 ascii_toupper, length-map s2 ascii_toupper))
        (omega (arith, b1, length-map s1 ascii_toupper))
        (omega (arith, b2, length-map s2 ascii_toupper)))
memcasecmp-dictionary [] s2 (suc n) k e b1 b2 = absurd (omega arith)
memcasecmp-dictionary (c ∷ s1) [] (suc n) k e b1 b2 = absurd (omega arith)
memcasecmp-dictionary (c ∷ s1) (d ∷ s2) (suc n) k e b1 b2 =
    let c1 = ascii_toupper c in
    let d1 = ascii_toupper d in
    elim (Bool-cases (c1 == d1)) [
      | inl h ↦
          let rest =
            memcasecmp-dictionary s1 s2 n (suc k) (omega arith) (omega arith) (omega arith) in
          rw h (rw (shift_length k s1, shift_length k s2) at rest)
      | inr ne ↦ elim (Bool-cases (ltb c1 d1)) [ inl l ↦ rw (ne, l) refl | inr g ↦ rw (ne, g) refl ]
    ]

capscompare-dictionary :
    (s1 s2 : List ℕ)
    → length s1 < 2 ^ 63
    → length s2 < 2 ^ 63
    → capscompare s1 s2 ≡ dictionary (map ascii_toupper s1) (map ascii_toupper s2)
unfolding capscompare
capscompare-dictionary s1 s2 b1 b2 =
    let n = shorter_of (length s1) (length s2) in
    let read = memcasecmp-dictionary s1 s2 n 0 (ground arith) (omega arith) (omega arith) in
    rw (zero_add (length s1), zero_add (length s2)) at read

-- `compare` on strings shorter than 2^63: -1, 0 or 1 when the first string is before the second in
-- the dictionary order, equal to it, or behind it.
pub compare-Compared :
    (s1 s2 : List ℕ) → length s1 < 2 ^ 63 → length s2 < 2 ^ 63 → Compared s1 s2 (compare s1 s2)
compare-Compared s1 s2 b1 b2 = rw (compare-dictionary s1 s2 b1 b2) (dictionary-Compared s1 s2)

-- `capscompare` on strings shorter than 2^63 is `compare` on the strings in upper case.
pub capscompare-compare :
    (s1 s2 : List ℕ)
    → length s1 < 2 ^ 63
    → length s2 < 2 ^ 63
    → capscompare s1 s2 ≡ compare (map ascii_toupper s1) (map ascii_toupper s2)
capscompare-compare s1 s2 b1 b2 =
    capscompare-dictionary s1 s2 b1 b2
    ∙ sym (
        compare-dictionary (map ascii_toupper s1) (map ascii_toupper s2)
          (omega (arith, b1, length-map s1 ascii_toupper))
          (omega (arith, b2, length-map s2 ascii_toupper)))
