-- ===== src/Hashing/Bits.antt =====
-- engine/support.c: `hashkey1` stays within its bits and forgets the case of letters.
use gforth.Prelude.{
  zero, suc, ◌+◌, ◌-◌, ◌*◌, ◌/◌, ◌%◌, ◌≤◌, ◌∙◌, ◌↔◌, sym, ap₂, bit_or, bit_xor, cell_mod, Bool,
  true, ◌&&◌, ltb, ℕ, ◌<◌, ◌^◌, ◌≡◌, refl, ap, arith, List, [], ◌∷◌, map, get_or, drop, length,
}
use native.Mathlib.Nat.{
  mod-lt, one-le-pow, pow-suc, div-add-mod', mul-add-mod_self_right, div-lt_iff_lt-mul,
  mul-le-mul_right, mul-le-mul, pow-le-pow_right, mod-eq_of_lt,
}
use gforth.Prelude.Bits.{bit_and_mask, bit_xor_split, bit_or_join}
use gforth.Hashing.{rot_values, rotate_in, hash_chars, hashkey1}

two_pow_pos : (k : ℕ) → 0 < 2 ^ k
two_pow_pos k = one-le-pow k 2 (omega arith)

rotate_in_bound : (toupper : ℕ → ℕ) (ubits ukey c : ℕ) → rotate_in toupper ubits ukey c < 2 ^ ubits
unfolding rotate_in
rotate_in_bound toupper ubits ukey c = rw (bit_and_mask ubits _) (mod-lt _ (two_pow_pos ubits))

hash_chars_bound :
    (toupper : ℕ → ℕ) (ubits : ℕ) (s : List ℕ) (ukey : ℕ)
    → ukey < 2 ^ ubits
    → hash_chars toupper ubits s ukey < 2 ^ ubits
unfolding hash_chars
hash_chars_bound toupper ubits [] ukey h = h
hash_chars_bound toupper ubits (c ∷ s) ukey h =
    hash_chars_bound toupper ubits s (rotate_in toupper ubits ukey c)
      (rotate_in_bound toupper ubits ukey c)

hash_chars_same :
    (toupper : ℕ → ℕ) (ubits : ℕ) (s s' : List ℕ) (ukey : ℕ)
    → map toupper s ≡ map toupper s'
    → hash_chars toupper ubits s ukey ≡ hash_chars toupper ubits s' ukey
unfolding hash_chars rotate_in
hash_chars_same toupper ubits [] [] ukey e = refl
hash_chars_same toupper ubits [] (c' ∷ s') ukey e = absurd (omega (arith, ap length e))
hash_chars_same toupper ubits (c ∷ s) [] ukey e = absurd (omega (arith, ap length e))
hash_chars_same toupper ubits (c ∷ s) (c' ∷ s') ukey e =
    let first : toupper c ≡ toupper c' = ap (λ l. get_or l 0 0) e in
    rw first (hash_chars_same toupper ubits s s' _ (ap (drop 1) e))

-- A rotation to the left by `rot` of `ubits` bits: the highest `rot` bits go to the lowest places.
unfoldable pub rotated : ℕ → ℕ → ℕ → ℕ
rotated ubits rot key = key % 2 ^ (ubits - rot) * 2 ^ rot + key / 2 ^ (ubits - rot)

-- The key of the characters: the old key rotated, and the character in upper case by exclusive or.
unfoldable pub key_of : (ℕ → ℕ) → ℕ → List ℕ → ℕ → ℕ
key_of toupper ubits [] key = key
key_of toupper ubits (c ∷ s) key =
    key_of toupper ubits s
      (bit_xor (rotated ubits (get_or rot_values ubits 0) key) (toupper c) % 2 ^ ubits)

-- Each rotation is by fewer bits than there are, and by 7 at most.
unfoldable rotations : ℕ → List ℕ → Bool
rotations i [] = true
rotations i (rot ∷ rots) = (ltb rot i && ltb rot 8) && rotations (suc i) rots

rotations_at :
    (rots : List ℕ) (i j : ℕ)
    → rotations i rots ≡ true
    → j < length rots
    → (get_or rots j 0 < i + j) × (get_or rots j 0 < 8)
unfolding rotations
rotations_at [] i j all h = absurd (omega (arith, h))
rotations_at (rot ∷ rots) i zero all h = (ground (arith, all), ground (arith, all))
rotations_at (rot ∷ rots) i (suc j) all h =
    let (below, small) = rotations_at rots (suc i) j (ground (arith, all)) (omega (arith, h)) in
    (omega (arith, below), small)

rot_values_at :
    (ubits : ℕ)
    → 1 ≤ ubits
    → ubits ≤ 30
    → (get_or rot_values ubits 0 < ubits) × (get_or rot_values ubits 0 < 8)
unfolding rotations
rot_values_at zero h k = absurd (omega (arith, h))
rot_values_at (suc n) h k =
    let (below, small) = rotations_at (drop 1 rot_values) 1 n refl (omega (arith, k)) in
    (omega (arith, below), small)

pow_sum : (a b n : ℕ) → a + b ≡ n → 2 ^ a * 2 ^ b ≡ 2 ^ n
pow_sum a zero n e = let same : a ≡ n = omega (arith, e) in omega (arith, ap (λ k. 2 ^ k) same)
pow_sum a (suc b) zero e = absurd (omega (arith, e))
pow_sum a (suc b) (suc n) e =
    omega (arith, ap (λ t. 2 ^ a * t) (pow-suc 2 b), pow-suc 2 n, pow_sum a b n (omega (arith, e)))

-- An exclusive or modulo a power of two forgets the higher places of its operand.
xor_mod :
    (w q low c : ℕ) → low < 2 ^ w → bit_xor (q * 2 ^ w + low) c % 2 ^ w ≡ bit_xor low c % 2 ^ w
xor_mod w q low c h =
    let m = 2 ^ w in
    let inside = mod-lt c (two_pow_pos w) in
    let whole = div-add-mod' c m in
    let zero_high : 0 * m + low ≡ low = omega arith in
    let high = bit_xor_split w q low (c / m) (c % m) h inside in
    let flat = bit_xor_split w 0 low (c / m) (c % m) h inside in
    ap (λ x. bit_xor (q * m + low) x % m) (sym whole)
    ∙ ap (λ x. x % m) high
    ∙ mul-add-mod_self_right (bit_xor q (c / m)) m (bit_xor low (c % m))
    ∙ sym (mul-add-mod_self_right (bit_xor 0 (c / m)) m (bit_xor low (c % m)))
    ∙ ap (λ x. x % m) (sym flat)
    ∙ ap₂ (λ x y. bit_xor x y % m) zero_high whole

module _ (ubits rot : ℕ) (some_left : rot < ubits) (small : rot < 8) (narrow : ubits ≤ 30) (key : ℕ)
    (bound : key < 2 ^ ubits) where
  abbrev half : ℕ
  half = 2 ^ (ubits - rot)

  halves : half * 2 ^ rot ≡ 2 ^ ubits
  halves = pow_sum (ubits - rot) rot ubits (omega (arith, some_left))

  top_small : key / half < 2 ^ rot
  top_small =
      let iff : (key / half < 2 ^ rot) ↔ (key < 2 ^ rot * half) =
        div-lt_iff_lt-mul (two_pow_pos (ubits - rot)) in
      iff.1 (omega (arith, bound, halves))

  rotated_bound : rotated ubits rot key < 2 ^ ubits
  unfolding rotated
  rotated_bound =
      let inside = mod-lt key (two_pow_pos (ubits - rot)) in
      omega (arith, top_small, halves, mul-le-mul_right (2 ^ rot) inside)

  -- The shifts of `hashkey1`: the old highest bits are above those of the rotated key.
  shifted :
      bit_or (key * 2 ^ rot % cell_mod) (key / half)
      ≡ (key / half) * 2 ^ ubits + rotated ubits rot key
  unfolding rotated
  shifted =
      let low_key : 2 ^ ubits ≤ 2 ^ 30 = pow-le-pow_right (omega arith) narrow in
      let small_rot : rot ≤ 7 = omega (arith, small) in
      let low_rot : 2 ^ rot ≤ 2 ^ 7 = pow-le-pow_right (omega arith) small_rot in
      let low : key ≤ 2 ^ 30 = omega (arith, bound, low_key) in
      let product : key * 2 ^ rot ≤ 2 ^ 30 * 2 ^ 7 = mul-le-mul low low_rot in
      let kept : key * 2 ^ rot % cell_mod ≡ key * 2 ^ rot = mod-eq_of_lt (omega (arith, product)) in
      let whole = div-add-mod' key half in
      rw kept (
        bit_or_join rot key (key / half) top_small
        ∙ omega (arith, ap (λ t. t * 2 ^ rot) whole, ap (λ t. (key / half) * t) halves))

  rotate_in_lem :
      (toupper : ℕ → ℕ) (c : ℕ)
      → get_or rot_values ubits 0 ≡ rot
      → rotate_in toupper ubits key c ≡ bit_xor (rotated ubits rot key) (toupper c) % 2 ^ ubits
  unfolding rotate_in
  rotate_in_lem toupper c at =
      rw (at, shifted, bit_and_mask ubits _)
        (xor_mod ubits (key / half) (rotated ubits rot key) (toupper c) rotated_bound)

module _ (toupper : ℕ → ℕ) (ubits : ℕ) (some_bits : 1 ≤ ubits) (narrow : ubits ≤ 30) where
  hash_chars-key_of :
      (s : List ℕ) (key : ℕ)
      → key < 2 ^ ubits
      → hash_chars toupper ubits s key ≡ key_of toupper ubits s key
  unfolding hash_chars key_of
  hash_chars-key_of [] key bound = refl
  hash_chars-key_of (c ∷ s) key bound =
      let (below, small) = rot_values_at ubits some_bits narrow in
      let next =
        rotate_in_lem ubits (get_or rot_values ubits 0) below small narrow key bound toupper c
          refl in
      hash_chars-key_of s (rotate_in toupper ubits key c) (rotate_in_bound toupper ubits key c)
      ∙ ap (key_of toupper ubits s) next

-- `hashkey1` for 1 to 30 bits, whatever `toupper` is: the key starts at 0, and each character rotates it
-- by `rot_values[ubits]` bits within its `ubits` bits, the highest bits going to the lowest places, and
-- joins it in upper case by exclusive or, modulo `2 ^ ubits`; so two strings with the same upper case
-- have the same key, and the key is below `2 ^ ubits`.
pub hashkey1_lem :
    (toupper : ℕ → ℕ) (s s' : List ℕ) (ubits : ℕ)
    → 1 ≤ ubits
    → ubits ≤ 30
    → map toupper s ≡ map toupper s'
    → (hashkey1 toupper s ubits ≡ key_of toupper ubits s 0)
      × (hashkey1 toupper s ubits ≡ hashkey1 toupper s' ubits)
      × (hashkey1 toupper s ubits < 2 ^ ubits)
unfolding hashkey1
hashkey1_lem toupper s s' ubits some_bits narrow e = (
  hash_chars-key_of toupper ubits some_bits narrow s 0 (two_pow_pos ubits),
  hash_chars_same toupper ubits s s' 0 e,
  hash_chars_bound toupper ubits s 0 (two_pow_pos ubits),
)
