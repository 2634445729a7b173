-- ===== src/Double/Products.antt =====
-- engine/dblsub.c: the products of two cells.
use gforth.Prelude.{
  ℕ, suc, ap, ◌+◌, ◌-◌, ◌*◌, ◌/◌, ◌%◌, ◌^◌, ◌≤◌, ◌<◌, ◌≡◌, ◌∙◌, ap₂, arith, inl, inr, true, false,
  Bool-cases, is_negative, ltb, cell_mod,
}
use gforth.Prelude.Bits.{bit_and_mask}
use gforth.Prelude.Int.{pos, negsuc, signed, signed_at, ◌*ℤ◌}
use gforth.Double.{value, IsDouble, flag, to_upper_half, ummul, mmul}

abbrev half_mod : ℕ
half_mod = 2 ^ 32

-- The carries in `ummul`, over the four products of halves.
carries :
    (ll lu ul uu : ℕ)
    → ll ≤ (half_mod - 1) * (half_mod - 1)
    → lu ≤ (half_mod - 1) * (half_mod - 1)
    → ul ≤ (half_mod - 1) * (half_mod - 1)
    → uu ≤ (half_mod - 1) * (half_mod - 1)
    → let m = (ul + lu) % cell_mod in
      let lo = (uu * cell_mod + (ul + lu) * half_mod + ll) % cell_mod in
      ((uu + to_upper_half (flag (ltb m ul)) + m / 2 ^ 32 + flag (ltb lo (to_upper_half m)))
            % cell_mod)
          * cell_mod
        + lo
      ≡ uu * cell_mod + (ul + lu) * half_mod + ll
carries ll lu ul uu h1 h2 h3 h4 = ground arith

half_bounds : (a : ℕ) → a < cell_mod → (a / 2 ^ 32 < half_mod) × (a % 2 ^ 32 < half_mod)
half_bounds a h = omega arith

product_bound : (x y : ℕ) → x < half_mod → y < half_mod → x * y ≤ (half_mod - 1) * (half_mod - 1)
product_bound x y hx hy = grind arith

expand :
    (ah al bh bl : ℕ)
    → (ah * half_mod + al) * (bh * half_mod + bl)
      ≡ ah * bh * cell_mod + (ah * bl + al * bh) * half_mod + al * bl
expand ah al bh bl = omega arith

-- `ummul` gives the whole product of two cells: no carry is lost.
pub value-ummul : (a b : ℕ) → a < cell_mod → b < cell_mod → value (ummul a b) ≡ a * b
unfolding ummul
value-ummul a b ha hb =
    let al = a % 2 ^ 32 in
    let ah = a / 2 ^ 32 in
    let bl = b % 2 ^ 32 in
    let bh = b / 2 ^ 32 in
    let p1 = product_bound al bl (omega arith) (omega arith) in
    let p2 = product_bound al bh (omega arith) (omega arith) in
    let p3 = product_bound ah bl (omega arith) (omega arith) in
    let p4 = product_bound ah bh (omega arith) (omega arith) in
    let whole : a * b ≡ ah * bh * cell_mod + (ah * bl + al * bh) * half_mod + al * bl =
      ap₂ ◌*◌ (omega arith) (omega arith) ∙ expand ah al bh bl in
    ground (
      arith,
      bit_and_mask 32 a,
      bit_and_mask 32 b,
      whole,
      carries (al * bl) (al * bh) (ah * bl) (ah * bh) p1 p2 p3 p4,
    )

-- A product with the distance from the modulus, which is the size of a negative cell.
distance_times : (a b : ℕ) → a < cell_mod → suc (cell_mod - a - 1) * b + a * b ≡ cell_mod * b
distance_times a b h =
    let e : (suc (cell_mod - a - 1) + a) * b ≡ cell_mod * b = ap (λ (t : ℕ). t * b) (omega arith) in
    omega (arith, e)

product_le : (a b m n : ℕ) → a ≤ m → b ≤ n → a * b ≤ m * n
product_le a b m n h k = grind arith

pub ummul-IsDouble : (a b : ℕ) → IsDouble (ummul a b)
unfolding ummul
ummul-IsDouble a b = omega arith

signed_neg : (a : ℕ) → is_negative a ≡ true → signed a ≡ negsuc (cell_mod - a - 1)
signed_neg a h = ground arith

signed_pos : (a : ℕ) → is_negative a ≡ false → signed a ≡ pos a
signed_pos a h = ground arith

-- `mmul` is the product of two signed cells, for all of them.
pub signed-mmul :
    (a b : ℕ)
    → a < cell_mod
    → b < cell_mod
    → signed_at (2 ^ 127) (value (mmul a b)) ≡ signed a *ℤ signed b
unfolding mmul ◌*ℤ◌
signed-mmul a b ha hb = elim (Bool-cases (is_negative a)) [
  | inl na ↦ elim (Bool-cases (is_negative b)) [
    | inl nb ↦
        rw (signed_neg a na, signed_neg b nb, na, nb)
          (ground (
            arith,
            value-ummul a b ha hb,
            ummul-IsDouble a b,
            distance_times a b ha,
            distance_times b (suc (cell_mod - a - 1)) hb,
            product_le (suc (cell_mod - a - 1)) (suc (cell_mod - b - 1)) (2 ^ 63) (2 ^ 63),
          ))
    | inr nb ↦
        rw (signed_neg a na, signed_pos b nb, na, nb)
          (ground (
            arith,
            value-ummul a b ha hb,
            distance_times a b ha,
            product_le (suc (cell_mod - a - 1)) b (2 ^ 63) (2 ^ 63),
          ))
  ]
  | inr na ↦ elim (Bool-cases (is_negative b)) [
    | inl nb ↦
        rw (signed_pos a na, signed_neg b nb, na, nb)
          (ground (
            arith,
            value-ummul a b ha hb,
            distance_times b a hb,
            product_le a (suc (cell_mod - b - 1)) (2 ^ 63) (2 ^ 63),
          ))
    | inr nb ↦
        rw (signed_pos a na, signed_pos b nb, na, nb)
          (ground (arith, value-ummul a b ha hb, product_le a b (2 ^ 63) (2 ^ 63)))
  ]
]
