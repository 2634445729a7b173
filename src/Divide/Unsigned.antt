-- ===== src/Divide/Unsigned.antt =====
-- engine/support.c: `umdiv` divides.
use gforth.Prelude.{
  ℕ, zero, suc, ◌+◌, ◌-◌, ◌*◌, ◌/◌, ◌%◌, ◌^◌, ◌≤◌, ◌<◌, ◌≡◌, refl, ap, ◌∙◌, ◌⊎◌, dec_lt, arith,
  cell_mod, leb, ltb, ◌||◌, true, false, inl, inr, Bool-cases, if◌then◌else◌,
}
use native.Mathlib.Nat.{one-le-pow, pow-suc}
use gforth.Double.{Double, value, IsDouble}
use gforth.Divide.{Loop, subtract, shift, loop, umdiv, returns, throws, div_zero, result_range}

-- The partial remainder with its carry.
abbrev rest : Loop → ℕ
rest s = s.c * cell_mod + s.h

-- Before a subtraction with weight `p` (the power of 2 of the shifts to go): the low cell holds
-- `x` in its highest places, and the quotient has room.
record IsMid (v p x : ℕ) (s : Loop) : Type 0 where
  small : rest s < 2 * v
  cell : s.h < cell_mod
  low : s.l * p ≡ x * cell_mod
  below : x < p
  room : (s.q + (if leb v (rest s) then 1 else 0) + 1) * p ≤ cell_mod

le_times : (a p : ℕ) → 0 < p → a ≤ a * p
le_times a p h = grind arith

times_mono : (a b p : ℕ) → a ≤ b → a * p ≤ b * p
times_mono a b p h = grind arith

module _ (v : ℕ) (pos : 0 < v) (fits : v < cell_mod) where
  subtract-rest :
      (p x : ℕ) (s : Loop)
      → 0 < p
      → IsMid v p x s
      → ((subtract v s).h < v)
        × ((subtract v s).q * v + (subtract v s).h ≡ s.q * v + rest s)
        × ((subtract v s).l ≡ s.l)
        × (((subtract v s).q + 1) * p ≤ cell_mod)
  unfolding subtract
  subtract-rest p x s hp m = elim (Bool-cases (leb v (rest s))) [
    | inl e ↦
        let big : v ≤ rest s = ground arith in
        let taken : (ltb 0 s.c || leb v s.h) ≡ true = ground arith in
        let fresh : (s.q + 1 + 1) * p ≤ cell_mod = rw e at m.room in
        let step : (s.q + 1) % cell_mod ≡ s.q + 1 = omega (arith, le_times (s.q + 1 + 1) p hp) in
        let less : (s.h + cell_mod - v) % cell_mod ≡ rest s - v = ground arith in
        rw (taken, step, less) (ground arith, ground arith, refl, fresh)
    | inr e ↦
        let small : rest s < v = ground arith in
        let small_cell : s.h < v = omega arith in
        let kept : (s.q + 0 + 1) * p ≤ cell_mod = rw e at m.room in
        let none_left : (ltb 0 s.c || leb v s.h) ≡ false = ground arith in
        rw none_left (small_cell, ground arith, refl, omega (arith, kept))
  ]

  -- After a subtraction, with weight `p + p`: the state that the subtraction leaves.
  record IsCut (p x : ℕ) (s : Loop) : Type 0 where
    small : s.h < v
    low : s.l * (p + p) ≡ x * cell_mod
    below : x < p + p
    room : (s.q + 1) * (p + p) ≤ cell_mod

  abbrev next_room : Loop → ℕ
  next_room s = s.q + (if leb v (rest s) then 1 else 0) + 1

  abbrev shift_low : Loop → ℕ
  shift_low s = (s.l * 2) % cell_mod

  -- The bit that a shift takes from the low cell.
  abbrev bit_of : Loop → ℕ
  bit_of s = s.l / 2 ^ 63

  bit_bounds :
      (p x : ℕ) (s : Loop)
      → s.l < cell_mod
      → IsCut p x s
      → (bit_of s * p ≤ x) × (x - bit_of s * p < p) × (bit_of s < 2)
  bit_bounds p x s hl m = elim (Bool-cases (leb (2 ^ 63) s.l)) [
    | inl e ↦
        let one : bit_of s ≡ 1 = ground arith in
        let many = times_mono (2 ^ 63) s.l p (ground arith) in
        rw one (omega (arith, m.low), omega (arith, m.low, m.below), omega arith)
    | inr e ↦
        let zero_bit : bit_of s ≡ 0 = ground arith in
        let few = times_mono (s.l + 1) (2 ^ 63) p (ground arith) in
        rw zero_bit (omega arith, omega (arith, m.low), omega arith)
  ]

  shift-rest :
      (p x : ℕ) (s : Loop)
      → 0 < p
      → s.l < cell_mod
      → IsCut p x s
      → IsMid v p (x - bit_of s * p) (shift s)
        × (((shift s).q * v + rest (shift s)) * p + (x - bit_of s * p)
            ≡ (s.q * v + s.h) * (p + p) + x)
  unfolding shift
  shift-rest p x s hp hl m =
      let (fits_x, below, bit) = bit_bounds p x s hl m in
      let wide = le_times (s.q + 1) p hp in
      let double : (s.q * 2) % cell_mod ≡ s.q * 2 = omega (arith, m.room) in
      let total : rest (shift s) ≡ s.h * 2 + bit_of s = omega arith in
      let carried : shift_low s + bit_of s * cell_mod ≡ s.l * 2 = omega arith in
      let low : (shift_low s + bit_of s * cell_mod) * p ≡ s.l * 2 * p =
        ap (λ (t : ℕ). t * p) carried in
      let narrow : next_room (shift s) ≤ s.q * 2 + 2 = rw double (ground arith) in
      (
        record {
          small = rw total (omega arith);
          cell = omega arith;
          low = omega (arith, low, m.low, fits_x);
          below = below;
          room = omega (arith, times_mono (next_room (shift s)) (s.q * 2 + 2) p narrow, m.room);
        },
        rw (double, total) (omega (arith, fits_x)),
      )

  -- The loop with `i` shifts to go divides what is left of the dividend.
  loop_divides :
      (i x : ℕ) (s : Loop)
      → s.l < cell_mod
      → IsMid v (2 ^ i) x s
      → ((loop i v s).q * v + (loop i v s).h ≡ (s.q * v + rest s) * 2 ^ i + x)
        × ((loop i v s).h < v)
        × ((loop i v s).q < cell_mod)
  unfolding loop shift
  loop_divides zero x s hl m =
      let (a, b, c, d) = subtract-rest 1 x s (omega arith) m in
      (omega (arith, m.below), a, omega arith)
  loop_divides (suc i) x s hl m =
      let p = 2 ^ i in
      let pos_p : 0 < p = one-le-pow i 2 (omega arith) in
      let twice : 2 ^ suc i ≡ p + p = omega (arith, pow-suc 2 i) in
      let m' : IsMid v (p + p) x s = rw twice at m in
      let (small, value_eq, same, room) = subtract-rest (p + p) x s (omega arith) m' in
      let t = subtract v s in
      let cut : IsCut p x t = record {
        small = small;
        low = rw same m'.low;
        below = m'.below;
        room = room;
      } in
      let tl : t.l < cell_mod = rw same hl in
      let (mid, kept) = shift-rest p x t pos_p tl cut in
      let (eq, rem, bound) = loop_divides i (x - bit_of t * p) (shift t) (omega arith) mid in
      (rw (eq, kept, value_eq, twice), rem, bound)

-- `d` is a quotient in the low cell with the remainder in the high cell, for `n` divided by `v`.
pub record IsQuotient (n v : ℕ) (d : Double) : Type 0 where
  pub exact : d.lo * v + d.hi ≡ n
  pub remainder : d.hi < v
  pub fits : d.lo < cell_mod

pub umdiv-IsQuotient :
    (u : Double) (v : ℕ)
    → IsDouble u
    → v < cell_mod
    → u.hi < v
    → (d : Double) × (umdiv u v ≡ returns d) × IsQuotient (value u) v d
unfolding umdiv
umdiv-IsQuotient u v hu hv h =
    let start : Loop = record { c = 0; h = u.hi; l = u.lo; q = 0 } in
    let (eq, rem, bound) = loop_divides v (omega arith) hv 64 u.lo start hu.1 (record {
      small = omega arith;
      cell = hu.0;
      low = refl;
      below = hu.1;
      room = ground arith;
    }) in
    (
      record { hi = (loop 64 v start).h; lo = (loop 64 v start).q },
      ground arith,
      record { exact = eq ∙ omega arith; remainder = rem; fits = bound },
    )

-- `umdiv` on every branch. It throws on a zero divisor; it throws a range error exactly when the
-- quotient does not fit a cell; else it returns the quotient and the remainder.
pub umdiv_lem :
    (u : Double) (v : ℕ)
    → IsDouble u
    → v < cell_mod
    → ((v ≡ 0) × (umdiv u v ≡ throws div_zero))
      ⊎ ((0 < v) × (v * cell_mod ≤ value u) × (umdiv u v ≡ throws result_range))
      ⊎ ((value u < v * cell_mod)
          × ((d : Double) × (umdiv u v ≡ returns d) × IsQuotient (value u) v d))
umdiv_lem u v hu hv = elim (dec_lt u.hi v) [
  | yes h ↦ inr (inr (omega arith, umdiv-IsQuotient u v hu hv h))
  | no h ↦ elim (dec_lt 0 v) [
    | yes p ↦ inr (inl (p, omega arith, unfold umdiv in ground arith))
    | no p ↦ inl (omega arith, unfold umdiv in ground arith)
  ]
]
