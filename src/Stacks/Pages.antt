-- ===== src/Stacks/Pages.antt =====
-- engine/main.c: `wholepage` and `NEXTPAGE` round to whole pages.
use gforth.Prelude.{
  ℕ, suc, ◌+◌, ◌-◌, ◌*◌, ◌/◌, ◌%◌, ◌^◌, ◌≤◌, ◌<◌, ◌≡◌, ◌↔◌, ◌∙◌, sym, ap, ap₂, subst, arith,
  bit_and, cell_mod, add_cell, sub_cell, neg_cell, not_cell,
}
use gforth.Prelude.Bits.{bit_and_high, bit_and_mask}
use gforth.Stacks.{wholepage, nextpage, nextpage2}
use native.Mathlib.Nat.{
  mod-lt, one-le-pow, div-add-mod', pow-suc, mul-le-mul_right, div-lt_iff_lt-mul, div-eq_of_lt,
  mod-eq_of_lt, add-mul-div_right,
}

-- The size of a page is a power of two, and smaller than the address space.
pub record IsPagesize (p : ℕ) : Type 0 where
  pub j : ℕ
  pub k : ℕ
  pub power : p ≡ 2 ^ k
  pub pages : 2 ^ suc j * p ≡ cell_mod

-- The number of pages that so many bytes need.
abbrev pub pages : ℕ → ℕ → ℕ
pages p n = (n + p - 1) / p

mask_power :
    (j k x : ℕ)
    → 2 ^ suc j * 2 ^ k ≡ cell_mod
    → x < cell_mod
    → bit_and x (cell_mod - 2 ^ k) ≡ x / 2 ^ k * 2 ^ k
mask_power j k x all bound =
    let one = one-le-pow k 2 (omega arith) in
    let whole : x / 2 ^ k * 2 ^ k + x % 2 ^ k ≡ x = div-add-mod' x (2 ^ k) in
    let up : (2 ^ suc j - 1) + 1 ≡ 2 ^ suc j = omega (arith, one-le-pow (suc j) 2 (omega arith)) in
    let mask : (2 ^ suc j - 1) * 2 ^ k ≡ cell_mod - 2 ^ k =
      omega (arith, all, ap (λ t. t * 2 ^ k) up) in
    let below : x / 2 ^ k < 2 ^ suc j =
      let iff : (x / 2 ^ k < 2 ^ suc j) ↔ (x < 2 ^ suc j * 2 ^ k) = div-lt_iff_lt-mul one in
      iff.1 (omega (arith, all, bound)) in
    ap₂ bit_and (sym whole) (sym mask)
    ∙ bit_and_high k (x / 2 ^ k) (x % 2 ^ k) (2 ^ suc j - 1) (mod-lt x one)
    ∙ ap (λ q. q * 2 ^ k) (bit_and_mask (suc j) (x / 2 ^ k) ∙ mod-eq_of_lt below)

module _ (p : ℕ) (is : IsPagesize p) where
  pub pagesize_pos : 0 < p
  pagesize_pos = omega (arith, is.power, one-le-pow is.k 2)

  pub pagesize_lt : 2 * p ≤ cell_mod
  pagesize_lt =
      let some = one-le-pow is.j 2 (omega arith) in
      omega (arith, is.pages, ap (λ t. t * p) (pow-suc 2 is.j), mul-le-mul_right p some)

  -- The mask of the addresses of pages.
  mask-pages : (x : ℕ) → x < cell_mod → bit_and x (cell_mod - p) ≡ x / p * p
  mask-pages x bound =
      subst (λ q. bit_and x (cell_mod - q) ≡ x / q * q) (sym is.power)
        (mask_power is.j is.k x (ap (λ q. 2 ^ suc is.j * q) (sym is.power) ∙ is.pages) bound)

  pub wholepage-pages : (n : ℕ) → n + p < cell_mod → wholepage p n ≡ pages p n * p
  unfolding wholepage
  wholepage-pages n bound =
      let pos = pagesize_pos in
      let x : sub_cell (add_cell n p) 1 ≡ n + p - 1 = omega (arith, pos, bound) in
      let mask : not_cell (sub_cell p 1) ≡ cell_mod - p = omega (arith, pos, pagesize_lt) in
      ap₂ bit_and x mask ∙ mask-pages (n + p - 1) (omega (arith, pos, bound))

  pub pages_bounds : (n : ℕ) → (n ≤ pages p n * p) × (pages p n * p < n + p)
  pages_bounds n =
      let pos = pagesize_pos in
      let whole = div-add-mod' (n + p - 1) p in
      let rest = mod-lt (n + p - 1) pos in
      (omega (arith, pos, whole, rest), omega (arith, pos, whole, rest))

  -- Behind whole pages.
  pub pages-behind : (q n : ℕ) → pages p (n + q * p) ≡ pages p n + q
  pages-behind q n =
      let pos = pagesize_pos in
      let moved : n + q * p + p - 1 ≡ (n + p - 1) + q * p = omega (arith, pos) in
      ap (λ t. t / p) moved ∙ add-mul-div_right (n + p - 1) q pos

  page_before :
      (q : ℕ) → suc q * p < cell_mod → bit_and (sub_cell (suc q * p) 1) (neg_cell p) ≡ q * p
  page_before q bound =
      let pos = pagesize_pos in
      let next : suc q * p ≡ q * p + p = ground arith in
      let x : sub_cell (suc q * p) 1 ≡ (p - 1) + q * p = omega (arith, pos, bound, next) in
      let mask : neg_cell p ≡ cell_mod - p = omega (arith, pos, pagesize_lt) in
      let none : (p - 1) / p ≡ 0 = div-eq_of_lt (omega (arith, pos)) in
      ap₂ bit_and x mask
      ∙ mask-pages ((p - 1) + q * p) (omega (arith, pos, bound, next))
      ∙ ap (λ t. t * p) (add-mul-div_right (p - 1) q pos ∙ omega (arith, none))

  -- At the address of a page, `NEXTPAGE` is this address, and `NEXTPAGE2` that of the next page.
  pub nextpage-aligned :
      (q : ℕ)
      → suc q * p + p < cell_mod
      → (nextpage p (suc q * p) ≡ suc q * p) × (nextpage2 p (suc q * p) ≡ suc q * p + p)
  unfolding nextpage nextpage2
  nextpage-aligned q bound =
      let next : suc q * p ≡ q * p + p = ground arith in
      let before = page_before q (omega (arith, bound)) in
      (rw before (omega (arith, bound, next)), rw before (omega (arith, bound, next)))
