-- ===== src/Hashing/Bytes.antt =====
-- engine/support.c: the key of a name depends on its bytes alone.
use gforth.Prelude.{
  ℕ, zero, suc, ◌+◌, ◌-◌, ◌*◌, ◌/◌, ◌%◌, ◌^◌, ◌≤◌, ◌<◌, ◌≡◌, refl, ◌∙◌, ap, ap₂, arith, true, false,
  Bool-cases, inl, inr, ltb, leb, ◌==◌, Option, some, cell_mod,
}
use native.Mathlib.Omega.{pow_step}
use native.Mathlib.Nat.{add-mul-div_left, div-eq_of_lt, add-mul-mod_self_left, mod-eq_of_lt}
use gforth.Prelude.Bits.{bit_and_mask}
use gforth.Hashing.{value, load, caseless, mix, crosses_page, short_string, mix_cells, hashkey2a}

pow_byte : (n : ℕ) → n ≤ 8 → 2 ^ (n * 8) ≡ 256 ^ n
pow_byte zero h = refl
pow_byte (suc zero) h = refl
pow_byte (suc (suc zero)) h = refl
pow_byte (suc (suc (suc zero))) h = refl
pow_byte (suc (suc (suc (suc zero)))) h = refl
pow_byte (suc (suc (suc (suc (suc zero))))) h = refl
pow_byte (suc (suc (suc (suc (suc (suc zero)))))) h = refl
pow_byte (suc (suc (suc (suc (suc (suc (suc zero))))))) h = refl
pow_byte (suc (suc (suc (suc (suc (suc (suc (suc zero)))))))) h = refl
pow_byte (suc (suc (suc (suc (suc (suc (suc (suc (suc n))))))))) h = absurd (omega arith)

erase_mask : (n : ℕ) → n ≤ 8 → (cell_mod - 1) / 2 ^ ((8 - n) * 8) ≡ 2 ^ (n * 8) - 1
erase_mask zero h = refl
erase_mask (suc zero) h = refl
erase_mask (suc (suc zero)) h = refl
erase_mask (suc (suc (suc zero))) h = refl
erase_mask (suc (suc (suc (suc zero)))) h = refl
erase_mask (suc (suc (suc (suc (suc zero))))) h = refl
erase_mask (suc (suc (suc (suc (suc (suc zero)))))) h = refl
erase_mask (suc (suc (suc (suc (suc (suc (suc zero))))))) h = refl
erase_mask (suc (suc (suc (suc (suc (suc (suc (suc zero)))))))) h = refl
erase_mask (suc (suc (suc (suc (suc (suc (suc (suc (suc n))))))))) h = absurd (omega arith)

-- The first `j` of `j + k` bytes are the low ones.
value_split :
    (mem : ℕ → ℕ) (a j k : ℕ) → value mem a (j + k) ≡ value mem a j + 256 ^ j * value mem (a + j) k
unfolding value
value_split mem a zero k =
    let same : 0 + k ≡ k = omega arith in
    let start : a + 0 ≡ a = omega arith in rw (same, start) (omega arith)
value_split mem a (suc j) k =
    let next : a + 1 + j ≡ a + suc j = omega arith in
    let more : suc j + k ≡ suc (j + k) = omega arith in
    let rest = value_split mem (a + 1) j k in
    ap (value mem a) more
    ∙ ap (λ x. mem a + 256 * x) rest
    ∙ rw (next, pow_step 256 j) (ground arith)

value_bound : (mem : ℕ → ℕ) (a j : ℕ) → ((i : ℕ) → mem i < 256) → value mem a j < 256 ^ j
unfolding value
value_bound mem a zero bytes = omega arith
value_bound mem a (suc j) bytes =
    ground (arith, bytes a, value_bound mem (a + 1) j bytes, pow_step 256 j)

div_split : (x y p : ℕ) → x < p → (x + p * y) / p ≡ y
div_split x y p h = add-mul-div_left x y (omega arith) ∙ rw (div-eq_of_lt h) (omega arith)

mod_split : (x y p : ℕ) → x < p → (x + p * y) % p ≡ x
mod_split x y p h = add-mul-mod_self_left x p y ∙ mod-eq_of_lt h

module _ (mem : ℕ → ℕ) (bytes : (i : ℕ) → mem i < 256) where
  -- Both ways to load the string give its bytes.
  short_string-value : (s n : ℕ) → n ≤ 8 → 8 ≤ s → short_string mem s n ≡ value mem s n
  unfolding short_string load
  short_string-value s n small high = elim (Bool-cases (crosses_page s n)) [
    | inl crosses ↦ rw crosses (
        let j = 8 - n in
        let a = s + n - 8 in
        let size : 8 ≡ j + n = omega arith in
        let here : a + j ≡ s = omega arith in
        let whole : value mem a 8 ≡ value mem a j + 256 ^ j * value mem (a + j) n =
          ap (value mem a) size ∙ value_split mem a j n in
        rw (whole, pow_byte j (omega arith))
          (div_split (value mem a j) (value mem (a + j) n) (256 ^ j) (value_bound mem a j bytes)
            ∙ ap (λ b. value mem b n) here))
    | inr inside ↦ rw inside (
        let k = 8 - n in
        let size : 8 ≡ n + k = omega arith in
        let whole : value mem s 8 ≡ value mem s n + 256 ^ n * value mem (s + n) k =
          ap (value mem s) size ∙ value_split mem s n k in
        rw (erase_mask n small, bit_and_mask (n * 8) (value mem s 8), whole, pow_byte n small)
          (mod_split (value mem s n) (value mem (s + n) k) (256 ^ n) (value_bound mem s n bytes)))
  ]

-- The same bytes stand at two places.
abbrev pub SameBytes : (ℕ → ℕ) → ℕ → (ℕ → ℕ) → ℕ → ℕ → Type 0
SameBytes mem s mem' s' n = (i : ℕ) → i < n → mem (s + i) ≡ mem' (s' + i)

SameBytes-value :
    (mem mem' : ℕ → ℕ) (s s' n : ℕ) → SameBytes mem s mem' s' n → value mem s n ≡ value mem' s' n
unfolding value
SameBytes-value mem mem' s s' zero same = refl
SameBytes-value mem mem' s s' (suc n) same =
    let first : mem s ≡ mem' s' =
      ap mem (omega arith) ∙ same 0 (omega arith) ∙ ap mem' (omega arith) in
    let rest : SameBytes mem (s + 1) mem' (s' + 1) n =
      λ i h. ap mem (omega arith) ∙ same (suc i) (omega (arith, h)) ∙ ap mem' (omega arith) in
    ap₂ (λ b x. b + 256 * x) first (SameBytes-value mem mem' (s + 1) (s' + 1) n rest)

-- The key that both names have.
pub record SameKey (key key' : Option ℕ) : Type 0 where
  pub value : ℕ
  pub first : key ≡ some value
  pub second : key' ≡ some value

module _ (mem mem' : ℕ → ℕ) (s s' n : ℕ) (same : SameBytes mem s mem' s' n) where
  load_same : (o : ℕ) → o + 8 ≤ n → load mem (s + o) ≡ load mem' (s' + o)
  unfolding load
  load_same o h =
      SameBytes-value mem mem' (s + o) (s' + o) 8
        (λ i b. ap mem (omega arith) ∙ same (o + i) (omega (arith, h, b)) ∙ ap mem' (omega arith))

  mix_cells-SameKey :
      (fuel e o h : ℕ)
      → e + 8 ≤ n
      → o ≤ e
      → e < o + 8 * fuel
      → SameKey (mix_cells mem fuel (s + e) (s + o) h) (mix_cells mem' fuel (s' + e) (s' + o) h)
  unfolding mix_cells
  mix_cells-SameKey zero e o h inside order enough = absurd (omega arith)
  mix_cells-SameKey (suc fuel) e o h inside order enough =
      let here = load_same o (omega arith) in
      let h' = mix h (caseless (load mem' (s' + o))) in
      let at : s + o + 8 ≡ s + (o + 8) = omega arith in
      let at' : s' + o + 8 ≡ s' + (o + 8) = omega arith in
      elim (Bool-cases (ltb (o + 8) e)) [
        | inl more ↦
            let rest =
              mix_cells-SameKey fuel e (o + 8) h' inside (ground (arith, more)) (omega arith) in
            let go_on : ltb (s + (o + 8)) (s + e) ≡ true = ground (arith, more) in
            let go_on' : ltb (s' + (o + 8)) (s' + e) ≡ true = ground (arith, more) in
            record {
              value = rest.value;
              first = rw (here, at, go_on) rest.first;
              second = rw (at', go_on') rest.second;
            }
        | inr done ↦
            let stop : ltb (s + (o + 8)) (s + e) ≡ false = ground (arith, done) in
            let stop' : ltb (s' + (o + 8)) (s' + e) ≡ false = ground (arith, done) in
            record { value = h'; first = rw (here, at, stop) refl; second = rw (at', stop') refl }
      ]

  -- `hashkey2a` on two names of the same bytes that stand anywhere behind the first 8 addresses:
  -- both calls return, and with the same key, whatever bytes are around the names and whether or
  -- not a name ends close to the end of its page.
  pub hashkey2a-SameKey :
      ((i : ℕ) → mem i < 256)
      → ((i : ℕ) → mem' i < 256)
      → 8 ≤ s
      → 8 ≤ s'
      → SameKey (hashkey2a mem s n) (hashkey2a mem' s' n)
  unfolding hashkey2a
  hashkey2a-SameKey bytes bytes' high high' = elim (Bool-cases (leb n 8)) [
    | inl short ↦ elim (Bool-cases (n == 0)) [
      | inl e ↦ rw (short, e) (record { value = n; first = refl; second = refl })
      | inr ne ↦
          let small : n ≤ 8 = ground (arith, short) in
          let x = short_string-value mem bytes s n small high in
          let x' = short_string-value mem' bytes' s' n small high' in
          rw (short, ne, x, x', SameBytes-value mem mem' s s' n same)
            (record { value = _; first = refl; second = refl })
    ]
    | inr long ↦
        let last : s + n - 8 ≡ s + (n - 8) = ground (arith, long) in
        let last' : s' + n - 8 ≡ s' + (n - 8) = ground (arith, long) in
        let start : s + 0 ≡ s = omega arith in
        let start' : s' + 0 ≡ s' = omega arith in
        let loop : SameKey (mix_cells mem n (s + (n - 8)) s n)
            (mix_cells mem' n (s' + (n - 8)) s' n) =
          rw (start, start') at
            (mix_cells-SameKey n (n - 8) 0 n (ground (arith, long)) (omega arith)
              (ground (arith, long))) in
        let cell = load_same (n - 8) (ground (arith, long)) in
        rw (long, last, last', loop.first, loop.second, cell)
          (record { value = _; first = refl; second = refl })
  ]
