-- ===== src/Peephole.antt =====
-- engine/peephole.c: the table of combined primitives. The generated array PEEPHOLE_I and the
-- addresses of the primitives (`insts`) are parameters; a NULL result is `none`.
pub mod Last
use gforth.Prelude.{
  ℕ, zero, suc, ◌/◌, bit_and, bit_xor, Bool, true, false, ◌&&◌, ◌==◌, if◌then◌else◌, List, [], ◌∷◌,
  Option, none, some, get_or, set, replicate,
}

-- `struct Combination`, the primitives as indices.
pub record Combination : Type 0 where
  pub prefix : ℕ
  pub lastprim : ℕ
  pub combination_prim : ℕ

-- `struct Peeptable_entry`, the primitives as addresses.
pub record PeeptableEntry : Type 0 where
  pub prefix : ℕ
  pub lastprim : ℕ
  pub combination_prim : ℕ

abbrev pub hash_size : ℕ
hash_size = 1024

unfoldable pub hash : ℕ → ℕ → ℕ
hash i1 i2 = bit_and (bit_xor i1 i2 / 16) 1023

-- One round of the loop of `prepare_peephole_table`.
unfoldable pub add_combination :
    List ℕ → List (List PeeptableEntry) → Combination → List (List PeeptableEntry)
add_combination insts pt c =
    let prefix = get_or insts c.prefix 0 in
    let lastprim = get_or insts c.lastprim 0 in
    let h = hash prefix lastprim in
    let p : PeeptableEntry = record {
      prefix = prefix;
      lastprim = lastprim;
      combination_prim = get_or insts c.combination_prim 0;
    } in
    set pt h (p ∷ get_or pt h [])

unfoldable pub add_combinations :
    List ℕ → List (List PeeptableEntry) → List Combination → List (List PeeptableEntry)
add_combinations insts pt [] = pt
add_combinations insts pt (c ∷ cs) = add_combinations insts (add_combination insts pt c) cs

unfoldable pub prepare_peephole_table : List Combination → List ℕ → List (List PeeptableEntry)
prepare_peephole_table peephole_table insts =
    add_combinations insts (replicate hash_size []) peephole_table

unfoldable pub find_entry : ℕ → ℕ → List PeeptableEntry → Option ℕ
find_entry i1 i2 [] = none
find_entry i1 i2 (p ∷ ps) =
    let rest = find_entry i1 i2 ps in
    if i1 == p.prefix && i2 == p.lastprim then some p.combination_prim else rest

unfoldable pub peephole_opt : ℕ → ℕ → ℕ → List (List PeeptableEntry) → Option ℕ
peephole_opt use_super i1 i2 pt =
    if use_super == 0 then none else find_entry i1 i2 (get_or pt (hash i1 i2) [])
