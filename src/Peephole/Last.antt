-- ===== src/Peephole/Last.antt =====
-- engine/peephole.c: what `peephole_opt` finds in the table.
use gforth.Prelude.{
  ℕ, zero, suc, ◌<◌, ◌≡◌, refl, ◌∙◌, ap, arith, bit_xor, ◌/◌, ◌%◌, ap₂, ◌&&◌, Bool-cases, inl, inr,
  ◌==◌, if◌then◌else◌, List, [], ◌∷◌, Option, none, some, get_or, replicate, length, length-set,
  length-replicate, get_or-set_self, get_or-set_ne, ℕ_discrete,
}
use gforth.Prelude.Bits.{bit_and_mask}
use gforth.Peephole.{
  Combination, PeeptableEntry, hash_size, hash, add_combination, add_combinations,
  prepare_peephole_table, find_entry, peephole_opt,
}

-- The last row of the array for a pair of primitives, `found` being the one before.
unfoldable pub last_row : List ℕ → ℕ → ℕ → List Combination → Option ℕ → Option ℕ
last_row insts i1 i2 [] found = found
last_row insts i1 i2 (c ∷ cs) found = last_row insts i1 i2 cs (
    if i1 == get_or insts c.prefix 0 && i2 == get_or insts c.lastprim 0
    then some (get_or insts c.combination_prim 0)
    else found)

hash_below : (i1 i2 : ℕ) → hash i1 i2 < hash_size
unfolding hash
hash_below i1 i2 =
    let e : hash i1 i2 ≡ bit_xor i1 i2 / 16 % 1024 = bit_and_mask 10 (bit_xor i1 i2 / 16) in
    omega (arith, e)

replicate_chain : (n h : ℕ) → get_or {A = List PeeptableEntry} (replicate n []) h [] ≡ []
replicate_chain zero h = refl
replicate_chain (suc n) zero = refl
replicate_chain (suc n) (suc h) = replicate_chain n h

module _ (insts : List ℕ) (i1 i2 : ℕ) where
  find-add_combination :
      (pt : List (List PeeptableEntry)) (c : Combination)
      → length pt ≡ hash_size
      → find_entry i1 i2 (get_or (add_combination insts pt c) (hash i1 i2) []) ≡ (
          if i1 == get_or insts c.prefix 0 && i2 == get_or insts c.lastprim 0
          then some (get_or insts c.combination_prim 0)
          else find_entry i1 i2 (get_or pt (hash i1 i2) []))
  unfolding add_combination find_entry
  find-add_combination pt c size =
      let prefix = get_or insts c.prefix 0 in
      let lastprim = get_or insts c.lastprim 0 in
      let h = hash prefix lastprim in
      elim (ℕ_discrete h (hash i1 i2)) [
        | yes e ↦
            rw (← e, get_or-set_self pt h _ [] (omega (arith, size, hash_below prefix lastprim)))
              refl
        | no ne ↦ elim (Bool-cases (i1 == prefix && i2 == lastprim)) [
          | inl hit ↦ absurd (ne (ap₂ hash (ground (arith, hit)) (ground (arith, hit))))
          | inr miss ↦ rw (miss, get_or-set_ne pt h (hash i1 i2) _ [] ne) refl
        ]
      ]

  length-add_combination :
      (pt : List (List PeeptableEntry)) (c : Combination)
      → length (add_combination insts pt c) ≡ length pt
  unfolding add_combination
  length-add_combination pt c = length-set pt _ _

  find-add_combinations :
      (pt : List (List PeeptableEntry)) (cs : List Combination)
      → length pt ≡ hash_size
      → find_entry i1 i2 (get_or (add_combinations insts pt cs) (hash i1 i2) [])
        ≡ last_row insts i1 i2 cs (find_entry i1 i2 (get_or pt (hash i1 i2) []))
  unfolding add_combinations last_row
  find-add_combinations pt [] size = refl
  find-add_combinations pt (c ∷ cs) size =
      find-add_combinations (add_combination insts pt c) cs (length-add_combination pt c ∙ size)
      ∙ ap (last_row insts i1 i2 cs) (find-add_combination pt c size)

  -- With superinstructions in use, `peephole_opt` on the table of `prepare_peephole_table` returns
  -- the combination of the last row of the array that has the pair of primitives, and NULL when no
  -- row has it; without them it returns NULL.
  pub peephole_opt-last_row :
      (use_super : ℕ) (peephole_table : List Combination)
      → peephole_opt use_super i1 i2 (prepare_peephole_table peephole_table insts)
        ≡ (if use_super == 0 then none else last_row insts i1 i2 peephole_table none)
  unfolding peephole_opt prepare_peephole_table find_entry
  peephole_opt-last_row use_super peephole_table =
      ap (λ found. if use_super == 0 then none else found)
        (find-add_combinations (replicate hash_size []) peephole_table
            (length-replicate {A = List PeeptableEntry} hash_size [])
          ∙ ap (λ chain. last_row insts i1 i2 peephole_table (find_entry i1 i2 chain))
              (replicate_chain hash_size (hash i1 i2)))
