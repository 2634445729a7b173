-- ===== src/Image/Cells.antt =====
-- engine/main.c: the meaning of the cells of an image, as the comment on the image file format
-- describes them, and that the relocation of a tagged cell follows it.
use gforth.Prelude.{
  ℕ, ◌+◌, ◌-◌, ◌*◌, ◌/◌, ◌%◌, ◌^◌, ◌≤◌, ◌<◌, ◌≡◌, ◌∙◌, refl, arith, true, false, not, ltb, leb,
  ◌==◌, if◌then◌else◌, get_or, add_cell, sub_cell, neg_cell, minus_one, is_negative,
}
use gforth.Image.{
  Loaded, Relocation, section_of, in_section, primsection, has_bit14, has_bit15, cf, cfa, label_at,
  relocate_old_prim, relocate_group_prim, relocate_prim, is_address, loaded_address, relocate_token,
}

-- A tagged cell: NIL, the code field of a doer, an address in a section, and a primitive of a group
-- as threaded code, as an execution token, and as a code field.
pub data Item : Type 0 where
  nil : Item
  doer : ℕ → Item
  address : ℕ → ℕ → Item
  threaded xt code_field : ℕ → ℕ → Item

-- The cell in the image file.
unfoldable pub encode : Loaded → Item → ℕ
encode e nil = minus_one
encode e (doer n) = neg_cell (n + 2)
encode e (address sec offset) = sec * 2 ^ 56 + (get_or e.bases sec 0 + offset)
encode e (threaded group tok) = neg_cell (2 ^ 14 + (group * 2 ^ 9 + tok))
encode e (xt group tok) = neg_cell (group * 2 ^ 9 + tok)
encode e (code_field group tok) = neg_cell (2 ^ 15 + (group * 2 ^ 9 + tok))

abbrev prim_number : Loaded → ℕ → ℕ → ℕ
prim_number e group tok = get_or e.groups group 0 + tok

-- The cell in memory, and whether it is threaded code.
unfoldable pub meaning : Loaded → Item → Relocation
meaning e nil = record { cell = 0; tag = false }
meaning e (doer n) = record { cell = label_at e n; tag = false }
meaning e (address sec offset) = record {
  cell = add_cell (get_or e.sections sec 0) offset;
  tag = false;
}
meaning e (threaded group tok) = record {
  cell = add_cell e.vm_prims (8 * prim_number e group tok + 16);
  tag = true;
}
meaning e (xt group tok) = record {
  cell = add_cell e.vm_prims (8 * prim_number e group tok + 16);
  tag = false;
}
meaning e (code_field group tok) = record {
  cell = label_at e (prim_number e group tok);
  tag = false;
}

-- The primitive is one of its group, in the table of groups.
abbrev pub IsPrim : Loaded → ℕ → ℕ → Type 0
IsPrim e group tok =
    (0 < group)
    × (group < 31)
    × (tok < 2 ^ 9)
    × (prim_number e group tok < get_or e.groups (group + 1) 0)
    × (prim_number e group tok < 2 ^ 14)

-- What the file may hold for a section that was compiled for `base`.
abbrev pub IsItem : Loaded → ℕ → Item → Type 0
IsItem e base nil = Unit
IsItem e base (doer n) = n ≤ 9
IsItem e base (address sec offset) =
    (sec < 2 ^ 7)
    × (get_or e.bases sec 0 + offset < 2 ^ 56)
    × (get_or e.sections sec 0 < 2 ^ 64)
    × (base ≤ encode e (address sec offset))
IsItem e base (threaded group tok) = IsPrim e group tok
IsItem e base (xt group tok) = IsPrim e group tok
IsItem e base (code_field group tok) = IsPrim e group tok

cfa_lem : (e : Loaded) (n : ℕ) → n < 2 ^ 14 → cfa e n ≡ add_cell e.vm_prims (8 * n + 16)
unfolding cfa
cfa_lem e n h = let low : has_bit14 n ≡ false = ground arith in rw low refl

group_test : (first tok next : ℕ) → first + tok < next → ltb tok (next - first) ≡ true
group_test first tok next h = ground arith

-- The token of a primitive of a group: `x` has bits 14 and 15 of the negated token.
module _ (e : Loaded) (base x group tok : ℕ) (prim : IsPrim e group tok) (flags : x < 4) where
  abbrev token : ℕ
  token = neg_cell (x * 2 ^ 14 + (group * 2 ^ 9 + tok))

  relocate_token-group : relocate_token e base token ≡ (
      if not (has_bit14 token)
      then record { cell = cfa e (prim_number e group tok); tag = true }
      else if not (has_bit15 token)
      then record { cell = label_at e (prim_number e group tok); tag = false }
      else record { cell = cfa e (prim_number e group tok); tag = false })
  unfolding relocate_token relocate_prim relocate_group_prim
  relocate_token-group =
      let (some_group, low, small, known, few) = prim in
      let in_prims : section_of token == primsection ≡ true = ground arith in
      let grouped : (neg_cell token / 2 ^ 9) % 2 ^ 5 ≡ group = omega arith in
      let numbered : neg_cell token % 2 ^ 9 ≡ tok = omega arith in
      let not_old : group == 0 ≡ false = ground arith in
      rw
        (
          in_prims,
          grouped,
          not_old,
          numbered,
          group_test (get_or e.groups group 0) tok (get_or e.groups (group + 1) 0) known,
        )
        refl

relocate_nil : (e : Loaded) (base : ℕ) → relocate_token e base (encode e nil) ≡ meaning e nil
unfolding relocate_token relocate_prim relocate_old_prim encode meaning
relocate_nil e base = refl

relocate_threaded :
    (e : Loaded) (base group tok : ℕ)
    → IsPrim e group tok
    → relocate_token e base (encode e (threaded group tok)) ≡ meaning e (threaded group tok)
unfolding encode meaning
relocate_threaded e base group tok prim =
    let (some_group, low, small, known, few) = prim in
    let clear : has_bit14 (neg_cell (1 * 2 ^ 14 + (group * 2 ^ 9 + tok))) ≡ false = ground arith in
    relocate_token-group e base 1 group tok prim (omega arith) ∙ rw (clear, cfa_lem e _ few) refl

relocate_xt :
    (e : Loaded) (base group tok : ℕ)
    → IsPrim e group tok
    → relocate_token e base (encode e (xt group tok)) ≡ meaning e (xt group tok)
unfolding encode meaning
relocate_xt e base group tok prim =
    let (some_group, low, small, known, few) = prim in
    let same : 0 * 2 ^ 14 + (group * 2 ^ 9 + tok) ≡ group * 2 ^ 9 + tok = omega arith in
    let bit14 : has_bit14 (neg_cell (group * 2 ^ 9 + tok)) ≡ true = ground arith in
    let bit15 : has_bit15 (neg_cell (group * 2 ^ 9 + tok)) ≡ true = ground arith in
    let found = relocate_token-group e base 0 group tok prim (omega arith) in
    (rw same at found) ∙ rw (bit14, bit15, cfa_lem e _ few) refl

relocate_code_field :
    (e : Loaded) (base group tok : ℕ)
    → IsPrim e group tok
    → relocate_token e base (encode e (code_field group tok)) ≡ meaning e (code_field group tok)
unfolding encode meaning
relocate_code_field e base group tok prim =
    let (some_group, low, small, known, few) = prim in
    let t = neg_cell (2 * 2 ^ 14 + (group * 2 ^ 9 + tok)) in
    let bit14 : has_bit14 t ≡ true = ground arith in
    let bit15 : has_bit15 t ≡ false = ground arith in
    relocate_token-group e base 2 group tok prim (omega arith) ∙ rw (bit14, bit15) refl

relocate_address :
    (e : Loaded) (base sec offset : ℕ)
    → IsItem e base (address sec offset)
    → relocate_token e base (encode e (address sec offset)) ≡ meaning e (address sec offset)
unfolding relocate_token is_address loaded_address encode meaning
relocate_address e base sec offset (low, inside, loaded, above) =
    let b = get_or e.bases sec 0 in
    let t = sec * 2 ^ 56 + (b + offset) in
    let no_prim : section_of t == primsection ≡ false = ground arith in
    let positive : is_negative t ≡ false = ground arith in
    let high : leb base t ≡ true = ground arith in
    let sectioned : section_of t ≡ sec = omega arith in
    let place : in_section t ≡ b + offset = omega arith in
    let start : add_cell (sub_cell (get_or e.sections sec 0) b) (b + offset)
        ≡ add_cell (get_or e.sections sec 0) offset =
      omega arith in
    rw (no_prim, positive, high, sectioned, place, start) refl

relocate_doer :
    (e : Loaded) (base n : ℕ)
    → n ≤ 9
    → relocate_token e base (encode e (doer n)) ≡ meaning e (doer n)
unfolding relocate_token relocate_prim relocate_old_prim cf encode meaning
relocate_doer e base n h =
    let t = neg_cell (n + 2) in
    let in_prims : section_of t == primsection ≡ true = ground arith in
    let old : (neg_cell t / 2 ^ 9) % 2 ^ 5 == 0 ≡ true = ground arith in
    let full : has_bit14 t ≡ true = ground arith in
    let not_nil : t == minus_one ≡ false = ground arith in
    let above : leb (neg_cell 11) t ≡ true = ground arith in
    let below : leb t (neg_cell 2) ≡ true = ground arith in
    let number : sub_cell (neg_cell t) 2 ≡ n = omega arith in
    rw (in_prims, old, full, not_nil, above, below, number) refl

-- The relocation of a tagged cell of the image file gives what the file format says: NIL is 0, a doer
-- and the code field of a primitive become code addresses, an address in a section becomes the same
-- offset from where that section was loaded, and a primitive of a group becomes its place in the table
-- of primitives, tagged for the code generator when it is threaded code and in no other case.
pub relocate_token-encode :
    (e : Loaded) (base : ℕ) (item : Item)
    → IsItem e base item
    → relocate_token e base (encode e item) ≡ meaning e item
relocate_token-encode e base nil ok = relocate_nil e base
relocate_token-encode e base (doer n) ok = relocate_doer e base n ok
relocate_token-encode e base (address sec offset) ok = relocate_address e base sec offset ok
relocate_token-encode e base (threaded group tok) ok = relocate_threaded e base group tok ok
relocate_token-encode e base (xt group tok) ok = relocate_xt e base group tok ok
relocate_token-encode e base (code_field group tok) ok = relocate_code_field e base group tok ok
