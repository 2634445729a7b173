-- ===== src/Image/Relocated.antt =====
-- engine/main.c: what `gforth_relocate_range` makes of a whole section.
use gforth.Prelude.{
  ℕ, zero, suc, ◌+◌, ◌*◌, ◌/◌, ◌^◌, ◌≤◌, ◌<◌, ◌≡◌, refl, ◌∙◌, sym, ap, ap₂, arith, Bool, true,
  false, ◌||◌, Bool-cases, inl, inr, leb, ◌==◌, if◌then◌else◌, List, [], ◌∷◌, ◌++◌, map, Option,
  none, some, get_or, set, replicate, length, length-set, length-replicate, length-append,
  length-map, get_or-set_self, get_or-set_ne, sub_cell, neg_cell, is_negative,
}
use gforth.Image.{
  Loaded, Range, section_of, in_section, primsection, is_address, mark_target, relocate_cell,
  relocate_cells, relocate_range,
}
use gforth.Image.Cells.{
  Item, nil, doer, address, threaded, xt, code_field, encode, meaning, IsItem,
  relocate_token-encode,
}

-- A cell of the section, tagged or not.
pub data Slot : Type 0 where
  plain : ℕ → Slot
  tagged : Item → Slot

unfoldable pub file_cell : Loaded → Slot → ℕ
file_cell e (plain x) = x
file_cell e (tagged item) = encode e item

abbrev pub is_tagged : Slot → Bool
is_tagged (plain x) = false
is_tagged (tagged item) = true

unfoldable pub memory_cell : Loaded → Slot → ℕ
memory_cell e (plain x) = x
memory_cell e (tagged item) = (meaning e item).cell

unfoldable pub is_code : Loaded → Slot → Bool
is_code e (plain x) = false
is_code e (tagged item) = (meaning e item).tag

-- The cell of the section `sect` that an item points into.
unfoldable pub points_at : ℕ → Item → Option ℕ
points_at sect nil = none
points_at sect (doer n) = none
points_at sect (address sec offset) = if sec == sect then some (offset / 8) else none
points_at sect (threaded group tok) = none
points_at sect (xt group tok) = none
points_at sect (code_field group tok) = none

abbrev pub is_some : Option ℕ → ℕ → Bool
is_some none j = false
is_some (some i) j = i == j

-- Some tagged cell points into the cell `j` of its own section.
unfoldable pub is_target : ℕ → List Slot → ℕ → Bool
is_target sect [] j = false
is_target sect (plain x ∷ slots) j = is_target sect slots j
is_target sect (tagged item ∷ slots) j = is_some (points_at sect item) j || is_target sect slots j

abbrev pub AllItems : Loaded → ℕ → List Slot → Type 0
AllItems e base [] = Unit
AllItems e base (plain x ∷ slots) = AllItems e base slots
AllItems e base (tagged item ∷ slots) = IsItem e base item × AllItems e base slots

mark : List Bool → Option ℕ → List Bool
mark targets none = targets
mark targets (some j) = set targets j true

or_swap : (a b c : Bool) → b || (a || c) ≡ (a || b) || c
or_swap true true c = refl
or_swap true false c = refl
or_swap false b c = refl

or_false : (a : Bool) → a || false ≡ a
or_false true = refl
or_false false = refl

get_or-replicate : (n j : ℕ) → get_or (replicate n false) j false ≡ false
get_or-replicate zero j = refl
get_or-replicate (suc n) zero = refl
get_or-replicate (suc n) (suc j) = get_or-replicate n j

module _ (e : Loaded) (sect base : ℕ) (own : base ≡ get_or e.bases sect 0)
    (low : base < 2 ^ 56) where
  prim_mark :
      (x : ℕ) (targets : List Bool)
      → 0 < x
      → x ≤ 2 ^ 56
      → mark_target sect base (neg_cell x) targets ≡ targets
  unfolding mark_target
  prim_mark x targets some_x small =
      let prims : section_of (neg_cell x) == primsection ≡ true = ground arith in rw prims refl

  address_mark :
      (sec offset : ℕ) (targets : List Bool)
      → IsItem e base (address sec offset)
      → mark_target sect base (encode e (address sec offset)) targets
        ≡ mark targets (points_at sect (address sec offset))
  unfolding mark_target is_address encode mark points_at
  address_mark sec offset targets (small, inside, loaded, above) =
      let b = get_or e.bases sec 0 in
      let t = sec * 2 ^ 56 + (b + offset) in
      let no_prim : section_of t == primsection ≡ false = ground arith in
      let positive : is_negative t ≡ false = ground arith in
      let high : leb base t ≡ true = ground arith in
      let sectioned : section_of t ≡ sec = omega arith in
      elim (Bool-cases (sec == sect)) [
        | inr other ↦ rw (no_prim, positive, high, sectioned, other) refl
        | inl here ↦
            let same : sec ≡ sect = ground arith in
            let based : base ≡ b = own ∙ ap (λ s. get_or e.bases s 0) (sym same) in
            let number : sub_cell (in_section t) (in_section base) / 8 ≡ offset / 8 =
              omega (arith, based) in
            rw (no_prim, positive, high, sectioned, here, number) refl
      ]

  mark_target-encode :
      (item : Item) (targets : List Bool)
      → IsItem e base item
      → mark_target sect base (encode e item) targets ≡ mark targets (points_at sect item)
  unfolding encode mark points_at
  mark_target-encode nil targets ok = prim_mark 1 targets (omega arith) (omega arith)
  mark_target-encode (doer n) targets ok = prim_mark (n + 2) targets (omega arith) (omega arith)
  mark_target-encode (address sec offset) targets ok = address_mark sec offset targets ok
  mark_target-encode (threaded group tok) targets ok =
      prim_mark (2 ^ 14 + (group * 2 ^ 9 + tok)) targets (omega arith) (omega arith)
  mark_target-encode (xt group tok) targets ok =
      prim_mark (group * 2 ^ 9 + tok) targets (omega arith) (omega arith)
  mark_target-encode (code_field group tok) targets ok =
      prim_mark (2 ^ 15 + (group * 2 ^ 9 + tok)) targets (omega arith) (omega arith)

  mark_all : List Slot → List Bool → List Bool
  mark_all [] targets = targets
  mark_all (plain x ∷ slots) targets = mark_all slots targets
  mark_all (tagged item ∷ slots) targets = mark_all slots (mark targets (points_at sect item))

  length-mark : (targets : List Bool) (o : Option ℕ) → length (mark targets o) ≡ length targets
  unfolding mark
  length-mark targets none = refl
  length-mark targets (some i) = length-set targets i true

  mark_at :
      (targets : List Bool) (o : Option ℕ) (j : ℕ)
      → j < length targets
      → get_or (mark targets o) j false ≡ is_some o j || get_or targets j false
  unfolding mark
  mark_at targets none j inside = refl
  mark_at targets (some i) j inside = elim (Bool-cases (i == j)) [
    | inl e ↦
        let same : i ≡ j = ground arith in
        rw (e, same) (get_or-set_self targets j true false inside)
    | inr ne ↦ rw ne (get_or-set_ne targets i j true false (λ same. ground (arith, ne, same)))
  ]

  mark_all_at :
      (slots : List Slot) (targets : List Bool) (j : ℕ)
      → j < length targets
      → get_or (mark_all slots targets) j false ≡ is_target sect slots j || get_or targets j false
  unfolding mark_all is_target
  mark_all_at [] targets j inside = refl
  mark_all_at (plain x ∷ slots) targets j inside = mark_all_at slots targets j inside
  mark_all_at (tagged item ∷ slots) targets j inside =
      let o = points_at sect item in
      let rest =
        mark_all_at slots (mark targets o) j (omega (arith, inside, length-mark targets o)) in
      rest ∙ rw (mark_at targets o j inside) (or_swap (is_some o j) (is_target sect slots j) _)

  abbrev image_of : List Slot → List ℕ
  image_of slots = map (file_cell e) slots

  abbrev bits_of : List Slot → ℕ → List Bool
  bits_of slots pad = map is_tagged slots ++ replicate pad false

  abbrev Relocates : List Slot → ℕ → List Bool → Range → Type 0
  Relocates slots pad targets r =
      (r.image ≡ map (memory_cell e) slots)
      × (r.bitstring ≡ map (is_code e) slots ++ replicate pad false)
      × (r.targets ≡ mark_all slots targets)

  relocate_cells-Relocates :
      (slots : List Slot) (pad : ℕ) (targets : List Bool)
      → AllItems e base slots
      → Relocates slots pad targets
          (relocate_cells e sect base (image_of slots) (bits_of slots pad) targets)
  unfolding relocate_cells relocate_cell file_cell memory_cell is_code mark_all
  relocate_cells-Relocates [] pad targets ok = (refl, refl, refl)
  relocate_cells-Relocates (plain x ∷ slots) pad targets ok =
      let rest = relocate_cells-Relocates slots pad targets ok in
      (ap (◌∷◌ x) rest.0, ap (◌∷◌ false) rest.1, rest.2)
  relocate_cells-Relocates (tagged item ∷ slots) pad targets (here, ok) =
      let marked = mark_target-encode item targets here in
      let cell = relocate_token-encode e base item here in
      let rest = relocate_cells-Relocates slots pad (mark targets (points_at sect item)) ok in
      rw (marked, cell)
        (ap (◌∷◌ (meaning e item).cell) rest.0, ap (◌∷◌ (meaning e item).tag) rest.1, rest.2)

  -- `gforth_relocate_range` on a section whose cells are plain or hold items of the file format, with
  -- `pad` clear bits behind them: every plain cell keeps its value, every tagged one gets its meaning,
  -- the bits that stay set are those of threaded code, and the branch targets are the cells of the
  -- section that some tagged address of the section points into.
  pub relocate_range_lem :
      (slots : List Slot) (pad : ℕ)
      → AllItems e base slots
      → let r = relocate_range e sect base (image_of slots) (bits_of slots pad) in
        (r.image ≡ map (memory_cell e) slots)
        × (r.bitstring ≡ map (is_code e) slots ++ replicate pad false)
        × ((j : ℕ) → j < length slots + pad → get_or r.targets j false ≡ is_target sect slots j)
  unfolding relocate_range
  relocate_range_lem slots pad ok =
      let n = length (bits_of slots pad) in
      let r = relocate_cells-Relocates slots pad (replicate n false) ok in
      let size : n ≡ length slots + pad =
        length-append (map is_tagged slots) (replicate pad false)
        ∙ ap₂ (◌+◌) (length-map slots is_tagged) (length-replicate pad false) in
      (
        r.0,
        r.1,
        λ j inside.
            ap (λ targets. get_or targets j false) r.2
            ∙ mark_all_at slots (replicate n false) j
                (omega (arith, inside, size, length-replicate n false))
            ∙ ap (λ b. is_target sect slots j || b) (get_or-replicate n j)
            ∙ or_false (is_target sect slots j),
      )
