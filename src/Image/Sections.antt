-- ===== src/Image/Sections.antt =====
-- engine/main.c: `gforth_relocate`, which relocates and compiles an image section by section.
use gforth.Prelude.{
  ◌∙◌, arith, suc, zero, ℕ, ◌+◌, ◌^◌, ◌<◌, ◌≡◌, refl, ap, ap₂, Bool, false, ◌==◌, if◌then◌else◌,
  List, [], ◌∷◌, ◌++◌, map, Option, none, some, get_or, set, replicate,
}
use gforth.Image.{Loaded, Range, sum_groups, relocate_range, compile_range}
use gforth.Image.Relocated.{
  Slot, plain, tagged, file_cell, is_tagged, memory_cell, is_code, AllItems, relocate_range_lem,
}
use gforth.Image.Cells.{meaning}
use gforth.Image.Compiled.{SameEngine, starts_of, code_of, compile_range-code_of}
use gforth.Compile.{Engine, Inst}
use gforth.Compile.Blocks.{prims_of}

-- A section of the file: its cells, and its bit string, which is NULL behind the last section.
pub record Section : Type 0 where
  pub image : List ℕ
  pub reloc_bits : Option (List Bool)

-- A section in memory: what `gforth_relocate_range` left of it, on which `gforth_compile_range` runs, and
-- its cells at the end. The cells that `gforth_compile_range` hands to `compile_prim1` get addresses of
-- generated code, which are no part of the model: they are `none`.
pub record InMemory : Type 0 where
  pub range : Range
  pub image : List (Option ℕ)

-- What `gforth_compile_range` leaves: each cell whose bit is set is handed to `compile_prim1`.
unfoldable pub not_compiled : List ℕ → List Bool → List (Option ℕ)
not_compiled [] bits = []
not_compiled (x ∷ image) [] = some x ∷ not_compiled image []
not_compiled (x ∷ image) (bit ∷ bits) = (if bit then none else some x) ∷ not_compiled image bits

-- `if(i==0) image[0] = (Cell)image`
unfoldable pub point_to_self : Loaded → ℕ → List (Option ℕ) → List (Option ℕ)
point_to_self e i image = if i == 0 then set image 0 (some (get_or e.sections 0 0)) else image

unfoldable pub relocate_section : Loaded → ℕ → List ℕ → List Bool → InMemory
relocate_section e i image bits =
    let r = relocate_range e i (get_or e.bases i 0) image bits in
    record { range = r; image = point_to_self e i (not_compiled r.image r.bitstring) }

-- The loop over the sections, from the section `i` on.
unfoldable pub relocate_sections : Loaded → ℕ → List Section → List InMemory
relocate_sections e i [] = []
relocate_sections e i (s ∷ sections) = elim s.reloc_bits [
  | none ↦ []
  | some bits ↦ relocate_section e i s.image bits ∷ relocate_sections e (i + 1) sections
]

-- The table of the groups, which is summed up at the first call.
unfoldable pub prepare_groups : Loaded → Loaded
prepare_groups e = record e {
  groups = if get_or e.groups 31 0 == 0 then sum_groups 0 e.groups else e.groups;
}

unfoldable pub gforth_relocate : Loaded → List Section → List InMemory
gforth_relocate e sections = relocate_sections (prepare_groups e) 0 sections

-- A section by its items, with the clear bits that fill its bit string.
pub record Contents : Type 0 where
  pub slots : List Slot
  pub pad : ℕ

unfoldable pub section_file : Loaded → Contents → Section
section_file e c = record {
  image = map (file_cell e) c.slots;
  reloc_bits = some (map is_tagged c.slots ++ replicate c.pad false);
}

abbrev pub AllSections : Loaded → ℕ → List Contents → Type 0
AllSections e i [] = Unit
AllSections e i (c ∷ contents) =
    ((get_or e.bases i 0 < 2 ^ 56) × AllItems e (get_or e.bases i 0) c.slots)
    × AllSections e (i + 1) contents

-- The cells of a section, of which section 0 begins with its own address.
unfoldable pub with_address : Loaded → ℕ → List (Option ℕ) → List (Option ℕ)
with_address e zero [] = []
with_address e zero (x ∷ cells) = some (get_or e.sections 0 0) ∷ cells
with_address e (suc i) cells = cells

point_to_self-with_address :
    (e : Loaded) (i : ℕ) (cells : List (Option ℕ))
    → point_to_self e i cells ≡ with_address e i cells
unfolding point_to_self with_address
point_to_self-with_address e zero [] = refl
point_to_self-with_address e zero (x ∷ cells) = refl
point_to_self-with_address e (suc i) cells =
    let later : (suc i == 0) ≡ false = ground arith in rw later refl

-- A cell at the end, where it is not threaded code.
unfoldable pub final_cell : Loaded → Slot → Option ℕ
final_cell e (plain x) = some x
final_cell e (tagged item) = if (meaning e item).tag then none else some (meaning e item).cell

not_compiled-final_cell :
    (e : Loaded) (slots : List Slot) (pad : ℕ)
    → not_compiled (map (memory_cell e) slots) (map (is_code e) slots ++ replicate pad false)
      ≡ map (final_cell e) slots
unfolding not_compiled final_cell memory_cell is_code
not_compiled-final_cell e [] pad = refl
not_compiled-final_cell e (plain x ∷ slots) pad =
    ap (◌∷◌ (some x)) (not_compiled-final_cell e slots pad)
not_compiled-final_cell e (tagged item ∷ slots) pad =
    ap (λ cells. (if (meaning e item).tag then none else some (meaning e item).cell) ∷ cells)
      (not_compiled-final_cell e slots pad)

-- The cells of the sections in memory, and the primitives of their threaded code.
unfoldable pub memory_of : Loaded → ℕ → List Contents → List (List (Option ℕ))
memory_of e i [] = []
memory_of e i (c ∷ contents) =
    with_address e i (map (final_cell e) c.slots) ∷ memory_of e (i + 1) contents

unfoldable pub compiled_code : Engine → InMemory → List Inst
compiled_code en s = prims_of en (starts_of s.range.image (compile_range s.range))

module _ (en : Engine) (after : Section) (last : after.reloc_bits ≡ none) where
  abbrev file_of : Loaded → List Contents → List Section
  file_of e contents = map (section_file e) contents ++ (after ∷ [])

  relocate_sections-memory :
      (e : Loaded) (same : SameEngine e en) (i : ℕ) (contents : List Contents)
      → AllSections e i contents
      → let loaded = relocate_sections e i (file_of e contents) in
        (map (λ (s : InMemory). s.image) loaded ≡ memory_of e i contents)
        × (map (compiled_code en) loaded ≡ map (λ (c : Contents). code_of e 0 c.slots) contents)
  unfolding relocate_sections relocate_section section_file memory_of compiled_code
  relocate_sections-memory e same i [] ok = rw last (refl, refl)
  relocate_sections-memory e same i (c ∷ contents) ((low, items), ok) =
      let base = get_or e.bases i 0 in
      let range = relocate_range_lem e i base refl low c.slots c.pad items in
      let code = compile_range-code_of e en base same i c.slots c.pad refl low items in
      let rest = relocate_sections-memory e same (i + 1) contents ok in
      (
        ap₂ (◌∷◌)
            (ap₂ (λ cells bits. point_to_self e i (not_compiled cells bits)) range.0 range.1
              ∙ ap (point_to_self e i) (not_compiled-final_cell e c.slots c.pad)
              ∙ point_to_self-with_address e i (map (final_cell e) c.slots))
            rest.0,
        ap₂ (◌∷◌) code rest.1,
      )

  -- `gforth_relocate` on the sections of an image file, in which every cell is plain or an item of the
  -- file format, up to the first section without a bit string: the cells of each section in memory that
  -- are not threaded code are the plain cells and the meanings of the items, but for the first cell of
  -- section 0, which gets the address of the section; and the primitives that each section hands to
  -- `compile_prim1` are exactly those of its threaded code. The code addresses that the cells of the
  -- threaded code get are not stated.
  pub gforth_relocate_lem :
      (e : Loaded) (same : SameEngine (prepare_groups e) en) (contents : List Contents)
      → AllSections (prepare_groups e) 0 contents
      → let g = prepare_groups e in
        let loaded = gforth_relocate e (file_of g contents) in
        (map (λ (s : InMemory). s.image) loaded ≡ memory_of g 0 contents)
        × (map (compiled_code en) loaded ≡ map (λ (c : Contents). code_of g 0 c.slots) contents)
  unfolding gforth_relocate
  gforth_relocate_lem e same contents ok =
      relocate_sections-memory (prepare_groups e) same 0 contents ok
