-- ===== src/Tests/Loading.antt =====
-- engine/main.c: a small section that is loaded and compiled.
use gforth.Prelude.{
  none, ℕ, zero, suc, ◌+◌, ◌≤◌, ◌<◌, ◌≡◌, refl, arith, false, List, [], ◌∷◌, ◌++◌, map, replicate,
  get_or, length,
}
use gforth.Image.{Loaded, Range, sum_groups, relocate_token, relocate_range, compile_range}
use gforth.Image.Cells.{nil, address, threaded, encode, meaning, IsPrim, relocate_token-encode}
use gforth.Image.Relocated.{
  Slot, plain, tagged, file_cell, is_tagged, memory_cell, is_code, is_target, relocate_range_lem,
}
use gforth.Image.Compiled.{SameEngine, starts_of, code_of, compile_range-code_of}
use gforth.Image.Sections.{
  Section, InMemory, prepare_groups, gforth_relocate, Contents, section_file, memory_of,
  compiled_code, gforth_relocate_lem,
}
use gforth.Compile.{Engine, Start, null, cell, compile_all}
use gforth.Compile.Blocks.{Collected, prims_of, compile_all-Collected}

-- No primitives in group 0 and four in group 2.
abbrev pub loaded : Loaded
loaded = record {
  vm_prims = 4096;
  labels = 700 ∷ 701 ∷ 702 ∷ 703 ∷ [];
  npriminfos = 4;
  groups = 0 ∷ 0 ∷ replicate 30 4;
  sections = 80000 ∷ [];
  bases = 4096 ∷ [];
}

sum_groups_example : sum_groups 0 (0 ∷ 0 ∷ 4 ∷ replicate 29 0) ≡ loaded.groups
unfolding sum_groups
sum_groups_example = refl

prim2 : IsPrim loaded 1 2
prim2 = (omega arith, omega arith, omega arith, omega arith, omega arith)

relocate_token-encode_example :
    relocate_token loaded 4096 (encode loaded (threaded 1 2)) ≡ meaning loaded (threaded 1 2)
relocate_token-encode_example = relocate_token-encode loaded 4096 (threaded 1 2) prim2

abbrev slots : List Slot
slots = plain 7 ∷ tagged (threaded 1 2) ∷ tagged (address 0 8) ∷ tagged nil ∷ []

abbrev relocated : Range
relocated =
    relocate_range loaded 0 4096 (map (file_cell loaded) slots)
      (map is_tagged slots ++ replicate 4 false)

relocate_range_lem_example :
    (relocated.image ≡ map (memory_cell loaded) slots)
    × (relocated.bitstring ≡ map (is_code loaded) slots ++ replicate 4 false)
    × ((j : ℕ) → j < length slots + 4 → get_or relocated.targets j false ≡ is_target 0 slots j)
unfolding encode
relocate_range_lem_example =
    relocate_range_lem loaded 0 4096 refl (omega arith) slots 4
      (prim2, ((omega arith, omega arith, omega arith, omega arith), (tt, tt)))

abbrev pub engine : Engine
engine = record {
  vm_prims = 4096;
  labels = 700 ∷ 701 ∷ 702 ∷ 703 ∷ [];
  npriminfos = 4;
  superend = λ orig. false;
  code_address = λ x. x;
}

replicate_at_most : (n m i : ℕ) → get_or (replicate n m) i 0 ≤ m
replicate_at_most zero m i = omega arith
replicate_at_most (suc n) m zero = omega arith
replicate_at_most (suc n) m (suc i) = replicate_at_most n m i

pub groups_at_most : (i : ℕ) → get_or loaded.groups i 0 ≤ 4
groups_at_most zero = omega arith
groups_at_most (suc zero) = omega arith
groups_at_most (suc (suc i)) = replicate_at_most 30 4 i

same : SameEngine loaded engine
same = record {
  table = refl;
  in_memory = omega arith;
  grouped = λ group tok (some_group, in_table, small, within, low).
      omega (arith, within, groups_at_most (group + 1));
}

compile_range-code_of_example :
    prims_of engine (starts_of relocated.image (compile_range relocated)) ≡ code_of loaded 0 slots
unfolding encode
compile_range-code_of_example =
    compile_range-code_of loaded engine 4096 same 0 slots 4 refl (omega arith)
      (prim2, ((omega arith, omega arith, omega arith, omega arith), (tt, tt)))

-- Two primitives, a NULL, and a cell that is no primitive.
abbrev starts : List Start
starts = cell 0 4112 ∷ cell 1 4120 ∷ null ∷ cell 2 90000 ∷ cell 3 4128 ∷ []

compile_all-Collected_example : Collected engine [] starts (compile_all engine [] starts)
compile_all-Collected_example =
    compile_all-Collected engine [] starts (record { short = omega arith; ends = tt })

-- The engine before the groups are summed up, and the end of the sections.
abbrev pub raw : Loaded
raw = record loaded { groups = 0 ∷ 0 ∷ 4 ∷ replicate 29 0 }

abbrev end_section : Section
end_section = record { image = []; reloc_bits = none }

abbrev contents : List Contents
contents = record { slots = slots; pad = 4 } ∷ []

prepare_raw : prepare_groups raw ≡ loaded
unfolding prepare_groups sum_groups
prepare_raw = refl

gforth_relocate_lem_example :
    (map
        (λ (s : InMemory). s.image)
        (gforth_relocate raw
          (map (section_file (prepare_groups raw)) contents ++ (end_section ∷ [])))
      ≡ memory_of (prepare_groups raw) 0 contents)
    × (map (compiled_code engine) (
          gforth_relocate raw
            (map (section_file (prepare_groups raw)) contents ++ (end_section ∷ [])))
        ≡ map (λ (c : Contents). code_of (prepare_groups raw) 0 c.slots) contents)
unfolding prepare_groups sum_groups encode
gforth_relocate_lem_example =
    gforth_relocate_lem engine end_section refl raw same contents
      ((omega arith, (prim2, ((omega arith, omega arith, omega arith, omega arith), (tt, tt)))), tt)
