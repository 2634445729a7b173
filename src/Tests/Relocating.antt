-- ===== src/Tests/Relocating.antt =====
-- engine/main.c: the bytes of an image of one section, with a primitive behind the header.
use gforth.Prelude.{ℕ, ◌≡◌, ◌*◌, ◌+◌, refl, arith, some, List, [], ◌∷◌, ◌++◌, map, replicate}
use gforth.Image.{Loaded, sum_groups}
use gforth.Image.Cells.{threaded, encode}
use gforth.Image.Relocated.{Slot, plain, tagged, file_cell}
use gforth.Image.Compiled.{code_of}
use gforth.Image.Sections.{
  InMemory, prepare_groups, Contents, section_file, memory_of, compiled_code,
}
use gforth.Loader.{
  same_bytes, cell_value, field, StackSizes, set_size, set_stack_sizes, maxaligned, cell_bytes,
  set_field, store_sizes, reloc_size,
}
use gforth.Loader.File.{
  ImageFile, AllSectionFiles, IsPreamble, IsImageFile, file_bytes, loaded_image, loaded_sections,
  loaded_sizes,
}
use gforth.Loader.Memory.{
  cells_of, byte_bits, bits_of, bits_at, relocation_section, with_checksum, load_and_relocate,
  engine_at, load_and_relocate-memory_of,
}
use gforth.Tests.Loading.{engine, raw, groups_at_most}

abbrev alloc : ℕ → ℕ → ℕ
alloc i size = (i + 1) * 65536

abbrev eight : StackSizes
eight = record { dictsize = 8; dsize = 8; rsize = 8; fsize = 8; lsize = 8 }

-- The token of primitive 2 in group 1 is 2 ^ 64 - 16898.
abbrev image : ImageFile
image = record {
  preamble = [];
  sizes = 7;
  image = record {
    content = replicate 16 0 ++ (168 ∷ (replicate 143 0 ++ (254 ∷ (189 ∷ replicate 6 255))));
    bits = 0 ∷ 0 ∷ 8 ∷ [];
  };
  sections = [];
}

abbrev slots : List Slot
slots =
    plain 0
    ∷ plain 8
    ∷ plain 168
    ∷ (map plain (replicate 5 0)
        ++ (map plain (replicate 4 8)
            ++ (map plain (replicate 8 0) ++ (tagged (threaded 1 2) ∷ []))))

abbrev contents : List Contents
contents = record { slots = slots; pad = 3 } ∷ []

abbrev at : Loaded
at = engine_at engine raw alloc eight 7 99 (replicate 160 0) refl image

image-IsImageFile : IsImageFile image
unfolding IsPreamble AllSectionFiles same_bytes field cell_value reloc_size
image-IsImageFile = record {
  preamble = tt;
  header = omega arith;
  size = refl;
  relocatable = refl;
  bits = refl;
  sections = tt;
  count = omega arith;
}

load_and_relocate-memory_of_example :
    (m : List InMemory) × (load_and_relocate raw alloc eight 7 99
        (replicate 160 0)
        (file_bytes image)
      ≡ some m)
    × (map (λ (s : InMemory). s.image) m ≡ with_checksum 0 99 (memory_of at 0 contents))
    × (map (compiled_code engine) m ≡ map (λ (c : Contents). code_of at 0 c.slots) contents)
unfolding prepare_groups sum_groups encode cells_of bits_of byte_bits bits_at relocation_section
    section_file file_cell loaded_image loaded_sections loaded_sizes set_stack_sizes set_size
    maxaligned store_sizes set_field cell_bytes field cell_value
load_and_relocate-memory_of_example =
    load_and_relocate-memory_of engine raw alloc eight 7 99 (replicate 160 0) refl image contents
      image-IsImageFile refl refl
      (record {
        table = refl;
        in_memory = omega arith;
        grouped = λ group tok (some_group, in_table, small, within, low).
            omega (arith, within, groups_at_most (group + 1));
      })
      ((omega arith, ((omega arith, omega arith, omega arith, omega arith, omega arith), tt)), tt)
      refl
