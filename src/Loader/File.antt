-- ===== src/Loader/File.antt =====
-- engine/main.c: the layout of an image file.
use gforth.Prelude.{
  ℕ, ◌+◌, ◌≤◌, ◌≡◌, true, false, ◌||◌, ◌==◌, some, List, [], ◌∷◌, ◌++◌, length, take, add_cell,
  sub_cell,
}
use gforth.Loader.{
  gforth6, section_magic, field, in_section, same_bytes, Section, reloc_size, StackSizes,
  set_stack_sizes, store_sizes,
}

-- The bytes of a section, its header included, and its relocation bits.
pub record SectionFile : Type 0 where
  pub content : List ℕ
  pub bits : List ℕ

-- The size in the header, from `base` to `dp`.
abbrev pub header_size : List ℕ → ℕ
header_size header = sub_cell (field header 2) (field header 0)

-- A section with a header that tells its size, not compiled for a fixed address, with a relocation bit for
-- each cell.
pub record IsSectionFile (f : SectionFile) : Type 0 where
  pub header : 24 ≤ length f.content
  pub size : header_size (take 24 f.content) ≡ length f.content
  pub relocatable :
      (in_section (field (take 24 f.content) 0) == 0
        || in_section (field (take 24 f.content) 0) == 256)
      ≡ true
  pub bits : length f.bits ≡ reloc_size (length f.content)

unfoldable pub AllSectionFiles : List SectionFile → Type 0
AllSectionFiles [] = Unit
AllSectionFiles (f ∷ fs) = IsSectionFile f × AllSectionFiles fs

-- The sections behind section 0.
unfoldable pub section_bytes : List SectionFile → List ℕ
section_bytes [] = []
section_bytes (f ∷ fs) = section_magic ++ (f.content ++ (f.bits ++ section_bytes fs))

-- An image file: groups of 8 bytes in front of the magic, section 0 with the image header, the sections.
pub record ImageFile : Type 0 where
  pub preamble : List (List ℕ)
  pub sizes : ℕ
  pub image : SectionFile
  pub sections : List SectionFile

unfoldable pub preamble_bytes : List (List ℕ) → List ℕ
preamble_bytes [] = []
preamble_bytes (g ∷ gs) = g ++ preamble_bytes gs

unfoldable pub file_bytes : ImageFile → List ℕ
file_bytes m =
    preamble_bytes m.preamble
    ++ (gforth6 ++ (m.sizes ∷ (m.image.content ++ (m.image.bits ++ section_bytes m.sections))))

-- No group of the preamble is a magic.
unfoldable pub IsPreamble : List (List ℕ) → Type 0
IsPreamble [] = Unit
IsPreamble (g ∷ gs) = (length g ≡ 8) × (same_bytes (take 7 g) gforth6 ≡ false) × IsPreamble gs

abbrev pub image_header : ImageFile → List ℕ
image_header m = take 160 m.image.content

pub record IsImageFile (m : ImageFile) : Type 0 where
  pub preamble : IsPreamble m.preamble
  pub header : 160 ≤ length m.image.content
  pub size : header_size (image_header m) ≡ length m.image.content
  pub relocatable : (field (image_header m) 0 == 0 || field (image_header m) 0 == 256) ≡ true
  pub bits : length m.image.bits ≡ reloc_size (length m.image.content)
  pub sections : AllSectionFiles m.sections
  pub count : length m.sections + 1 ≤ 254

-- What is in memory of the sections of a file, from section `i` on.
unfoldable pub loaded_section : (ℕ → ℕ → ℕ) → ℕ → SectionFile → Section
loaded_section alloc i f = record {
  address = alloc i (field (take 24 f.content) 1);
  base = in_section (field (take 24 f.content) 0);
  size = length f.content;
  content = f.content;
  reloc_bits = some f.bits;
}

unfoldable pub loaded_sections : (ℕ → ℕ → ℕ) → ℕ → List SectionFile → List Section
loaded_sections alloc i [] = []
loaded_sections alloc i (f ∷ fs) = loaded_section alloc i f ∷ loaded_sections alloc (i + 1) fs

-- The size of the preamble with the magic.
unfoldable pub preamble_size : ImageFile → ℕ
preamble_size m = length (preamble_bytes m.preamble) + 8

-- The sizes, which `set_stack_sizes` takes from the image header where they are 0.
unfoldable pub loaded_sizes : StackSizes → ImageFile → StackSizes
loaded_sizes sizes m = set_stack_sizes (set_stack_sizes sizes (image_header m)) m.image.content

-- Section 0, with the sizes in its header.
unfoldable pub loaded_image : (ℕ → ℕ → ℕ) → StackSizes → ImageFile → Section
loaded_image alloc sizes m = record {
  address = add_cell (alloc 0 (set_stack_sizes sizes (image_header m)).dictsize) (preamble_size m);
  base = field (image_header m) 0;
  size = length m.image.content;
  content = store_sizes (loaded_sizes sizes m) m.image.content;
  reloc_bits = some m.image.bits;
}
