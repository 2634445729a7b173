-- ===== src/Loader/Memory.antt =====
-- engine/main.c: `gforth_loader` with the relocation, from the bytes of an image file to the cells in
-- memory. The relocation comes before the test of the checksum in the source; it changes nothing that
-- the test reads. The checksum is stored in the relocated section 0, if that of the file is 0.
use gforth.Prelude.{
  set, if◌then◌else◌, Bool-cases, inl, inr, ◌∙◌, ℕ, zero, suc, ◌/◌, ◌%◌, ◌^◌, ◌≡◌, ap, refl, Bool,
  true, ◌==◌, ◌||◌, Option, none, some, ◌>>=◌, List, [], ◌∷◌, ◌++◌, map, length, take, drop,
}
use gforth.Compile.{Engine}
use gforth.Image.{Loaded}
use gforth.Image.Compiled.{SameEngine, code_of}
use gforth.Image.Sections.{
  InMemory, prepare_groups, gforth_relocate, Contents, section_file, AllSections, memory_of,
  compiled_code, gforth_relocate_lem,
}
use gforth.Image.Sections as Relocation
use gforth.Loader.{Section, StackSizes, cell_value, field, gforth_loader}
use gforth.Loader.File.{
  ImageFile, file_bytes, IsImageFile, image_header, loaded_image, loaded_sections,
}
use gforth.Loader.Loads.{gforth_loader-file_bytes}

-- So many cells of the memory of a section.
unfoldable pub cells_of : ℕ → List ℕ → List ℕ
cells_of zero bytes = []
cells_of (suc n) bytes = cell_value (take 8 bytes) ∷ cells_of n (drop 8 bytes)

-- The bits of a byte that are left, the highest first: bit `k - 1`, and so on.
unfoldable pub byte_bits : ℕ → ℕ → List Bool
byte_bits zero b = []
byte_bits (suc k) b = ((b / 2 ^ k) % 2 == 1) ∷ byte_bits k b

unfoldable pub bits_of : List ℕ → List Bool
bits_of [] = []
bits_of (b ∷ bytes) = byte_bits 8 b ++ bits_of bytes

unfoldable pub bits_at : Option (List ℕ) → Option (List Bool)
bits_at none = none
bits_at (some bytes) = some (bits_of bytes)

-- What the relocation finds at `sections[i]` and `reloc_bits[i]`.
unfoldable pub relocation_section : Section → Relocation.Section
relocation_section s = record {
  image = cells_of (s.size / 8) s.content;
  reloc_bits = bits_at s.reloc_bits;
}

-- Behind the last section: `bzero(reloc_bits, …)`.
abbrev pub no_section : Relocation.Section
no_section = record { image = []; reloc_bits = none }

unfoldable pub loaded_at : Loaded → List Section → Loaded
loaded_at e sections = record e {
  sections = map (λ (s : Section). s.address) sections;
  bases = map (λ (s : Section). s.base) sections;
}

unfoldable pub relocate_image : Loaded → List Section → List InMemory
relocate_image e sections =
    gforth_relocate (loaded_at e sections) (map relocation_section sections ++ (no_section ∷ []))

-- `((ImageHeader *)imp)->checksum=check_sum`, in section 0.
unfoldable pub store_checksum : ℕ → List InMemory → List InMemory
store_checksum check_sum [] = []
store_checksum check_sum (s ∷ loaded) =
    record s { image = set s.image 17 (some check_sum) } ∷ loaded

-- `if (header.checksum==0) …`
unfoldable pub set_checksum : ℕ → ℕ → List InMemory → List InMemory
set_checksum header_checksum check_sum loaded =
    if header_checksum == 0 then store_checksum check_sum loaded else loaded

unfoldable pub load_and_relocate :
    Loaded → (ℕ → ℕ → ℕ) → StackSizes → ℕ → ℕ → List ℕ → List ℕ → Option (List InMemory)
load_and_relocate e alloc sizes sizebyte check_sum stack file = do
  r ← gforth_loader alloc sizes sizebyte check_sum stack file
  some (set_checksum r.header_checksum r.checksum (relocate_image e r.sections))

abbrev head_or : Option ℕ → List (Option ℕ) → List (Option ℕ)
head_or x [] = []
head_or x (cell ∷ cells) = x ∷ cells

-- The cells of an image whose header had a checksum or 0: in the latter case there is that of the
-- executable in its place, behind 17 cells of section 0.
unfoldable pub with_checksum : ℕ → ℕ → List (List (Option ℕ)) → List (List (Option ℕ))
with_checksum header_checksum check_sum [] = []
with_checksum header_checksum check_sum (cells ∷ sections) =
    (if header_checksum == 0
      then take 17 cells ++ head_or (some check_sum) (drop 17 cells)
      else cells)
    ∷ sections

set-head_or :
    (n : ℕ) (cells : List (Option ℕ)) (x : Option ℕ)
    → set cells n x ≡ take n cells ++ head_or x (drop n cells)
set-head_or zero [] x = refl
set-head_or zero (cell ∷ cells) x = refl
set-head_or (suc n) [] x = refl
set-head_or (suc n) (cell ∷ cells) x = ap (◌∷◌ cell) (set-head_or n cells x)

set_checksum-with_checksum :
    (header_checksum check_sum : ℕ) (loaded : List InMemory)
    → map (λ (s : InMemory). s.image) (set_checksum header_checksum check_sum loaded)
      ≡ with_checksum header_checksum check_sum (map (λ (s : InMemory). s.image) loaded)
unfolding set_checksum store_checksum with_checksum
set_checksum-with_checksum header_checksum check_sum [] = elim (Bool-cases (header_checksum == 0)) [
  | inl e ↦ rw e refl
  | inr e ↦ rw e refl
]
set_checksum-with_checksum header_checksum check_sum (s ∷ loaded) =
    elim (Bool-cases (header_checksum == 0)) [
      | inl e ↦ rw e (
          ap (λ cells. cells ∷ map (λ (s : InMemory). s.image) loaded)
            (set-head_or 17 s.image (some check_sum)))
      | inr e ↦ rw e refl
    ]

compiled_code-set_checksum :
    (en : Engine) (header_checksum check_sum : ℕ) (loaded : List InMemory)
    → map (compiled_code en) (set_checksum header_checksum check_sum loaded)
      ≡ map (compiled_code en) loaded
unfolding set_checksum store_checksum compiled_code
compiled_code-set_checksum en header_checksum check_sum [] =
    elim (Bool-cases (header_checksum == 0)) [ inl e ↦ rw e refl | inr e ↦ rw e refl ]
compiled_code-set_checksum en header_checksum check_sum (s ∷ loaded) =
    elim (Bool-cases (header_checksum == 0)) [ inl e ↦ rw e refl | inr e ↦ rw e refl ]

module _ (en : Engine) (e : Loaded) (alloc : ℕ → ℕ → ℕ) (sizes : StackSizes)
    (sizebyte check_sum : ℕ) (stack : List ℕ) (header_room : length stack ≡ 160)
    (m : ImageFile) where
  abbrev pub read_sections_of : List Section
  read_sections_of = loaded_image alloc sizes m ∷ loaded_sections alloc 1 m.sections

  -- The engine with the addresses of the sections and what they are compiled for.
  abbrev pub engine_at : Loaded
  engine_at = prepare_groups (record e {
    sections =
        (loaded_image alloc sizes m).address
        ∷ map (λ (s : Section). s.address) (loaded_sections alloc 1 m.sections);
    bases =
        (loaded_image alloc sizes m).base
        ∷ map (λ (s : Section). s.base) (loaded_sections alloc 1 m.sections);
  })

  -- On the bytes of an image file for this machine, with a checksum that is 0 or that of the executable,
  -- where every cell of each section, with the sizes of `set_stack_sizes` in the header of section 0,
  -- is plain or an item of the file format, and the relocation bits tell which: `gforth_loader` does
  -- not return NULL; the cells of each section in memory that are not threaded code are the plain cells
  -- and the meanings of the items at the addresses of the memory that was allocated, but for the first
  -- cell of section 0, which gets the address of the section, and, where the checksum of the file is 0,
  -- its cell for the checksum, which gets that of the executable; and the primitives that each section
  -- hands to `compile_prim1` are exactly those of its threaded code. The code addresses that the cells
  -- of the threaded code get are not stated.
  pub load_and_relocate-memory_of :
      (contents : List Contents)
      → IsImageFile m
      → (m.sizes == sizebyte) ≡ true
      → (field (image_header m) 17 == 0 || field (image_header m) 17 == check_sum) ≡ true
      → SameEngine engine_at en
      → AllSections engine_at 0 contents
      → map relocation_section read_sections_of ≡ map (section_file engine_at) contents
      → (loaded : List InMemory) × (load_and_relocate e alloc sizes sizebyte check_sum stack
            (file_bytes m)
          ≡ some loaded)
        × (map (λ (s : InMemory). s.image) loaded
            ≡ with_checksum (field (image_header m) 17) check_sum (memory_of engine_at 0 contents))
        × (map (compiled_code en) loaded
            ≡ map (λ (c : Contents). code_of engine_at 0 c.slots) contents)
  unfolding load_and_relocate relocate_image loaded_at
  load_and_relocate-memory_of contents is machine sum same items written =
      let read = gforth_loader-file_bytes alloc sizes sizebyte check_sum stack header_room m is in
      let (image, code) =
        gforth_relocate_lem en no_section refl (loaded_at e read_sections_of) same contents items in
      let relocated =
        gforth_relocate (loaded_at e read_sections_of)
          (map (section_file engine_at) contents ++ (no_section ∷ [])) in
      let in_file = field (image_header m) 17 in
      (
        set_checksum in_file check_sum relocated,
        rw (read, machine, sum)
            (ap
              (λ s. some (
                set_checksum in_file check_sum
                  (gforth_relocate (loaded_at e read_sections_of) (s ++ (no_section ∷ [])))))
              written),
        set_checksum-with_checksum in_file check_sum relocated
            ∙ ap (with_checksum in_file check_sum) image,
        compiled_code-set_checksum en in_file check_sum relocated ∙ code,
      )
