-- ===== src/Loader.antt =====
-- engine/main.c: reading an image file in `gforth_loader`, from the search for the magic in `checkimage` to
-- the test of the checksum. A file is the list of the bytes that are still to be read. The addresses that
-- memory is allocated at and the machine's checksum are parameters, and so is what a header that is
-- too short leaves on the stack. Memory is always there when it is asked for, and `gforth_init` does not
-- fail. The relocation (Image.antt) is no part of the result.
pub mod File
pub mod Loads
pub mod Memory
pub mod Search
use gforth.Prelude.{
  ℕ, zero, suc, ◌+◌, ◌*◌, ◌/◌, ◌%◌, ◌^◌, Bool, true, false, not, ◌&&◌, ◌||◌, ◌==◌, if◌then◌else◌,
  Option, none, some, ◌>>=◌, List, [], ◌∷◌, ◌++◌, length, take, drop, bit_and, add_cell, sub_cell,
  neg_cell,
}

-- `memcmp(…)==0`
unfoldable pub same_bytes : List ℕ → List ℕ → Bool
same_bytes [] [] = true
same_bytes [] (b ∷ t) = false
same_bytes (a ∷ s) [] = false
same_bytes (a ∷ s) (b ∷ t) = a == b && same_bytes s t

-- "Gforth6"
abbrev pub gforth6 : List ℕ
gforth6 = 71 ∷ 102 ∷ 111 ∷ 114 ∷ 116 ∷ 104 ∷ 54 ∷ []

-- "Section."
abbrev pub section_magic : List ℕ
section_magic = 83 ∷ 101 ∷ 99 ∷ 116 ∷ 105 ∷ 111 ∷ 110 ∷ 46 ∷ []

-- The cell that starts with the first byte, the lowest byte first.
unfoldable pub cell_value : List ℕ → ℕ
cell_value [] = 0
cell_value (c ∷ s) = c + 256 * cell_value s

-- Field `n` of a header.
unfoldable pub field : List ℕ → ℕ → ℕ
field header n = cell_value (take 8 (drop (8 * n) header))

-- INSECTION of engine/forth.h.
abbrev pub in_section : ℕ → ℕ
in_section x = x % 2 ^ 56

-- The file behind the magic, the size of the preamble, and the byte that tells about sizes.
pub record Opened : Type 0 where
  pub preamblesize : ℕ
  pub sizes : ℕ
  pub rest : List ℕ

-- The loop of `checkimage`, for at most so many rounds.
unfoldable pub find_magic : ℕ → ℕ → List ℕ → Option Opened
find_magic zero preamblesize file = none
find_magic (suc rounds) preamblesize file =
    let magic = take 8 file in
    let next = find_magic rounds (preamblesize + 8) (drop 8 file) in
    if not (length magic == 8)
    then none
    else if same_bytes (take 7 magic) gforth6
    then some (record {
      preamblesize = preamblesize + 8;
      sizes = cell_value (drop 7 magic);
      rest = drop 8 file;
    })
    else next

-- `checkimage` on the file that was opened; each round reads a byte at least.
unfoldable pub checkimage : ℕ → List ℕ → Option Opened
checkimage sizebyte file = do
  o ← find_magic (length file + 1) 0 file
  if o.sizes == sizebyte then some o else none

-- A section: where it is in memory, what it is compiled for, its size, the bytes that were read, and the
-- relocation bits.
pub record Section : Type 0 where
  pub address : ℕ
  pub base : ℕ
  pub size : ℕ
  pub content : List ℕ
  pub reloc_bits : Option (List ℕ)

unfoldable pub reloc_size : ℕ → ℕ
reloc_size size = sub_cell size 1 / 8 / 8 + 1

-- Reading the relocation bits: they are read or not needed; they end early, which ends the loop; or the
-- image cannot be loaded at the address.
pub data BitsRead : Type 0 where
  read : Section → List ℕ → BitsRead
  terminated_early : Section → BitsRead
  nonrelocatable : BitsRead

unfoldable pub read_bits : Section → List ℕ → BitsRead
read_bits s file =
    let n = reloc_size s.size in
    let bits = take n file in
    if s.base == 0 || s.base == 256
    then (if length bits == n
        then read (record s { reloc_bits = some bits }) (drop n file)
        else terminated_early (record s { reloc_bits = some bits }))
    else if s.base == s.address
    then read s file
    else nonrelocatable

-- What follows a section: nothing that can be read, with a section of which some bytes are missing, or a
-- section.
pub data NextRead : Type 0 where
  ended : List Section → NextRead
  another : Section → List ℕ → NextRead

-- Section `i` behind its magic.
unfoldable pub read_content : (ℕ → ℕ → ℕ) → ℕ → List ℕ → NextRead
read_content alloc i file =
    let header = take 24 file in
    let size = sub_cell (field header 2) (field header 0) in
    let s : Section = record {
      address = alloc i (field header 1);
      base = in_section (field header 0);
      size = size;
      content = take size file;
      reloc_bits = none;
    } in
    if not (length header == 24)
    then ended []
    else if length (take size file) == size
    then another s (drop size file)
    else ended (s ∷ [])

unfoldable pub read_section : (ℕ → ℕ → ℕ) → ℕ → List ℕ → NextRead
read_section alloc i file =
    if not (length (take 8 file) == 8) || not (same_bytes (take 8 file) section_magic)
    then ended []
    else read_content alloc i (drop 8 file)

-- The loop over the sections, from section `i` on, which is read but for its relocation bits.
unfoldable pub read_sections : (ℕ → ℕ → ℕ) → ℕ → ℕ → Section → List ℕ → Option (List Section)
read_sections alloc zero i s file = some (s ∷ [])
read_sections alloc (suc n) i s file = elim (read_bits s file) [
  | nonrelocatable ↦ none
  | terminated_early t ↦ some (t ∷ [])
  | read t behind ↦ elim (read_section alloc (i + 1) behind) [
    | ended more ↦ some (t ∷ more)
    | another next rest ↦ do more ← read_sections alloc n (i + 1) next rest; some (t ∷ more)
  ]
]

-- The sizes of the dictionary and of the stacks: `dictsize` and so on.
pub record StackSizes : Type 0 where
  pub dictsize : ℕ
  pub dsize : ℕ
  pub rsize : ℕ
  pub fsize : ℕ
  pub lsize : ℕ

-- `maxaligned`
unfoldable pub maxaligned : ℕ → ℕ
maxaligned n = bit_and (add_cell n 7) (neg_cell 8)

unfoldable pub set_size : ℕ → ℕ → ℕ
set_size size header_size = maxaligned (if size == 0 then header_size else size)

-- `set_stack_sizes`: the variables, and the fields of the header.
unfoldable pub set_stack_sizes : StackSizes → List ℕ → StackSizes
set_stack_sizes sizes header = record {
  dictsize = set_size sizes.dictsize (field header 1);
  dsize = set_size sizes.dsize (field header 8);
  fsize = set_size sizes.fsize (field header 9);
  rsize = set_size sizes.rsize (field header 10);
  lsize = set_size sizes.lsize (field header 11);
}

-- The `k` lowest bytes of a cell.
unfoldable pub cell_bytes : ℕ → ℕ → List ℕ
cell_bytes zero x = []
cell_bytes (suc k) x = (x % 256) ∷ cell_bytes k (x / 256)

unfoldable pub set_field : ℕ → ℕ → List ℕ → List ℕ
set_field n x header = take (8 * n) header ++ (cell_bytes 8 x ++ drop (8 * n + 8) header)

unfoldable pub store_sizes : StackSizes → List ℕ → List ℕ
store_sizes sizes header = set_field 11 sizes.lsize (
    set_field 10 sizes.rsize
      (set_field 9 sizes.fsize (set_field 8 sizes.dsize (set_field 1 sizes.dictsize header))))

-- What is handed to the relocation, the checksum of `header` and that in the image afterwards, and the
-- sizes.
pub record ImageRead : Type 0 where
  pub preamblesize : ℕ
  pub sections : List Section
  pub header_checksum : ℕ
  pub checksum : ℕ
  pub sizes : StackSizes

-- `fread((void *)&header, …)`
unfoldable pub read_header : List ℕ → List ℕ → List ℕ
read_header stack file = take 160 file ++ drop (length file) stack

-- The checksum in the header afterwards, or nothing where it does not match.
unfoldable pub verify_checksum : ℕ → ℕ → Option ℕ
verify_checksum check_sum checksum =
    if checksum == 0 then some check_sum else if checksum == check_sum then some checksum else none

-- From the `fread` of the header on, where the image is read by `fread` too: section 0 lies behind the
-- preamble, and its header is the image header.
unfoldable pub load_image : (ℕ → ℕ → ℕ) → StackSizes → ℕ → List ℕ → Opened → Option ImageRead
load_image alloc sizes check_sum stack o =
    let header = read_header stack o.rest in
    let first = set_stack_sizes sizes header in
    let size = sub_cell (field header 2) (field header 0) in
    let image = take size o.rest in
    let second = set_stack_sizes first image in
    let s : Section = record {
      address = add_cell (alloc 0 first.dictsize) o.preamblesize;
      base = field header 0;
      size = size;
      content = store_sizes second image;
      reloc_bits = none;
    } in
    if length image == size
    then (do
      sections ← read_sections alloc 254 0 s (drop size o.rest)
      checksum ← verify_checksum check_sum (field header 17)
      some (record {
        preamblesize = o.preamblesize;
        sections = sections;
        header_checksum = field header 17;
        checksum = checksum;
        sizes = second;
      }))
    else none

-- `gforth_loader` on the file of the image.
unfoldable pub gforth_loader : (ℕ → ℕ → ℕ) → StackSizes → ℕ → ℕ → List ℕ → List ℕ → Option ImageRead
gforth_loader alloc sizes sizebyte check_sum stack file = do
  o ← checkimage sizebyte file
  load_image alloc sizes check_sum stack o
