-- ===== src/Loader/Loads.antt =====
-- engine/main.c: `gforth_loader` reads the sections of an image file.
use gforth.Prelude.{
  ℕ, zero, suc, inl, inr, Bool-cases, ◌+◌, ◌≤◌, ◌<◌, ◌≡◌, refl, ◌∙◌, ap, ap₂, arith, true, ◌&&◌,
  ◌||◌, ◌==◌, if◌then◌else◌, none, some, List, [], ◌∷◌, ◌++◌, length, take, drop, ==_refl,
  append_assoc, append-nil, length-append,
}
use gforth.Loader.{
  ImageRead, StackSizes, gforth6, section_magic, field, same_bytes, cell_value, find_magic,
  checkimage, Section, reloc_size, read, read_bits, another, read_content, read_section,
  read_sections, read_header, verify_checksum, load_image, gforth_loader,
}
use gforth.Loader.File.{
  loaded_sizes, SectionFile, IsSectionFile, AllSectionFiles, section_bytes, ImageFile,
  preamble_bytes, file_bytes, IsPreamble, image_header, IsImageFile, loaded_section,
  loaded_sections, preamble_size, loaded_image,
}

take_front : (n : ℕ) (s t : List ℕ) → length s ≡ n → take n (s ++ t) ≡ s
take_front zero [] t h = refl
take_front zero (c ∷ s) t h = absurd (omega (arith, h))
take_front (suc n) [] t h = absurd (omega (arith, h))
take_front (suc n) (c ∷ s) t h = ap (λ x. c ∷ x) (take_front n s t (omega (arith, h)))

drop_front : (n : ℕ) (s t : List ℕ) → length s ≡ n → drop n (s ++ t) ≡ t
drop_front zero [] t h = refl
drop_front zero (c ∷ s) t h = absurd (omega (arith, h))
drop_front (suc n) [] t h = absurd (omega (arith, h))
drop_front (suc n) (c ∷ s) t h = drop_front n s t (omega (arith, h))

take_inside : (n : ℕ) (s t : List ℕ) → n ≤ length s → take n (s ++ t) ≡ take n s
take_inside zero s t h = refl
take_inside (suc n) [] t h = absurd (omega (arith, h))
take_inside (suc n) (c ∷ s) t h = ap (λ x. c ∷ x) (take_inside n s t (omega (arith, h)))

length-take_inside : (n : ℕ) (s : List ℕ) → n ≤ length s → length (take n s) ≡ n
length-take_inside zero s h = refl
length-take_inside (suc n) [] h = absurd (omega (arith, h))
length-take_inside (suc n) (c ∷ s) h = ap suc (length-take_inside n s (omega (arith, h)))

-- The file from the relocation bits of a section on.
read_bits_lem :
    (s : Section) (bits rest : List ℕ)
    → (s.base == 0 || s.base == 256) ≡ true
    → length bits ≡ reloc_size s.size
    → read_bits s (bits ++ rest) ≡ read (record s { reloc_bits = some bits }) rest
unfolding read_bits
read_bits_lem s bits rest base size =
    let all = take_front (reloc_size s.size) bits rest size in
    let behind = drop_front (reloc_size s.size) bits rest size in
    let test : (length bits == reloc_size s.size) ≡ true = ground (arith, size) in
    simp (base, all, behind, test) refl

read_content_lem :
    (alloc : ℕ → ℕ → ℕ) (i : ℕ) (f : SectionFile) (rest : List ℕ)
    → IsSectionFile f
    → read_content alloc i (f.content ++ rest)
      ≡ another (record (loaded_section alloc i f) { reloc_bits = none }) rest
unfolding read_content loaded_section
read_content_lem alloc i f rest is =
    let header = take_inside 24 f.content rest is.header in
    let size = is.size in
    let long : (length (take 24 f.content) == 24) ≡ true =
      ground (arith, length-take_inside 24 f.content is.header) in
    let all = take_front (length f.content) f.content rest refl in
    let behind = drop_front (length f.content) f.content rest refl in
    let whole = ==_refl (length f.content) in rw (header, long, size, all, behind, whole) refl

read_section_lem :
    (alloc : ℕ → ℕ → ℕ) (i : ℕ) (f : SectionFile) (rest : List ℕ)
    → IsSectionFile f
    → read_section alloc i (section_magic ++ (f.content ++ rest))
      ≡ another (record (loaded_section alloc i f) { reloc_bits = none }) rest
unfolding read_section same_bytes
read_section_lem alloc i f rest is = read_content_lem alloc i f rest is

module _ (alloc : ℕ → ℕ → ℕ) where
  read_sections_lem :
      (n i : ℕ) (s : Section) (bits : List ℕ) (fs : List SectionFile)
      → (s.base == 0 || s.base == 256) ≡ true
      → length bits ≡ reloc_size s.size
      → AllSectionFiles fs
      → length fs < n
      → read_sections alloc n i s (bits ++ section_bytes fs)
        ≡ some (record s { reloc_bits = some bits } ∷ loaded_sections alloc (i + 1) fs)
  unfolding read_sections section_bytes AllSectionFiles loaded_sections loaded_section read_section
  read_sections_lem zero i s bits fs base size all count = absurd (omega (arith, count))
  read_sections_lem (suc n) i s bits [] base size all count =
      rw (read_bits_lem s bits [] base size, read_sections) refl
  read_sections_lem (suc n) i s bits (f ∷ fs) base size (is, all) count =
      let next = record (loaded_section alloc (i + 1) f) { reloc_bits = none } in
      let rest =
        read_sections_lem n (i + 1) next f.bits fs is.relocatable is.bits all
          (omega (arith, count)) in
      let this = read_section_lem alloc (i + 1) f (f.bits ++ section_bytes fs) is in
      rw (read_bits_lem s bits (section_bytes (f ∷ fs)) base size, this, rest, read_sections) refl

drop_all : (n : ℕ) (s : List ℕ) → length s ≤ n → drop n s ≡ []
drop_all zero [] h = refl
drop_all zero (c ∷ s) h = absurd (omega (arith, h))
drop_all (suc n) [] h = refl
drop_all (suc n) (c ∷ s) h = drop_all n s (omega (arith, h))

preamble_rounds : (gs : List (List ℕ)) → IsPreamble gs → length gs ≤ length (preamble_bytes gs)
unfolding preamble_bytes IsPreamble
preamble_rounds [] is = omega arith
preamble_rounds (g ∷ gs) (size, other, is) =
    omega (arith, length-append g (preamble_bytes gs), size, preamble_rounds gs is)

module _ (sizes : ℕ) (rest : List ℕ) where
  abbrev magic_on : List ℕ
  magic_on = gforth6 ++ (sizes ∷ rest)

  find_magic_here :
      (rounds n : ℕ)
      → find_magic (suc rounds) n magic_on
        ≡ some (record { preamblesize = n + 8; sizes = sizes; rest = rest })
  unfolding find_magic same_bytes cell_value
  find_magic_here rounds n =
      ap (λ x. some (record { preamblesize = n + 8; sizes = x; rest = rest })) (omega arith)

  find_magic_lem :
      (gs : List (List ℕ)) (rounds n : ℕ)
      → IsPreamble gs
      → length gs < rounds
      → find_magic rounds n (preamble_bytes gs ++ magic_on)
        ≡ some (record {
          preamblesize = n + (length (preamble_bytes gs) + 8);
          sizes = sizes;
          rest = rest;
        })
  unfolding find_magic preamble_bytes IsPreamble
  find_magic_lem gs zero n is count = absurd (omega (arith, count))
  find_magic_lem [] (suc rounds) n is count = find_magic_here rounds n
  find_magic_lem (g ∷ gs) (suc rounds) n (size, other, is) count =
      let behind = preamble_bytes gs ++ magic_on in
      let assoc = append_assoc g (preamble_bytes gs) magic_on in
      let group = take_front 8 g behind size in
      let next = drop_front 8 g behind size in
      let full : (length g == 8) ≡ true = ground (arith, size) in
      let found = find_magic_lem gs rounds (n + 8) is (omega (arith, count)) in
      let counted = length-append g (preamble_bytes gs) in
      rw (assoc, group, full, other, next, found)
        (ap (λ x. some (record { preamblesize = x; sizes = sizes; rest = rest }))
          (omega (arith, counted, size)))

verify_checksum_lem :
    (check_sum checksum : ℕ)
    → verify_checksum check_sum checksum
      ≡ (if checksum == 0 || checksum == check_sum then some check_sum else none)
unfolding verify_checksum
verify_checksum_lem check_sum checksum = elim (Bool-cases (checksum == 0)) [
  | inl e ↦ rw e refl
  | inr e ↦ rw e (elim (Bool-cases (checksum == check_sum)) [
    | inl f ↦ let same : checksum ≡ check_sum = ground (arith, f) in rw f (ap some same)
    | inr f ↦ rw f refl
  ])
]

module _ (alloc : ℕ → ℕ → ℕ) (sizes : StackSizes) (sizebyte check_sum : ℕ) (stack : List ℕ)
    (header_room : length stack ≡ 160) where
  abbrev image_read : ImageFile → ImageRead
  image_read m = record {
    preamblesize = preamble_size m;
    sections = loaded_image alloc sizes m ∷ loaded_sections alloc 1 m.sections;
    header_checksum = field (image_header m) 17;
    checksum = check_sum;
    sizes = loaded_sizes sizes m;
  }

  load_image_lem :
      (m : ImageFile) (preamblesize size_byte : ℕ)
      → IsImageFile m
      → preamblesize ≡ preamble_size m
      → load_image alloc sizes check_sum stack (record {
        preamblesize = preamblesize;
        sizes = size_byte;
        rest = m.image.content ++ (m.image.bits ++ section_bytes m.sections);
      })
        ≡ (if field (image_header m) 17 == 0 || field (image_header m) 17 == check_sum
            then some (image_read m)
            else none)
  unfolding load_image read_header loaded_image loaded_sizes
  load_image_lem m preamblesize size_byte is preamble =
      let bits = m.image.bits ++ section_bytes m.sections in
      let long : length stack ≤ length (m.image.content ++ bits) =
        omega (arith, header_room, is.header, length-append m.image.content bits) in
      let header : take 160 (m.image.content ++ bits)
            ++ drop (length (m.image.content ++ bits)) stack
          ≡ image_header m =
        ap₂ (◌++◌) (take_inside 160 m.image.content bits is.header)
          (drop_all (length (m.image.content ++ bits)) stack long)
        ∙ append-nil (image_header m) in
      let all = take_front (length m.image.content) m.image.content bits refl in
      let behind = drop_front (length m.image.content) m.image.content bits refl in
      let whole = ==_refl (length m.image.content) in
      let s : Section = record (loaded_image alloc sizes m) { reloc_bits = none } in
      let sections =
        read_sections_lem alloc 254 0 s m.image.bits m.sections is.relocatable is.bits is.sections
          (omega (arith, is.count)) in
      let sum = verify_checksum_lem check_sum (field (image_header m) 17) in
      rw (header, is.size, all, behind, whole, preamble, sections, sum)
        (elim (Bool-cases
          (field (image_header m) 17 == 0 || field (image_header m) 17 == check_sum)) [
            | inl e ↦ rw e refl
            | inr e ↦ rw e refl
          ])

  -- An image file: any number of groups of 8 bytes that are no magic, the magic with a byte for the sizes of
  -- the machine, section 0 with the image header, and at most 253 further sections, each with a header
  -- that tells its size and with a relocation bit for each cell, none compiled for a fixed address. With
  -- the byte of this machine, and with a checksum that is 0 or that of the executable, `gforth_loader`
  -- hands exactly these sections with their bits to the relocation, section 0 behind the preamble and
  -- with the sizes of `set_stack_sizes` in its header, and the checksum becomes that of the executable;
  -- in all other cases it returns NULL.
  pub gforth_loader-file_bytes :
      (m : ImageFile)
      → IsImageFile m
      → gforth_loader alloc sizes sizebyte check_sum stack (file_bytes m) ≡ (
          if m.sizes == sizebyte
            && (field (image_header m) 17 == 0 || field (image_header m) 17 == check_sum)
          then some (record {
            preamblesize = preamble_size m;
            sections = loaded_image alloc sizes m ∷ loaded_sections alloc 1 m.sections;
            header_checksum = field (image_header m) 17;
            checksum = check_sum;
            sizes = loaded_sizes sizes m;
          })
          else none)
  unfolding gforth_loader checkimage file_bytes preamble_size
  gforth_loader-file_bytes m is =
      let rest = m.image.content ++ (m.image.bits ++ section_bytes m.sections) in
      let rounds = preamble_rounds m.preamble is.preamble in
      let counted = length-append (preamble_bytes m.preamble) (gforth6 ++ (m.sizes ∷ rest)) in
      let found =
        find_magic_lem m.sizes rest m.preamble (length (file_bytes m) + 1) 0 is.preamble
          (omega (arith, rounds, counted)) in
      let loaded = load_image_lem m (0 + preamble_size m) m.sizes is (omega arith) in
      rw found (elim (Bool-cases (m.sizes == sizebyte)) [ inl e ↦ rw e loaded | inr e ↦ rw e refl ])
