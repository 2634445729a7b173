-- ===== src/Tests/Opening.antt =====
-- engine/main.c: an image file of two sections.
use gforth.Prelude.{
  Option, if◌then◌else◌, false, List, ℕ, ◌≡◌, ◌*◌, ◌+◌, refl, arith, none, some, [], ◌∷◌, ◌++◌,
  replicate,
}
use gforth.Loader.{
  gforth6, Opened, same_bytes, cell_value, field, find_magic, checkimage, reloc_size, read_bits,
  read_content, read_section, read_sections, read_header, verify_checksum, maxaligned, StackSizes,
  set_size, set_stack_sizes, cell_bytes, set_field, store_sizes, load_image, gforth_loader,
}
use gforth.Loader.File.{
  loaded_sizes, AllSectionFiles, section_bytes, ImageFile, preamble_bytes, file_bytes, IsPreamble,
  IsImageFile, loaded_sections, preamble_size, loaded_image,
}
use gforth.Loader.Search.{
  has_char, onlypath, ends_with_dirsep, fullfilename, first_dir, other_dirs, checkimage_in,
  search_path, check_exe, open_image_file,
}
use gforth.Loader.Search.First.{
  first_of, opened_in, join, IsPath, exe_dirs, directories, open_image_file-first_of,
}
use gforth.Loader.Loads.{gforth_loader-file_bytes}

abbrev image : ImageFile
image = record {
  preamble = replicate 8 35 ∷ [];
  sizes = 7;
  image = record { content = replicate 16 0 ++ (160 ∷ replicate 143 0); bits = 128 ∷ 0 ∷ 0 ∷ [] };
  sections =
      record {
        content = replicate 8 0 ++ (100 ∷ (replicate 7 0 ++ (24 ∷ replicate 7 0)));
        bits = 64 ∷ [];
      }
      ∷ [];
}

-- The sizes of the command line.
abbrev eight : StackSizes
eight = record { dictsize = 8; dsize = 8; rsize = 8; fsize = 8; lsize = 8 }

abbrev alloc : ℕ → ℕ → ℕ
alloc i size = (i + 1) * 65536

image-IsImageFile : IsImageFile image
unfolding IsPreamble AllSectionFiles same_bytes field cell_value reloc_size
image-IsImageFile = record {
  preamble = (refl, refl, tt);
  header = omega arith;
  size = refl;
  relocatable = refl;
  bits = refl;
  sections = (record { header = omega arith; size = refl; relocatable = refl; bits = refl }, tt);
  count = omega arith;
}

gforth_loader-file_bytes_example :
    gforth_loader alloc eight 7 99 (replicate 160 0) (file_bytes image)
    ≡ some (record {
      preamblesize = preamble_size image;
      sections = loaded_image alloc eight image ∷ loaded_sections alloc 1 image.sections;
      header_checksum = 0;
      checksum = 99;
      sizes = eight;
    })
unfolding field cell_value loaded_sizes set_stack_sizes set_size maxaligned
gforth_loader-file_bytes_example =
    gforth_loader-file_bytes alloc eight 7 99 (replicate 160 0) refl image image-IsImageFile

abbrev sized_header : List ℕ
sized_header =
    replicate 8 0
    ++ (8
        ∷ (replicate 7 0
            ++ (160
                ∷ (replicate 47 0
                    ++ (8
                        ∷ (replicate 7 0
                            ++ (8
                                ∷ (replicate 7 0
                                    ++ (8 ∷ (replicate 7 0 ++ (8 ∷ replicate 71 0)))))))))))

-- The addresses of the sections, and an image for another machine.
load_two :
    (gforth_loader alloc eight 7 99 (replicate 160 0) (file_bytes image)
      ≡ some (record {
        preamblesize = 16;
        sections =
            record {
              address = 65552;
              base = 0;
              size = 160;
              content = sized_header;
              reloc_bits = some (128 ∷ 0 ∷ 0 ∷ []);
            }
            ∷ record {
              address = 131072;
              base = 0;
              size = 24;
              content = replicate 8 0 ++ (100 ∷ (replicate 7 0 ++ (24 ∷ replicate 7 0)));
              reloc_bits = some (64 ∷ []);
            }
            ∷ [];
        header_checksum = 0;
        checksum = 99;
        sizes = eight;
      }))
    × (gforth_loader alloc eight 6 99 (replicate 160 0) (file_bytes image) ≡ none)
unfolding gforth_loader load_image set_stack_sizes set_size maxaligned store_sizes set_field
    cell_bytes verify_checksum read_header read_sections read_section read_content read_bits
    reloc_size checkimage find_magic same_bytes field cell_value file_bytes preamble_bytes
    section_bytes
load_two = (refl, refl)

-- "b/g", looking for "i" in "a:c": it is in "c" only.
abbrev in_c : List ℕ → Option (List ℕ)
in_c name = if same_bytes name (99 ∷ 47 ∷ 105 ∷ []) then some (gforth6 ++ (7 ∷ 1 ∷ [])) else none

abbrev found_in_c : Option Opened
found_in_c = some (record { preamblesize = 8; sizes = 7; rest = 1 ∷ [] })

open_in_c :
    (open_image_file in_c 7 (98 ∷ 47 ∷ 103 ∷ []) (105 ∷ []) (97 ∷ 58 ∷ 99 ∷ []) ≡ found_in_c)
    × (open_image_file in_c 7 (98 ∷ 47 ∷ 103 ∷ []) (99 ∷ 47 ∷ 105 ∷ []) [] ≡ found_in_c)
    × (open_image_file in_c 6 (98 ∷ 47 ∷ 103 ∷ []) (105 ∷ []) (97 ∷ 58 ∷ 99 ∷ []) ≡ none)
unfolding open_image_file check_exe search_path checkimage_in checkimage find_magic fullfilename
    ends_with_dirsep onlypath has_char first_dir other_dirs same_bytes cell_value
open_in_c = (refl, refl, refl)

dirs-IsPath : IsPath false ((97 ∷ []) ∷ (99 ∷ []) ∷ [])
unfolding IsPath has_char
dirs-IsPath = (refl, (refl, λ still. omega arith))

open_image_file-first_of_example :
    open_image_file in_c 7 (98 ∷ 47 ∷ 103 ∷ []) (105 ∷ []) (97 ∷ 58 ∷ 99 ∷ [])
    ≡ first_of (opened_in in_c 7 (105 ∷ [])) ((98 ∷ []) ∷ (97 ∷ []) ∷ (99 ∷ []) ∷ [])
unfolding join directories exe_dirs onlypath has_char
open_image_file-first_of_example =
    open_image_file-first_of in_c 7 (105 ∷ []) (98 ∷ 47 ∷ 103 ∷ []) false
      ((97 ∷ []) ∷ (99 ∷ []) ∷ []) dirs-IsPath
