-- ===== src/Tests/Texts.antt =====
-- engine/support.c, engine/memmove.c, engine/peephole.c: names, words, pairs of primitives, comparisons and copies at concrete inputs.
use gforth.Prelude.{
  ℕ, ◌≡◌, ◌+◌, Bool, leb, ◌==◌, if◌then◌else◌, refl, arith, List, [], ◌∷◌, none, some, map,
}
use gforth.Prelude.Int.{negsuc, pos}
use gforth.Strings.{
  memcmp, sign, or_lengths, compare, ascii_toupper, memcasecmp, clip_lengths, capscompare, is_zero,
  Longname, listlfind, tablelfind,
}
use gforth.Strings.Order.{Compared, compare-Compared, capscompare-compare}
use gforth.Strings.Names.{Finds, listlfind-Finds, tablelfind-Finds}
use gforth.Parse.{leading, parse_white}
use gforth.Parse.White.{IsWord, parse_white-IsWord}
use gforth.Peephole.{Combination, peephole_opt, prepare_peephole_table}
use gforth.Peephole.Last.{last_row, peephole_opt-last_row}
use gforth.Memory.{byte, cmove, cmove_up, memmove}
use gforth.Memory.Copies.{IsCopied, cmove_repeats, memmove-IsCopied}

-- "dup", "Dup", "du"
abbrev dup : List ℕ
dup = 100 ∷ 117 ∷ 112 ∷ []

abbrev caps_dup : List ℕ
caps_dup = 68 ∷ 117 ∷ 112 ∷ []

abbrev du : List ℕ
du = 100 ∷ 117 ∷ []

abbrev words : List Longname
words =
    record { address = 8; name = du }
    ∷ record { address = 16; name = caps_dup }
    ∷ record { address = 24; name = dup }
    ∷ record { address = 32; name = dup }
    ∷ []

abbrev mem : List ℕ
mem = 1 ∷ 2 ∷ 3 ∷ 4 ∷ 5 ∷ 6 ∷ []

compare_words :
    (compare dup caps_dup ≡ pos 1)
    × (compare du dup ≡ negsuc 0)
    × (capscompare dup caps_dup ≡ pos 0)
unfolding compare sign or_lengths memcmp capscompare clip_lengths memcasecmp ascii_toupper
compare_words = (refl, refl, refl)

find_words :
    (listlfind dup words ≡ some (record { address = 16; name = caps_dup }))
    × (tablelfind dup words ≡ some (record { address = 24; name = dup }))
unfolding listlfind tablelfind memcmp memcasecmp ascii_toupper is_zero
find_words = (refl, refl)

cmove_overlap : cmove mem 0 2 4 ≡ 1 ∷ 2 ∷ 1 ∷ 2 ∷ 1 ∷ 2 ∷ []
unfolding cmove
cmove_overlap = refl

memmove_overlap : memmove mem 2 0 4 ≡ 1 ∷ 2 ∷ 1 ∷ 2 ∷ 3 ∷ 4 ∷ []
unfolding memmove cmove_up
memmove_overlap = refl

compare-Compared_example : Compared du dup (compare du dup)
compare-Compared_example = compare-Compared du dup (omega arith) (omega arith)

capscompare-compare_example :
    capscompare dup caps_dup ≡ compare (map ascii_toupper dup) (map ascii_toupper caps_dup)
capscompare-compare_example = capscompare-compare dup caps_dup (omega arith) (omega arith)

listlfind-Finds_example :
    Finds (λ w. map ascii_toupper w.name ≡ map ascii_toupper dup) words (listlfind dup words)
listlfind-Finds_example = listlfind-Finds dup words

tablelfind-Finds_example : Finds (λ w. w.name ≡ dup) words (tablelfind dup words)
tablelfind-Finds_example = tablelfind-Finds dup words

memmove-IsCopied_example : IsCopied mem 0 2 4 (memmove mem 2 0 4)
memmove-IsCopied_example = memmove-IsCopied mem 2 0 4 (omega arith)

cmove_repeats_example : byte (cmove mem 0 2 4) (2 + 3) ≡ byte (cmove mem 0 2 4) (0 + 3)
cmove_repeats_example = cmove_repeats mem 0 2 4 3 (omega arith) (omega arith) (omega arith)

abbrev is_blank : ℕ → Bool
is_blank c = leb c 32

-- " du  dup"
abbrev line : List ℕ
line = 32 ∷ 100 ∷ 117 ∷ 32 ∷ 32 ∷ 100 ∷ 117 ∷ 112 ∷ []

parse_line : parse_white is_blank line ≡ record { n1 = 1; n2 = 2 }
unfolding parse_white leading
parse_line = refl

parse_white-IsWord_example : IsWord is_blank line (parse_white is_blank line)
parse_white-IsWord_example = parse_white-IsWord is_blank line

-- Two rows for the pair of the primitives 0 and 1, of which the later one counts.
abbrev rows : List Combination
rows =
    record { prefix = 0; lastprim = 1; combination_prim = 2 }
    ∷ record { prefix = 0; lastprim = 1; combination_prim = 3 }
    ∷ []

abbrev addresses : List ℕ
addresses = 4096 ∷ 4160 ∷ 4224 ∷ 4288 ∷ []

peephole_opt-last_row_example :
    peephole_opt 1 4096 4160 (prepare_peephole_table rows addresses)
    ≡ (if 1 == 0 then none else last_row addresses 4096 4160 rows none)
peephole_opt-last_row_example = peephole_opt-last_row addresses 4096 4160 1 rows

last_of_rows : last_row addresses 4096 4160 rows none ≡ some 4288
unfolding last_row
last_of_rows = refl
