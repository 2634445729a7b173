-- ===== src/Tests/Checking.antt =====
-- engine/main.c: `check_prims` on three primitives.
use gforth.Prelude.{
  ℕ, zero, suc, ◌+◌, ◌-◌, ◌≡◌, refl, arith, false, List, [], ◌∷◌, map, none, some, ltb,
  if◌then◌else◌,
}
use gforth.Prelude.Int.{ℤ, pos, ◌+ℤ◌, ◌-ℤ◌}
use gforth.Code.{ltz}
use gforth.Check.{
  bsearch_next, Source, Engines, Entry, entry_at, has_start, is_offset, difference, same_code,
  adjust, compare_code, check_ended, initial_info, check_label, check_one, note_max, count_back,
  note_offsets, check_step, check_prims,
}
use gforth.Check.Search.{IsSorted, IsNext, bsearch_next-IsNext}
use gforth.Check.Copies.{IsCopyable, check_one-IsCopyable}
use gforth.Check.Variants.{Good}
use gforth.Check.Loop.{check_prims-Good}

-- The second engine is 1000 bytes behind the first one, and differs in the third primitive.
abbrev engines : Engines
engines = record {
  memory = λ at. if ltb at 1000 then at else if ltb at 1130 then at - 1000 else 0;
  labels = 110 ∷ 120 ∷ 140 ∷ [];
  no_super = false;
  opt_ip_updates = 7;
  check_prim = λ start size. false;
}

abbrev source : ℕ → ℤ → Source
source at offset = record {
  symbol1 = at;
  symbol2 = 1000 + at;
  startb = at;
  end1 = at + 8;
  superend = false;
  ip_offset = offset;
}

-- A primitive, its variant for an offset of one cell, and one that cannot be copied.
abbrev sources : List Source
sources = source 100 (pos 0) ∷ source 111 (pos 1) ∷ source 125 (pos 0) ∷ []

check_sources :
    map (λ (q : Entry). q.info.start) (check_prims engines sources [])
    ≡ none ∷ some 111 ∷ some 100 ∷ []
unfolding check_prims check_step note_offsets note_max count_back check_one check_label check_ended
    initial_info compare_code adjust same_code bsearch_next difference entry_at has_start is_offset
    ltz ◌+ℤ◌ ◌-ℤ◌
check_sources = refl

note_sources :
    map (λ (q : Entry). q.info.max_ip_offset) (check_prims engines sources []) ≡ 0 ∷ 0 ∷ 1 ∷ []
unfolding check_prims check_step note_offsets note_max count_back check_one check_label check_ended
    initial_info compare_code adjust same_code bsearch_next difference entry_at has_start is_offset
    ltz ◌+ℤ◌ ◌-ℤ◌
note_sources = refl

labels_IsSorted : IsSorted engines.labels 0 3
labels_IsSorted zero zero low order inside = omega arith
labels_IsSorted zero (suc zero) low order inside = omega arith
labels_IsSorted zero (suc (suc zero)) low order inside = omega arith
labels_IsSorted (suc zero) (suc zero) low order inside = omega arith
labels_IsSorted (suc zero) (suc (suc zero)) low order inside = omega arith
labels_IsSorted (suc (suc zero)) (suc (suc zero)) low order inside = omega arith
labels_IsSorted i (suc (suc (suc j))) low order inside = absurd (omega arith)
labels_IsSorted (suc i) zero low order inside = absurd (omega arith)
labels_IsSorted (suc (suc i)) (suc zero) low order inside = absurd (omega arith)
labels_IsSorted (suc (suc (suc i))) (suc (suc zero)) low order inside = absurd (omega arith)

bsearch_next-IsNext_example : IsNext 115 engines.labels 0 3 (bsearch_next 3 115 engines.labels 0 3)
bsearch_next-IsNext_example =
    bsearch_next-IsNext 3 115 engines.labels 0 3 (omega arith) labels_IsSorted

check_one-IsCopyable_example :
    (◌≡◌ {A = ℕ} 100 100)
    × IsCopyable engines (source 100 (pos 0)) (check_one engines (source 100 (pos 0))).info
unfolding check_one check_label check_ended initial_info compare_code adjust same_code bsearch_next
    difference ltz ◌+ℤ◌ ◌-ℤ◌
check_one-IsCopyable_example =
    check_one-IsCopyable engines (source 100 (pos 0)) 100 labels_IsSorted refl

none_yet : Good engines []
unfolding entry_at
none_yet = record {
  copies = λ i start q there begins. absurd (ground (arith, there));
  later = λ i k q there some_k small. absurd (ground (arith, there));
  earlier = λ i k q there small. absurd (ground (arith, there));
}

check_prims-Good_example : Good engines (check_prims engines sources [])
check_prims-Good_example = check_prims-Good engines labels_IsSorted sources [] none_yet
