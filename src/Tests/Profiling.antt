-- ===== src/Tests/Profiling.antt =====
-- engine/profile.c: the counts of a few runs.
use gforth.Prelude.{ℕ, ◌≡◌, refl, List, [], ◌∷◌, some}
use gforth.Profile.{
  bucket, find_ip, block_lookup, with_chain, insert_absent, block_insert, change_block, count_run,
  vm_count_block, no_blocks, count_all,
}
use gforth.Profile.Counts.{occurrences, runs, more_runs, count_all-runs}

-- The second address shares the chain of the first one.
abbrev run : List ℕ
run = 4096 ∷ 8392704 ∷ 4104 ∷ 4096 ∷ []

count_run_twice : runs (block_lookup 4096 (count_all run no_blocks)) ≡ some 2
unfolding runs count_all vm_count_block with_chain change_block count_run block_insert insert_absent
    block_lookup find_ip bucket
count_run_twice = refl

count_all-runs_example :
    runs (block_lookup 8392704 (count_all run no_blocks))
    ≡ more_runs (occurrences 8392704 run) (runs (block_lookup 8392704 no_blocks))
count_all-runs_example = count_all-runs 8392704 run no_blocks
