-- ===== src/Tests/Guarding.antt =====
-- engine/main.c: stacks of 5000 bytes each with pages of 4096 bytes.
use gforth.Prelude.{
  ℕ, ◌≡◌, ◌⊎◌, ◌≤◌, ◌<◌, sub_cell, ◌+◌, ◌*◌, refl, arith, true, false, Option, none, some, [], ◌∷◌,
}
use gforth.Stacks.{
  System, nextpage, nextpage2, wholepage, verbose_malloc, Stacks, place, totalsize, lay_out,
  below_bottom, bottom_size, gforth_stacks, gforth_set_sigaltstack, gforth_free_stacks,
  saved_return_stack,
}
use gforth.Stacks.Pages.{IsPagesize}
use gforth.Stacks.Block.{IsLaidOut}
use gforth.Stacks.Layout.{gforth_stacks-IsLaidOut}
use gforth.Stacks.Recovery.{IsPushed, saved_return_stack-IsPushed}

abbrev debug_build : System
debug_build = record { pagesize = 4096; sigstksz = 8192; debugging = true; cached = false }

abbrev fast_build : System
fast_build = record { pagesize = 4096; sigstksz = 8192; debugging = false; cached = true }

abbrev memory : ℕ → Option ℕ
memory size = some (16 * 4096)

abbrev no_memory : ℕ → Option ℕ
no_memory size = none

abbrev debug_stacks : Stacks
debug_stacks = record {
  area = record { up0 = 65536; sp0 = 81920; rp0 = 94208; fp0 = 106496; lp0 = 118784 };
  guards = 69632 ∷ 81920 ∷ 94208 ∷ 106496 ∷ 118784 ∷ [];
}

-- The bottoms of the data and the floating-point stack are 64 and 8 bytes lower than their sizes say.
abbrev fast_stacks : Stacks
fast_stacks = record {
  area = record { up0 = 65536; sp0 = 78664; rp0 = 91016; fp0 = 103296; lp0 = 115592 };
  guards = 69632 ∷ 81920 ∷ 94208 ∷ 106496 ∷ 118784 ∷ [];
}

stacks_of_builds :
    (gforth_stacks debug_build memory no_memory 5000 5000 5000 5000 ≡ some debug_stacks)
    × (gforth_stacks fast_build memory no_memory 5000 5000 5000 5000 ≡ some fast_stacks)
    × (gforth_stacks fast_build no_memory no_memory 5000 5000 5000 5000 ≡ none)
unfolding gforth_stacks wholepage verbose_malloc place totalsize lay_out below_bottom bottom_size
stacks_of_builds = (refl, refl, refl)

page-IsPagesize : IsPagesize 4096
page-IsPagesize = record { j = 51; k = 12; power = refl; pages = refl }

debug_stacks-IsLaidOut : IsLaidOut debug_build 65536 5000 5000 5000 5000 73728 debug_stacks
unfolding wholepage gforth_set_sigaltstack gforth_free_stacks
debug_stacks-IsLaidOut = record {
  g1 = 81920;
  g2 = 94208;
  g3 = 106496;
  g4 = 118784;
  user = refl;
  guards = refl;
  aligned = ((17, refl), ((20, refl), ((23, refl), ((26, refl), ((29, refl), tt)))));
  data_stack = record {
    room = omega arith;
    below = omega arith;
    at_guard = λ h. refl;
    exact = λ h. absurd (ground (arith, h));
  };
  return_stack = record {
    room = omega arith;
    below = omega arith;
    at_guard = λ h. refl;
    exact = λ h. absurd (ground (arith, h));
  };
  float_stack = record {
    room = omega arith;
    below = omega arith;
    at_guard = λ h. refl;
    exact = λ h. absurd (ground (arith, h));
  };
  locals_stack = record {
    room = omega arith;
    below = omega arith;
    at_guard = λ h. refl;
    exact = λ h. absurd (ground (arith, h));
  };
  end = refl;
  signal_stack = refl;
  freed = refl;
}

gforth_stacks-IsLaidOut_example :
    (s : Stacks) × (gforth_stacks fast_build memory no_memory 5000 5000 5000 5000 ≡ some s)
    × IsLaidOut fast_build (16 * 4096) 5000 5000 5000 5000 73728 s
gforth_stacks-IsLaidOut_example =
    gforth_stacks-IsLaidOut fast_build page-IsPagesize (omega arith) 16 5000 5000 5000 5000
      (omega arith) (omega arith) memory no_memory refl

-- A return stack of two cells.
saved_return_stack-IsPushed_example :
    ((16 ≤ 94184)
      × IsPushed
          (debug_stacks-IsLaidOut.g1 + 4096)
          94208
          94184
          (saved_return_stack debug_build debug_stacks.area 94184))
    ⊎ ((94184 < 16)
        × (saved_return_stack debug_build debug_stacks.area 94184 ≡ some (sub_cell 94184 8)))
saved_return_stack-IsPushed_example =
    saved_return_stack-IsPushed debug_build page-IsPagesize refl refl 65536 5000 5000 5000 5000
      73728 debug_stacks debug_stacks-IsLaidOut (omega arith) 94184 (omega arith) (omega arith)

-- A saved pointer of NULL.
saved_null : saved_return_stack debug_build debug_stacks.area 0 ≡ some 18446744073709551608
unfolding saved_return_stack nextpage2 nextpage
saved_null = refl
