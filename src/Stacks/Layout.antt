-- ===== src/Stacks/Layout.antt =====
-- engine/main.c: the stacks of `gforth_stacks` lie between guard pages, and `gforth_free_stacks` frees the
-- whole block.
use gforth.Prelude.{
  ℕ, ◌+◌, ◌*◌, ◌≤◌, ◌<◌, ◌≡◌, refl, ◌∙◌, sym, ap, subst, arith, cell_mod, add_cell, sub_cell, Bool,
  true, false, if◌then◌else◌, Option, some,
}
use gforth.Parse.White.{All}
use native.Mathlib.Nat.{mul-le-mul_right}
use gforth.Stacks.{
  System, wholepage, UserArea, Stacks, below_bottom, bottom_size, gforth_stacks,
  gforth_set_sigaltstack, gforth_free_stacks,
}
use gforth.Stacks.Pages.{
  IsPagesize, pages, pagesize_pos, wholepage-pages, pages_bounds, pages-behind,
}
use gforth.Stacks.Block.{
  IsAligned, cached_bytes, IsLaidOut, IsSize, used-IsSize, placed-IsStack, total, guard1, guard2,
  guard3, guard4, plain_layout, totalsize_lem, lay_out_lem,
}

-- What `below_bottom` leaves, and what it changes.
record IsBelow (cached : Bool) (s t : Stacks) : Type 0 where
  user : t.area.up0 ≡ s.area.up0
  data_stack : t.area.sp0 + cached_bytes cached 64 ≡ s.area.sp0
  return_stack : t.area.rp0 ≡ s.area.rp0
  float_stack : t.area.fp0 + cached_bytes cached 8 ≡ s.area.fp0
  locals_stack : t.area.lp0 ≡ s.area.lp0
  guards : t.guards ≡ s.guards

below_bottom-IsBelow :
    (cached : Bool) (s : Stacks)
    → 64 ≤ s.area.sp0
    → s.area.sp0 < cell_mod
    → 8 ≤ s.area.fp0
    → s.area.fp0 < cell_mod
    → IsBelow cached s (below_bottom cached s)
unfolding below_bottom
below_bottom-IsBelow false s d d_end f f_end = record {
  user = refl;
  data_stack = omega arith;
  return_stack = refl;
  float_stack = omega arith;
  locals_stack = refl;
  guards = refl;
}
below_bottom-IsBelow true s d d_end f f_end = record {
  user = refl;
  data_stack = omega (arith, d, d_end);
  return_stack = refl;
  float_stack = omega (arith, f, f_end);
  locals_stack = refl;
  guards = refl;
}

module _ (sys : System) (is : IsPagesize sys.pagesize) (holds_user_area : 64 ≤ sys.pagesize)
    (q dsize fsize rsize lsize : ℕ) (not_null : 0 < q) where
  abbrev page : ℕ
  page = sys.pagesize

  abbrev taken : ℕ → ℕ
  taken n = pages page n * page

  abbrev used : ℕ → ℕ
  used n = if sys.debugging then taken n else n

  -- The size of the block, without wrap-around.
  abbrev pub block_size : ℕ
  block_size = total sys (q * page) (taken dsize) (taken rsize) (taken fsize) (taken lsize)

  abbrev laid_out : Stacks
  laid_out =
      plain_layout sys (q * page) (taken dsize) (taken rsize) (taken fsize) (taken lsize)
        (used dsize) (used rsize) (used fsize) (used lsize)

  abbrev laid_out_end : ℕ
  laid_out_end = guard4 sys (q * page) (taken dsize) (taken rsize) (taken fsize) (taken lsize)

  module _ (bound : q * page + block_size < cell_mod) where
    used-IsSize_of : (n : ℕ) → IsSize page is sys.debugging n (used n) (pages page n)
    used-IsSize_of n = used-IsSize page is sys.debugging n

    taken_bound : (n : ℕ) → n ≤ taken n
    taken_bound n = (pages_bounds page is n).0

    gforth_stacks_lem :
        (alloc_mmap malloc : ℕ → Option ℕ)
        → alloc_mmap block_size ≡ some (q * page)
        → gforth_stacks sys alloc_mmap malloc dsize fsize rsize lsize
          ≡ some (below_bottom sys.cached laid_out)
    unfolding gforth_stacks bottom_size
    gforth_stacks_lem alloc_mmap malloc mapped =
        let d = wholepage-pages page is dsize (omega (arith, taken_bound dsize, bound)) in
        let r = wholepage-pages page is rsize (omega (arith, taken_bound rsize, bound)) in
        let f = wholepage-pages page is fsize (omega (arith, taken_bound fsize, bound)) in
        let l = wholepage-pages page is lsize (omega (arith, taken_bound lsize, bound)) in
        let ud = (used-IsSize_of dsize).inside in
        let ur = (used-IsSize_of rsize).inside in
        let uf = (used-IsSize_of fsize).inside in
        let ul = (used-IsSize_of lsize).inside in
        let size =
          totalsize_lem sys (q * page) (taken dsize) (taken rsize) (taken fsize) (taken lsize)
            (used dsize) (used rsize) (used fsize) (used lsize) bound ud ur uf ul in
        let placed =
          lay_out_lem sys (q * page) (taken dsize) (taken rsize) (taken fsize) (taken lsize)
            (used dsize) (used rsize) (used fsize) (used lsize) bound ud ur uf ul in
        simp (gforth_stacks, d, r, f, l, size, mapped, placed) refl

    abbrev behind : ℕ
    behind = (pages page dsize + pages page rsize) + pages page fsize

    bottom_bound : used lsize ≤ taken lsize
    bottom_bound = (used-IsSize_of lsize).inside

    signal_stack_lem :
        (t : UserArea)
        → t.lp0 ≡ laid_out.area.lp0
        → gforth_set_sigaltstack sys t ≡ ((laid_out_end + page) + sys.sigstksz, sys.sigstksz)
    unfolding gforth_set_sigaltstack
    signal_stack_lem t at =
        let pos = pagesize_pos page is in
        let moved : t.lp0 ≡ used lsize + ((q + 5) + behind) * page = at ∙ omega arith in
        let whole : wholepage page t.lp0 ≡ laid_out_end =
          wholepage-pages page is t.lp0 (omega (arith, moved, bound, bottom_bound))
          ∙ ap (λ x. pages page x * page) moved
          ∙ ap (λ n. n * page) (pages-behind page is ((q + 5) + behind) (used lsize))
          ∙ ap (λ n. (n + ((q + 5) + behind)) * page) (used-IsSize_of lsize).whole
          ∙ omega arith in
        let step : add_cell (add_cell laid_out_end page) sys.sigstksz
            ≡ (laid_out_end + page) + sys.sigstksz =
          omega (arith, bound) in
        rw (whole, step) refl

    freed_lem :
        (t : UserArea)
        → t.up0 ≡ q * page
        → t.lp0 ≡ laid_out.area.lp0
        → gforth_free_stacks sys t ≡ (q * page, block_size)
    unfolding gforth_free_stacks
    freed_lem t user at =
        let moved : sub_cell (add_cell t.lp0 page) t.up0 ≡ used lsize + (6 + behind) * page =
          omega (arith, user, at, bound, bottom_bound) in
        let whole : wholepage page (sub_cell (add_cell t.lp0 page) t.up0)
            ≡ (pages page lsize + (6 + behind)) * page =
          ap (wholepage page) moved
          ∙ wholepage-pages page is (used lsize + (6 + behind) * page)
              (omega (arith, bound, bottom_bound, mul-le-mul_right page not_null))
          ∙ ap (λ n. n * page) (pages-behind page is (6 + behind) (used lsize))
          ∙ ap (λ n. (n + (6 + behind)) * page) (used-IsSize_of lsize).whole in
        let step : add_cell ((pages page lsize + (6 + behind)) * page) (2 * sys.sigstksz)
            ≡ block_size =
          omega (arith, bound) in
        rw (whole, step, user) refl

    laid_out-IsLaidOut :
        (s : Stacks)
        → IsBelow sys.cached laid_out s
        → IsLaidOut sys (q * page) dsize fsize rsize lsize block_size s
    laid_out-IsLaidOut s b = record {
      g1 = guard1 sys (q * page) (taken dsize) (taken rsize) (taken fsize) (taken lsize);
      g2 = guard2 sys (q * page) (taken dsize) (taken rsize) (taken fsize) (taken lsize);
      g3 = guard3 sys (q * page) (taken dsize) (taken rsize) (taken fsize) (taken lsize);
      g4 = laid_out_end;
      user = b.user;
      guards = b.guards;
      aligned = subst (All (IsAligned page)) (sym b.guards) (
        (q + 1, omega arith),
        (
          ((q + 2) + pages page dsize, omega arith),
          (
            (((q + 3) + pages page dsize) + pages page rsize, omega arith),
            (
              ((q + 4) + behind, omega arith),
              ((((q + 5) + behind) + pages page lsize, omega arith), tt),
            ),
          ),
        ),
      );
      data_stack =
          placed-IsStack page is sys.debugging _ _ _ _ _ _ (used-IsSize_of dsize) b.data_stack;
      return_stack =
          placed-IsStack page is sys.debugging _ _ _ _ 0 _ (used-IsSize_of rsize)
            (omega (arith, b.return_stack));
      float_stack =
          placed-IsStack page is sys.debugging _ _ _ _ _ _ (used-IsSize_of fsize) b.float_stack;
      locals_stack =
          placed-IsStack page is sys.debugging _ _ _ _ 0 _ (used-IsSize_of lsize)
            (omega (arith, b.locals_stack));
      end = omega arith;
      signal_stack = signal_stack_lem s.area b.locals_stack;
      freed = freed_lem s.area b.user b.locals_stack;
    }

    -- For a block that `mmap` gives, not at NULL and inside the address space, with pages of a power of two
    -- that hold the user area: the data, return, floating-point and locals stacks have their sizes and
    -- lie in this order, each between two guard pages, which are aligned, also the cells below the
    -- bottom that stack caching reads; with GFORTH_DEBUGGING each bottom touches the next guard page;
    -- the signal stack is the last SIGSTKSZ bytes of the block; and `gforth_free_stacks` unmaps the
    -- block, at its address and with its size.
    pub gforth_stacks-IsLaidOut :
        (alloc_mmap malloc : ℕ → Option ℕ)
        → alloc_mmap block_size ≡ some (q * page)
        → (s : Stacks) × (gforth_stacks sys alloc_mmap malloc dsize fsize rsize lsize ≡ some s)
          × IsLaidOut sys (q * page) dsize fsize rsize lsize block_size s
    gforth_stacks-IsLaidOut alloc_mmap malloc mapped =
        let below =
          below_bottom-IsBelow sys.cached laid_out (omega (arith, holds_user_area))
            (omega (arith, bound, (used-IsSize_of dsize).inside)) (omega (arith, holds_user_area))
            (omega (arith, bound, (used-IsSize_of fsize).inside)) in
        (
          below_bottom sys.cached laid_out,
          gforth_stacks_lem alloc_mmap malloc mapped,
          laid_out-IsLaidOut _ below,
        )
