-- ===== src/Stacks/Block.antt =====
-- engine/main.c: what the block of the stacks holds, and the layout of `lay_out` without wrap-around.
use gforth.Prelude.{
  ℕ, ◌+◌, ◌*◌, ◌≤◌, ◌<◌, ◌≡◌, refl, ◌∙◌, ap, arith, cell_mod, add_cell, Bool, true, false,
  if◌then◌else◌, [], ◌∷◌,
}
use gforth.Parse.White.{All}
use native.Mathlib.Nat.{div-eq_of_lt}
use gforth.Stacks.{
  System, Stacks, place, totalsize, lay_out, gforth_set_sigaltstack, gforth_free_stacks,
}
use gforth.Stacks.Pages.{IsPagesize, pages, pagesize_pos, pages_bounds, pages-behind}

-- A multiple of the size of a page.
abbrev pub IsAligned : ℕ → ℕ → Type 0
IsAligned p x = (q : ℕ) × (x ≡ q * p)

-- A stack of so many bytes between two guard pages, with so many bytes accessible below its bottom. With
-- GFORTH_DEBUGGING they end at the next guard page.
pub record IsStack (debugging : Bool) (p guard next_guard size reserve bottom : ℕ) : Type 0 where
  pub room : (guard + p) + size ≤ bottom + reserve
  pub below : bottom + reserve ≤ next_guard
  pub at_guard : debugging ≡ true → bottom + reserve ≡ next_guard
  pub exact : debugging ≡ false → bottom + reserve ≡ (guard + p) + size

abbrev pub cached_bytes : Bool → ℕ → ℕ
cached_bytes cached n = if cached then n else 0

-- What the block holds: the page of the user area, then the data, return, floating-point and locals
-- stacks, each behind a guard page, a last guard page, and two signal stacks.
pub record IsLaidOut (sys : System) (a d f r l total : ℕ) (s : Stacks) : Type 0 where
  pub g1 : ℕ
  pub g2 : ℕ
  pub g3 : ℕ
  pub g4 : ℕ
  pub user : s.area.up0 ≡ a
  pub guards : s.guards ≡ (a + sys.pagesize) ∷ g1 ∷ g2 ∷ g3 ∷ g4 ∷ []
  pub aligned : All (IsAligned sys.pagesize) s.guards
  pub data_stack :
      IsStack sys.debugging sys.pagesize
        (a + sys.pagesize)
        g1
        d
        (cached_bytes sys.cached 64)
        s.area.sp0
  pub return_stack : IsStack sys.debugging sys.pagesize g1 g2 r 0 s.area.rp0
  pub float_stack :
      IsStack sys.debugging sys.pagesize g2 g3 f (cached_bytes sys.cached 8) s.area.fp0
  pub locals_stack : IsStack sys.debugging sys.pagesize g3 g4 l 0 s.area.lp0
  pub end : ((g4 + sys.pagesize) + sys.sigstksz) + sys.sigstksz ≡ a + total
  pub signal_stack :
      gforth_set_sigaltstack sys s.area ≡ ((g4 + sys.pagesize) + sys.sigstksz, sys.sigstksz)
  pub freed : gforth_free_stacks sys s.area ≡ (a, total)

place_lem :
    (p a size sizep : ℕ)
    → size ≤ sizep
    → (a + p) + sizep < cell_mod
    → place p a size sizep ≡ record { guard = a; bottom = (a + p) + size; next = (a + p) + sizep }
unfolding place
place_lem p a size sizep fits bound =
    let step : add_cell a p ≡ a + p = omega (arith, bound) in
    let bottom : add_cell (a + p) size ≡ (a + p) + size = omega (arith, fits, bound) in
    let next : add_cell (a + p) sizep ≡ (a + p) + sizep = omega (arith, bound) in
    rw (step, bottom, next) refl

module _ (p : ℕ) (is : IsPagesize p) where
  -- What is used of the `n` pages for so many bytes.
  pub record IsSize (debugging : Bool) (size used n : ℕ) : Type 0 where
    pub fits : size ≤ used
    pub inside : used ≤ n * p
    pub debug : debugging ≡ true → used ≡ n * p
    pub plain : debugging ≡ false → used ≡ size
    pub whole : pages p used ≡ n

  pages_zero : pages p 0 ≡ 0
  pages_zero = div-eq_of_lt (omega (arith, pagesize_pos p is))

  pub used-IsSize :
      (debugging : Bool) (size : ℕ)
      → IsSize debugging size (if debugging then pages p size * p else size) (pages p size)
  used-IsSize true size = record {
    fits = (pages_bounds p is size).0;
    inside = omega arith;
    debug = λ h. refl;
    plain = λ h. absurd (ground (arith, h));
    whole =
        let n = pages p size in
        let start : n * p ≡ 0 + n * p = omega arith in
        ap (pages p) start ∙ pages-behind p is n 0 ∙ ap (λ m. m + n) pages_zero ∙ omega arith;
  }
  used-IsSize false size = record {
    fits = omega arith;
    inside = (pages_bounds p is size).0;
    debug = λ h. absurd (ground (arith, h));
    plain = λ h. refl;
    whole = refl;
  }

  -- A stack behind a guard page at `a`.
  pub placed-IsStack :
      (debugging : Bool) (a size used n reserve bottom : ℕ)
      → IsSize debugging size used n
      → bottom + reserve ≡ (a + p) + used
      → IsStack debugging p a ((a + p) + n * p) size reserve bottom
  placed-IsStack debugging a size used n reserve bottom s at = record {
    room = omega (arith, s.fits, at);
    below = omega (arith, s.inside, at);
    at_guard = λ h. at ∙ ap (λ u. (a + p) + u) (s.debug h);
    exact = λ h. at ∙ ap (λ u. (a + p) + u) (s.plain h);
  }

-- The layout without wrap-around, for stacks that take `d`, `r`, `f` and `l` bytes with their last page.
module _ (sys : System) (a d r f l : ℕ) where
  abbrev pub p : ℕ
  p = sys.pagesize

  abbrev pub total : ℕ
  total = ((((d + f) + r) + l) + 6 * p) + 2 * sys.sigstksz

  abbrev pub guard1 : ℕ
  guard1 = ((a + p) + p) + d

  abbrev pub guard2 : ℕ
  guard2 = (guard1 + p) + r

  abbrev pub guard3 : ℕ
  guard3 = (guard2 + p) + f

  abbrev pub guard4 : ℕ
  guard4 = (guard3 + p) + l

  module _ (ud ur uf ul : ℕ) where
    abbrev pub plain_layout : Stacks
    plain_layout = record {
      area = record {
        up0 = a;
        sp0 = ((a + p) + p) + ud;
        rp0 = (guard1 + p) + ur;
        fp0 = (guard2 + p) + uf;
        lp0 = (guard3 + p) + ul;
      };
      guards = (a + p) ∷ guard1 ∷ guard2 ∷ guard3 ∷ guard4 ∷ [];
    }

    module _ (bound : a + total < cell_mod) (dd : ud ≤ d) (rr : ur ≤ r) (ff : uf ≤ f)
        (ll : ul ≤ l) where
      pub totalsize_lem : totalsize sys d f r l ≡ total
      unfolding totalsize
      totalsize_lem = omega (arith, bound)

      pub lay_out_lem : lay_out sys a ud d uf f ur r ul l ≡ plain_layout
      unfolding lay_out
      lay_out_lem =
          let first : add_cell a p ≡ a + p = omega (arith, bound) in
          let data_stack = place_lem p (a + p) ud d dd (omega (arith, bound)) in
          let return_stack = place_lem p guard1 ur r rr (omega (arith, bound)) in
          let float_stack = place_lem p guard2 uf f ff (omega (arith, bound)) in
          let locals_stack = place_lem p guard3 ul l ll (omega (arith, bound)) in
          rw (first, data_stack, return_stack, float_stack, locals_stack) refl
