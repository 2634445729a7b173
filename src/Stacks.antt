-- ===== src/Stacks.antt =====
-- engine/main.c: the block of memory with the stacks and its guard pages, how it is freed, the signal
-- stack, and where a signal's exception pushes its return address. Addresses and sizes are cells in bytes.
-- `mmap`, which gives nothing for MAP_FAILED, and `malloc`, which gives nothing for NULL, are parameters.
pub mod Pages
pub mod Block
pub mod Layout
pub mod Recovery
use gforth.Prelude.{
  ℕ, ◌+◌, ◌*◌, bit_and, Bool, true, false, ◌&&◌, ltb, if◌then◌else◌, Option, none, some, List, [],
  ◌∷◌, add_cell, sub_cell, neg_cell, not_cell,
}

-- The configuration: the size of a page, SIGSTKSZ, whether GFORTH_DEBUGGING is defined, and whether
-- cells below the stack bottom must be accessible (neither GFORTH_DEBUGGING nor another variant
-- without stack caching).
pub record System : Type 0 where
  pub pagesize : ℕ
  pub sigstksz : ℕ
  pub debugging : Bool
  pub cached : Bool

unfoldable pub wholepage : ℕ → ℕ → ℕ
wholepage pagesize n = bit_and (sub_cell (add_cell n pagesize) 1) (not_cell (sub_cell pagesize 1))

-- `NEXTPAGE` and `NEXTPAGE2`
unfoldable pub nextpage : ℕ → ℕ → ℕ
nextpage pagesize addr = add_cell (bit_and (sub_cell addr 1) (neg_cell pagesize)) pagesize

unfoldable pub nextpage2 : ℕ → ℕ → ℕ
nextpage2 pagesize addr = add_cell (bit_and (sub_cell addr 1) (neg_cell pagesize)) (2 * pagesize)

unfoldable pub verbose_malloc : (ℕ → Option ℕ) → ℕ → Option ℕ
verbose_malloc malloc size = elim (malloc (add_cell size 64)) [
  | none ↦ none
  | some r ↦ some (bit_and (add_cell r 7) (neg_cell 8))
]

-- The fields of the user area that are set, and its address.
pub record UserArea : Type 0 where
  pub up0 : ℕ
  pub sp0 : ℕ
  pub rp0 : ℕ
  pub fp0 : ℕ
  pub lp0 : ℕ

-- The user area, and the pages that `page_noaccess` is called for.
pub record Stacks : Type 0 where
  pub area : UserArea
  pub guards : List ℕ

-- One line of the layout: the guard page at `a`, the bottom of the stack behind it, and the next `a`.
pub record Placed : Type 0 where
  pub guard : ℕ
  pub bottom : ℕ
  pub next : ℕ

unfoldable pub place : ℕ → ℕ → ℕ → ℕ → Placed
place pagesize a size sizep = record {
  guard = a;
  bottom = add_cell (add_cell a pagesize) size;
  next = add_cell (add_cell a pagesize) sizep;
}

-- `up0->sp0 -= 8; up0->fp0--;`, and nothing otherwise: DEBUG, which would make one
-- more cell below the data stack accessible in the other builds, is expected to be undefined.
unfoldable pub below_bottom : Bool → Stacks → Stacks
below_bottom false s = s
below_bottom true s = record s {
  area = record (s.area) { sp0 = sub_cell s.area.sp0 64; fp0 = sub_cell s.area.fp0 8 };
}

module _ (sys : System) where
  unfoldable pub totalsize : ℕ → ℕ → ℕ → ℕ → ℕ
  totalsize dsizep fsizep rsizep lsizep =
      add_cell
        (add_cell (add_cell (add_cell (add_cell dsizep fsizep) rsizep) lsizep) (6 * sys.pagesize))
        (2 * sys.sigstksz)

  -- The lines behind `alloc_mmap` and behind `verbose_malloc`, up to the cached elements.
  unfoldable pub lay_out : ℕ → ℕ → ℕ → ℕ → ℕ → ℕ → ℕ → ℕ → ℕ → Stacks
  lay_out a dsize dsizep fsize fsizep rsize rsizep lsize lsizep =
      let d = place sys.pagesize (add_cell a sys.pagesize) dsize dsizep in
      let r = place sys.pagesize d.next rsize rsizep in
      let f = place sys.pagesize r.next fsize fsizep in
      let l = place sys.pagesize f.next lsize lsizep in
      record {
        area = record { up0 = a; sp0 = d.bottom; rp0 = r.bottom; fp0 = f.bottom; lp0 = l.bottom };
        guards = d.guard ∷ r.guard ∷ f.guard ∷ l.guard ∷ l.next ∷ [];
      }

  -- With GFORTH_DEBUGGING the stack bottom is aligned to a page.
  unfoldable pub bottom_size : ℕ → ℕ → ℕ
  bottom_size size sizep = if sys.debugging then sizep else size

  unfoldable pub gforth_stacks : (ℕ → Option ℕ) → (ℕ → Option ℕ) → ℕ → ℕ → ℕ → ℕ → Option Stacks
  gforth_stacks alloc_mmap malloc dsize fsize rsize lsize =
      let dsizep = wholepage sys.pagesize dsize in
      let rsizep = wholepage sys.pagesize rsize in
      let fsizep = wholepage sys.pagesize fsize in
      let lsizep = wholepage sys.pagesize lsize in
      let total = totalsize dsizep fsizep rsizep lsizep in
      let d = bottom_size dsize dsizep in
      let r = bottom_size rsize rsizep in
      let f = bottom_size fsize fsizep in
      let l = bottom_size lsize lsizep in
      elim (alloc_mmap total) [
        | some a ↦ some (below_bottom sys.cached (lay_out a d dsizep f fsizep r rsizep l lsizep))
        | none ↦ elim (verbose_malloc malloc total) [
          | some a ↦ some (record (lay_out a d dsizep f fsizep r rsizep l lsizep) { guards = [] })
          | none ↦ none
        ]
      ]

  -- `ss_sp` and `ss_size`
  unfoldable pub gforth_set_sigaltstack : UserArea → ℕ × ℕ
  gforth_set_sigaltstack t =
      (add_cell (add_cell (wholepage sys.pagesize t.lp0) sys.pagesize) sys.sigstksz, sys.sigstksz)

  -- The arguments of `munmap`.
  unfoldable pub gforth_free_stacks : UserArea → ℕ × ℕ
  gforth_free_stacks t = (
    t.up0,
    add_cell (wholepage sys.pagesize (sub_cell (add_cell t.lp0 sys.pagesize) t.up0))
        (2 * sys.sigstksz),
  )

  -- `gforth_go` behind a signal with GFORTH_DEBUGGING: the return stack pointer under which the return
  -- address is stored, or nothing when the temporary return stack is used.
  unfoldable pub saved_return_stack : UserArea → ℕ → Option ℕ
  saved_return_stack t saved_rp =
      if ltb (nextpage2 sys.pagesize t.sp0) (sub_cell saved_rp 16)
        && ltb saved_rp (nextpage sys.pagesize t.rp0)
      then some (sub_cell saved_rp 8)
      else none
