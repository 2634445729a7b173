-- ===== src/Stacks/Recovery.antt =====
-- engine/main.c: the test of the saved return stack pointer in `gforth_go`, on the stacks of `gforth_stacks`.
use gforth.Prelude.{
  ℕ, zero, suc, inl, inr, Bool-cases, ◌+◌, ◌-◌, ◌≤◌, ◌<◌, ◌≡◌, ◌⊎◌, refl, sym, ap, subst, arith,
  cell_mod, sub_cell, true, false, ◌&&◌, ltb, if◌then◌else◌, Option, none, some,
}
use gforth.Parse.White.{All}
use gforth.Stacks.{System, nextpage, nextpage2, Stacks, saved_return_stack}
use gforth.Stacks.Pages.{IsPagesize, pagesize_pos, nextpage-aligned}
use gforth.Stacks.Block.{IsAligned, cached_bytes, IsLaidOut}

-- A cell is pushed from `saved_rp` on, inside the stack that lies from `low` to `high`, with room for one
-- cell more; or there is nothing to push and `saved_rp` leaves no such room.
abbrev pub IsPushed : ℕ → ℕ → ℕ → Option ℕ → Type 0
IsPushed low high saved_rp none = (saved_rp ≤ low + 16) ⊎ (high ≤ saved_rp)
IsPushed low high saved_rp (some rp) = (rp + 8 ≡ saved_rp) × (low + 8 < rp) × (rp + 8 < high)

aligned_nextpage :
    (p : ℕ) (is : IsPagesize p) (x : ℕ)
    → IsAligned p x
    → 0 < x
    → x + p < cell_mod
    → (nextpage p x ≡ x) × (nextpage2 p x ≡ x + p)
aligned_nextpage p is x (zero, at) pos bound = absurd (omega (arith, at, pos))
aligned_nextpage p is x (suc q, at) pos bound =
    subst (λ y. y + p < cell_mod → (nextpage p y ≡ y) × (nextpage2 p y ≡ y + p)) (sym at)
      (nextpage-aligned p is q) bound

tested-IsPushed :
    (low high saved_rp : ℕ)
    → 16 ≤ saved_rp
    → saved_rp < cell_mod
    → IsPushed low high saved_rp (
        if ltb low (sub_cell saved_rp 16) && ltb saved_rp high
        then some (sub_cell saved_rp 8)
        else none)
tested-IsPushed low high saved_rp room bound =
    let back16 : sub_cell saved_rp 16 ≡ saved_rp - 16 = omega (arith, room, bound) in
    let back8 : sub_cell saved_rp 8 ≡ saved_rp - 8 = omega (arith, room, bound) in
    rw (back16, back8)
      (elim (Bool-cases (ltb low (saved_rp - 16) && ltb saved_rp high)) [
        | inl e ↦ rw e (ground (arith, e, room), ground (arith, e, room), ground (arith, e, room))
        | inr e ↦ rw e (outside e)
      ])
  where
    outside :
        (ltb low (saved_rp - 16) && ltb saved_rp high) ≡ false
        → (saved_rp ≤ low + 16) ⊎ (high ≤ saved_rp)
    outside e = ground (arith, e, room)

tested_wrapped :
    (low high saved_rp : ℕ)
    → low + 16 < cell_mod
    → 16 ≤ high
    → saved_rp < 16
    → (ltb low (sub_cell saved_rp 16) && ltb saved_rp high) ≡ true
tested_wrapped low high saved_rp room some_room small =
    let back : sub_cell saved_rp 16 ≡ saved_rp + cell_mod - 16 = omega (arith, small) in
    rw back (ground (arith, room, some_room, small))

tested-Tested :
    (low high saved_rp : ℕ)
    → low + 16 < cell_mod
    → 16 ≤ high
    → saved_rp < cell_mod
    → let rp =
        if ltb low (sub_cell saved_rp 16) && ltb saved_rp high
        then some (sub_cell saved_rp 8)
        else none in
      ((16 ≤ saved_rp) × IsPushed low high saved_rp rp)
      ⊎ ((saved_rp < 16) × (rp ≡ some (sub_cell saved_rp 8)))
tested-Tested low high saved_rp room some_room bound = elim (Bool-cases (ltb saved_rp 16)) [
  | inl small ↦
      let few : saved_rp < 16 = ground (arith, small) in
      inr (few, rw (tested_wrapped low high saved_rp room some_room few) refl)
  | inr large ↦
      let many : 16 ≤ saved_rp = ground (arith, large) in
      inl (many, tested-IsPushed low high saved_rp many bound)
]

module _ (sys : System) (is : IsPagesize sys.pagesize) (debugging : sys.debugging ≡ true)
    (cached : sys.cached ≡ false) (a d f r l total : ℕ) (s : Stacks)
    (laid_out : IsLaidOut sys a d f r l total s) (bound : a + total < cell_mod) where
  -- In a build with GFORTH_DEBUGGING, which has no cells to access below a stack bottom, with pages of 64
  -- bytes or more, on stacks laid out by `gforth_stacks` inside the address space: behind a signal,
  -- `gforth_go` goes on with a saved return stack pointer of 16 or above exactly if it lies below the
  -- bottom of the return stack and more than two cells above the guard page that ends it, and then the
  -- return address is stored in the return stack; but with any saved pointer below 16, as NULL is, it
  -- goes on too, and one cell below this pointer, modulo `2 ^ 64`.
  pub saved_return_stack-IsPushed :
      (saved_rp : ℕ)
      → 64 ≤ sys.pagesize
      → saved_rp < cell_mod
      → ((16 ≤ saved_rp)
          × IsPushed
              (laid_out.g1 + sys.pagesize)
              s.area.rp0
              saved_rp
              (saved_return_stack sys s.area saved_rp))
        ⊎ ((saved_rp < 16) × (saved_return_stack sys s.area saved_rp ≡ some (sub_cell saved_rp 8)))
  unfolding saved_return_stack
  saved_return_stack-IsPushed saved_rp large end =
      let pos = pagesize_pos sys.pagesize is in
      let none : cached_bytes sys.cached 64 ≡ 0 = ap (λ b. cached_bytes b 64) cached in
      let sp0 : s.area.sp0 ≡ laid_out.g1 =
        omega (arith, laid_out.data_stack.at_guard debugging, none) in
      let rp0 : s.area.rp0 ≡ laid_out.g2 =
        omega (arith, laid_out.return_stack.at_guard debugging) in
      let (g, (aligned1, (aligned2, rest))) =
        subst (All (IsAligned sys.pagesize)) laid_out.guards laid_out.aligned in
      let below2 = laid_out.return_stack.room in
      let below3 = laid_out.float_stack.room in
      let behind3 = laid_out.float_stack.below in
      let behind4 = laid_out.locals_stack.below in
      let below4 = laid_out.locals_stack.room in
      let first = laid_out.data_stack.room in
      let all = laid_out.end in
      let at1 =
        aligned_nextpage sys.pagesize is laid_out.g1 aligned1 (omega (arith, pos, none, sp0, first))
          (omega (arith, bound, all, below2, below3, behind3, below4, behind4, rp0)) in
      let at2 =
        aligned_nextpage sys.pagesize is laid_out.g2 aligned2
          (omega (arith, pos, none, sp0, first, below2, rp0))
          (omega (arith, bound, all, below3, behind3, below4, behind4)) in
      let low : laid_out.g1 + sys.pagesize + 16 < cell_mod =
        omega (arith, large, bound, all, below2, below3, behind3, below4, behind4, rp0) in
      let high : 16 ≤ laid_out.g2 = omega (arith, large, below2, rp0) in
      rw (sp0, rp0, at1.1, at2.0)
        (tested-Tested (laid_out.g1 + sys.pagesize) laid_out.g2 saved_rp low high end)
