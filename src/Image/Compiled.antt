-- ===== src/Image/Compiled.antt =====
-- engine/main.c: the threaded code of a relocated section reaches `compile_prim1`, each primitive with
-- its number.
use gforth.Prelude.{
  ap₂, ℕ, zero, suc, ◌+◌, ◌*◌, ◌/◌, ◌^◌, ◌<◌, ◌≡◌, refl, ◌∙◌, sym, ap, arith, Bool, true, false,
  not, ◌&&◌, Bool-cases, inl, inr, ltb, ◌==◌, if◌then◌else◌, List, [], ◌∷◌, ◌++◌, map, append_assoc,
  get_or, replicate, length, length-set, length-append, length-map, length-replicate, add_cell,
  sub_cell,
}
use gforth.Image.{
  Loaded, section_of, in_section, primsection, is_address, Call, flush, prim_at, mark_target,
  relocate_cells, relocate_range, calls_at, compile_bits, compile_cells, compile_range,
}
use gforth.Image.Cells.{Item, nil, doer, address, threaded, xt, code_field, meaning, IsPrim}
use gforth.Image.Relocated.{
  Slot, plain, tagged, file_cell, is_tagged, memory_cell, is_code, AllItems, relocate_range_lem,
}
use gforth.Compile.{Engine, Inst, Start, null, cell, prim_of_cell, find_prim}
use gforth.Compile.Blocks.{prims_of}

-- The calls of `compile_prim1` with what the cells of the image hold.
unfoldable pub starts_of : List ℕ → List Call → List Start
starts_of image [] = []
starts_of image (flush ∷ calls) = null ∷ starts_of image calls
starts_of image (prim_at i ∷ calls) = cell i (get_or image i 0) ∷ starts_of image calls

-- The instruction of a cell of threaded code.
unfoldable pub code_at : Loaded → ℕ → Item → List Inst
code_at e i nil = []
code_at e i (doer n) = []
code_at e i (address sec offset) = []
code_at e i (threaded group tok) = record { inst = i; orig = get_or e.groups group 0 + tok } ∷ []
code_at e i (xt group tok) = []
code_at e i (code_field group tok) = []

-- The primitives of the section's threaded code with their places, from the cell `i` on.
unfoldable pub code_of : Loaded → ℕ → List Slot → List Inst
code_of e i [] = []
code_of e i (plain x ∷ slots) = code_of e (suc i) slots
code_of e i (tagged item ∷ slots) = code_at e i item ++ code_of e (suc i) slots

-- The same engine, for the loader and for the compiler.
pub record SameEngine (e : Loaded) (en : Engine) : Type 0 where
  pub table : e.vm_prims ≡ en.vm_prims
  pub in_memory : e.vm_prims < 2 ^ 64
  pub grouped : (group tok : ℕ) → IsPrim e group tok → get_or e.groups group 0 + tok < en.npriminfos

mark_target-length :
    (sect base token : ℕ) (targets : List Bool)
    → length (mark_target sect base token targets) ≡ length targets
unfolding mark_target
mark_target-length sect base token targets =
    let test =
      not (section_of token == primsection) && is_address base token && section_of token == sect in
    elim (Bool-cases test) [
      | inl here ↦
          rw here (length-set targets (sub_cell (in_section token) (in_section base) / 8) true)
      | inr elsewhere ↦ rw elsewhere refl
    ]

marked-length :
    (sect base token : ℕ) (bit : Bool) (targets : List Bool)
    → length (if bit then mark_target sect base token targets else targets) ≡ length targets
marked-length sect base token true targets = mark_target-length sect base token targets
marked-length sect base token false targets = refl

relocate_cells-length :
    (e : Loaded) (sect base : ℕ) (image : List ℕ) (bits targets : List Bool)
    → length (relocate_cells e sect base image bits targets).targets ≡ length targets
unfolding relocate_cells
relocate_cells-length e sect base [] bits targets = refl
relocate_cells-length e sect base (token ∷ image) [] targets = refl
relocate_cells-length e sect base (token ∷ image) (bit ∷ bits) targets =
    relocate_cells-length e sect base image bits
      (if bit then mark_target sect base token targets else targets)
    ∙ marked-length sect base token bit targets

prim_of_cell-threaded :
    (en : Engine) (n : ℕ)
    → en.vm_prims < 2 ^ 64
    → n < 2 ^ 14
    → prim_of_cell en (add_cell en.vm_prims (8 * n + 16)) ≡ n
unfolding prim_of_cell
prim_of_cell-threaded en n table small = omega arith

find_prim-threaded :
    (en : Engine) (n : ℕ)
    → en.vm_prims < 2 ^ 64
    → n < 2 ^ 14
    → n < en.npriminfos
    → find_prim en (add_cell en.vm_prims (8 * n + 16)) ≡ n
unfolding find_prim
find_prim-threaded en n table small known =
    let inside : ltb n en.npriminfos ≡ true = ground arith in
    rw (prim_of_cell-threaded en n table small, inside) refl

get_or_append :
    (before after : List ℕ) (d : ℕ) → get_or (before ++ after) (length before) d ≡ get_or after 0 d
get_or_append [] after d = refl
get_or_append (x ∷ before) after d = get_or_append before after d

append_one :
    {A : Type 0}
    → (before : List A) (x : A) (after : List A)
    → (before ++ (x ∷ [])) ++ after ≡ before ++ (x ∷ after)
append_one before x after = append_assoc before (x ∷ []) after

length-append_one : (before : List ℕ) (x : ℕ) → length (before ++ (x ∷ [])) ≡ suc (length before)
length-append_one before x = ground (arith, length-append before (x ∷ []))

module _ (e : Loaded) (en : Engine) (base : ℕ) (same : SameEngine e en) where
  abbrev prims : List ℕ → List Call → List Inst
  prims image calls = prims_of en (starts_of image calls)

  prims-data :
      (image : List ℕ) (i : ℕ) (target : Bool) (rest : List Call)
      → prims image ((calls_at i target false ++ rest) ++ (flush ∷ []))
        ≡ prims image (rest ++ (flush ∷ []))
  unfolding calls_at starts_of prims_of
  prims-data image i true rest = refl
  prims-data image i false rest = refl

  prims-code :
      (image : List ℕ) (i n : ℕ) (target : Bool) (rest : List Call)
      → find_prim en (get_or image i 0) ≡ n
      → n < en.npriminfos
      → prims image ((calls_at i target true ++ rest) ++ (flush ∷ []))
        ≡ record { inst = i; orig = n } ∷ prims image (rest ++ (flush ∷ []))
  unfolding calls_at starts_of prims_of
  prims-code image i n true rest found known =
      let inside : ltb n en.npriminfos ≡ true = ground arith in rw (found, inside) refl
  prims-code image i n false rest found known =
      let inside : ltb n en.npriminfos ≡ true = ground arith in rw (found, inside) refl

  -- What is left of the code from a cell on.
  abbrev Compiles : List ℕ → List Slot → ℕ → List Bool → Type 0
  Compiles before slots pad targets =
      prims (before ++ map (memory_cell e) slots) (
        compile_bits (length before) (map (is_code e) slots ++ replicate pad false) targets
        ++ (flush ∷ []))
      ≡ code_of e (length before) slots

  Compiles-pad :
      (image : List ℕ) (pad i : ℕ) (targets : List Bool)
      → prims image (compile_bits i (replicate pad false) targets ++ (flush ∷ [])) ≡ []
  unfolding compile_bits starts_of prims_of
  Compiles-pad image zero i targets = refl
  Compiles-pad image (suc pad) i [] = refl
  Compiles-pad image (suc pad) i (t ∷ targets) =
      prims-data image i t (compile_bits (suc i) (replicate pad false) targets)
      ∙ Compiles-pad image pad (suc i) targets

  -- The cells behind a cell, with the cell moved in front.
  Compiles-next :
      (before : List ℕ) (x : ℕ) (slots : List Slot) (pad : ℕ) (targets : List Bool)
      → Compiles (before ++ (x ∷ [])) slots pad targets
      → prims (before ++ (x ∷ map (memory_cell e) slots)) (
          compile_bits (suc (length before)) (map (is_code e) slots ++ replicate pad false) targets
          ++ (flush ∷ []))
        ≡ code_of e (suc (length before)) slots
  Compiles-next before x slots pad targets rest =
      let image = map (memory_cell e) slots in
      let bits = map (is_code e) slots ++ replicate pad false in
      sym (
        ap₂ (λ cells i. prims cells (compile_bits i bits targets ++ (flush ∷ [])))
          (append_one before x image) (length-append_one before x))
      ∙ rest
      ∙ ap (λ i. code_of e i slots) (length-append_one before x)

  prims-threaded :
      (image : List ℕ) (i group tok : ℕ) (target : Bool) (rest : List Call)
      → get_or image i 0 ≡ (meaning e (threaded group tok)).cell
      → IsPrim e group tok
      → prims image ((calls_at i target true ++ rest) ++ (flush ∷ []))
        ≡ record { inst = i; orig = get_or e.groups group 0 + tok }
          ∷ prims image (rest ++ (flush ∷ []))
  unfolding meaning
  prims-threaded image i group tok target rest there (some_group, in_table, small, within, low) =
      let n = get_or e.groups group 0 + tok in
      let known = same.grouped group tok (some_group, in_table, small, within, low) in
      let table : en.vm_prims < 2 ^ 64 = omega (arith, same.table, same.in_memory) in
      let number : find_prim en (add_cell e.vm_prims (8 * n + 16)) ≡ n =
        ap (λ v. find_prim en (add_cell v (8 * n + 16))) same.table
        ∙ find_prim-threaded en n table low known in
      prims-code image i n target rest (ap (find_prim en) there ∙ number) known

  here :
      (before : List ℕ) (x : ℕ) (after : List ℕ)
      → get_or (before ++ (x ∷ after)) (length before) 0 ≡ x
  here before x after = get_or_append before (x ∷ after) 0

  Compiles-data :
      (before : List ℕ) (x : ℕ) (slots : List Slot) (pad : ℕ) (t : Bool) (targets : List Bool)
      → Compiles (before ++ (x ∷ [])) slots pad targets
      → prims (before ++ (x ∷ map (memory_cell e) slots)) (
          (calls_at (length before) t false
            ++ compile_bits
                (suc (length before))
                (map (is_code e) slots ++ replicate pad false)
                targets)
          ++ (flush ∷ []))
        ≡ code_of e (suc (length before)) slots
  Compiles-data before x slots pad t targets rest =
      let calls =
        compile_bits (suc (length before)) (map (is_code e) slots ++ replicate pad false) targets in
      prims-data (before ++ (x ∷ map (memory_cell e) slots)) (length before) t calls
      ∙ Compiles-next before x slots pad targets rest

  Compiles-all :
      (before : List ℕ) (slots : List Slot) (pad : ℕ) (targets : List Bool)
      → AllItems e base slots
      → length targets ≡ length slots + pad
      → Compiles before slots pad targets
  unfolding compile_bits code_of code_at memory_cell is_code meaning
  Compiles-all before [] pad targets ok size =
      Compiles-pad (before ++ []) pad (length before) targets
  Compiles-all before (s ∷ slots) pad [] ok size = absurd (omega arith)
  Compiles-all before (plain x ∷ slots) pad (t ∷ targets) ok size =
      Compiles-data before x slots pad t targets
        (Compiles-all (before ++ (x ∷ [])) slots pad targets ok (omega arith))
  Compiles-all before (tagged nil ∷ slots) pad (t ∷ targets) (good, ok) size =
      let x = (meaning e nil).cell in
      Compiles-data before x slots pad t targets
        (Compiles-all (before ++ (x ∷ [])) slots pad targets ok (omega arith))
  Compiles-all before (tagged (doer n) ∷ slots) pad (t ∷ targets) (good, ok) size =
      let x = (meaning e (doer n)).cell in
      Compiles-data before x slots pad t targets
        (Compiles-all (before ++ (x ∷ [])) slots pad targets ok (omega arith))
  Compiles-all before (tagged (address sec offset) ∷ slots) pad (t ∷ targets) (good, ok) size =
      let x = (meaning e (address sec offset)).cell in
      Compiles-data before x slots pad t targets
        (Compiles-all (before ++ (x ∷ [])) slots pad targets ok (omega arith))
  Compiles-all before (tagged (xt group tok) ∷ slots) pad (t ∷ targets) (good, ok) size =
      let x = (meaning e (xt group tok)).cell in
      Compiles-data before x slots pad t targets
        (Compiles-all (before ++ (x ∷ [])) slots pad targets ok (omega arith))
  Compiles-all before (tagged (code_field group tok) ∷ slots) pad (t ∷ targets) (good, ok) size =
      let x = (meaning e (code_field group tok)).cell in
      Compiles-data before x slots pad t targets
        (Compiles-all (before ++ (x ∷ [])) slots pad targets ok (omega arith))
  Compiles-all before (tagged (threaded group tok) ∷ slots) pad (t ∷ targets) (good, ok) size =
      let x = (meaning e (threaded group tok)).cell in
      let image = map (memory_cell e) slots in
      let calls =
        compile_bits (suc (length before)) (map (is_code e) slots ++ replicate pad false) targets in
      prims-threaded (before ++ (x ∷ image)) (length before) group tok t calls (here before x image)
        good
      ∙ ap (◌∷◌ (record { inst = length before; orig = get_or e.groups group 0 + tok })) (
          Compiles-next before x slots pad targets
            (Compiles-all (before ++ (x ∷ [])) slots pad targets ok (omega arith)))

  prims-compile_cells :
      (slots : List Slot) (bits targets : List Bool)
      → prims (map (memory_cell e) slots) (compile_bits 0 bits targets ++ (flush ∷ []))
        ≡ code_of e 0 slots
      → prims (map (memory_cell e) slots) (compile_cells (map (memory_cell e) slots) bits targets)
        ≡ code_of e 0 slots
  unfolding compile_cells code_of prims_of starts_of
  prims-compile_cells [] bits targets h = refl
  prims-compile_cells (s ∷ slots) bits targets h = h

  -- When a section is loaded, `gforth_compile_range` hands its threaded code to `compile_prim1`: on
  -- what `gforth_relocate_range` left of a section of plain cells and items of the file format, in the
  -- same engine, the cells that `compile_prim1` takes for primitives are those of the items that are
  -- threaded code, in order, each with its place and with the number of its primitive.
  pub compile_range-code_of :
      (sect : ℕ) (slots : List Slot) (pad : ℕ)
      → base ≡ get_or e.bases sect 0
      → base < 2 ^ 56
      → AllItems e base slots
      → let r =
          relocate_range e sect base
            (map (file_cell e) slots)
            (map is_tagged slots ++ replicate pad false) in
        prims_of en (starts_of r.image (compile_range r)) ≡ code_of e 0 slots
  unfolding relocate_range
  compile_range-code_of sect slots pad own low ok =
      let image = map (file_cell e) slots in
      let bits = map is_tagged slots ++ replicate pad false in
      let r = relocate_range e sect base image bits in
      let loaded = relocate_range_lem e sect base own low slots pad ok in
      let filled = replicate (length bits) false in
      let size : length r.targets ≡ length slots + pad =
        relocate_cells-length e sect base image bits filled
        ∙ length-replicate (length bits) false
        ∙ length-append (map is_tagged slots) (replicate pad false)
        ∙ ap₂ (◌+◌) (length-map slots is_tagged) (length-replicate pad false) in
      ap₂ (λ cells set_bits. prims cells (compile_cells cells set_bits r.targets)) loaded.0 loaded.1
      ∙ prims-compile_cells slots (map (is_code e) slots ++ replicate pad false) r.targets
          (Compiles-all [] slots pad r.targets ok size)
