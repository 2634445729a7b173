-- ===== src/Image.antt =====
-- engine/main.c: the relocation of an image section by section (`gforth_relocate_range`), and the
-- calls of `compile_prim1` that `gforth_compile_range` makes for it, in direct threaded code with the
-- code field in front of the parameters (NEW_CFA). A bit string is the list of its bits, the highest
-- bit of each byte first. The bits behind the last cell are those that fill the last byte; they are
-- expected to be clear, and are left alone here.
pub mod Cells
pub mod Relocated
pub mod Compiled
pub mod Sections
use gforth.Prelude.{
  ℕ, zero, suc, ◌+◌, ◌-◌, ◌*◌, ◌/◌, ◌%◌, ◌^◌, Bool, true, false, not, ◌&&◌, ◌||◌, ltb, leb, ◌==◌,
  if◌then◌else◌, List, [], ◌∷◌, ◌++◌, get_or, set, replicate, length, add_cell, sub_cell, neg_cell,
  is_negative, minus_one,
}

-- The engine and the sections: where the table of labels `vm_prims` is and what it holds, the number
-- of primitives, the sums of the groups, and for each section where it was loaded and what it was
-- compiled for.
pub record Loaded : Type 0 where
  pub vm_prims : ℕ
  pub labels : List ℕ
  pub npriminfos : ℕ
  pub groups : List ℕ
  pub sections : List ℕ
  pub bases : List ℕ

-- `groups[i] = groupsum`: the loop of `gforth_relocate` at its first call.
unfoldable pub sum_groups : ℕ → List ℕ → List ℕ
sum_groups groupsum [] = []
sum_groups groupsum (n ∷ groups) = (groupsum + n) ∷ sum_groups (groupsum + n) groups

-- SECTION, INSECTION and PRIMSECTION of engine/forth.h.
abbrev pub section_of : ℕ → ℕ
section_of x = x / 2 ^ 56

abbrev pub in_section : ℕ → ℕ
in_section x = x % 2 ^ 56

abbrev pub primsection : ℕ
primsection = 255

-- Bit 14 of a token, which is clear in threaded code, and bit 15.
abbrev pub has_bit14 : ℕ → Bool
has_bit14 token = (token / 2 ^ 14) % 2 == 1

abbrev pub has_bit15 : ℕ → Bool
has_bit15 token = (token / 2 ^ 15) % 2 == 1

-- `token|0x4000`
abbrev pub set_bit14 : ℕ → ℕ
set_bit14 token = if has_bit14 token then token else token + 2 ^ 14

-- CF(const), as a cell.
unfoldable pub cf : ℕ → ℕ
cf token = sub_cell (neg_cell token) 2

-- CFA(n), where `&~0x4000` clears bit 14.
unfoldable pub cfa : Loaded → ℕ → ℕ
cfa e n = let index = if has_bit14 n then n - 2 ^ 14 else n in add_cell e.vm_prims (8 * index + 16)

-- What the relocation of a token leaves: the cell, and whether its tag stays set, which says that
-- it is threaded code.
pub record Relocation : Type 0 where
  pub cell : ℕ
  pub tag : Bool

abbrev pub label_at : Loaded → ℕ → ℕ
label_at e n = get_or e.labels n 0

-- `switch(token|0x4000)` for a primitive of group 0. The call compile_prim1(0) for a doer is left out: no
-- instruction is pending while a section is relocated.
unfoldable pub relocate_old_prim : Loaded → ℕ → Relocation
relocate_old_prim e token =
    let full = set_bit14 token in
    if full == minus_one
    then record { cell = 0; tag = false }
    else if leb (neg_cell 11) full && leb full (neg_cell 2)
    then record { cell = label_at e (cf token); tag = false }
    else if ltb (cf full) e.npriminfos
    then record { cell = cfa e (cf token); tag = not (has_bit14 token) }
    else record { cell = token; tag = false }

-- A primitive of another group.
unfoldable pub relocate_group_prim : Loaded → ℕ → ℕ → Relocation
relocate_group_prim e group token =
    let tok = neg_cell token % 2 ^ 9 in
    let first = get_or e.groups group 0 in
    let n = first + tok in
    if ltb tok (get_or e.groups (group + 1) 0 - first)
    then (if not (has_bit14 token)
        then record { cell = cfa e n; tag = true }
        else if not (has_bit15 token)
        then record { cell = label_at e n; tag = false }
        else record { cell = cfa e n; tag = false })
    else record { cell = token; tag = false }

unfoldable pub relocate_prim : Loaded → ℕ → Relocation
relocate_prim e token =
    let group = (neg_cell token / 2 ^ 9) % 2 ^ 5 in
    if group == 0 then relocate_old_prim e token else relocate_group_prim e group token

-- `token>=base`, as Cells.
unfoldable pub is_address : ℕ → ℕ → Bool
is_address base token =
    if is_negative token
    then is_negative base && leb base token
    else leb base token || is_negative base

-- `start+INSECTION(token)`
unfoldable pub loaded_address : Loaded → ℕ → ℕ
loaded_address e token =
    let sec = section_of token in
    let start = sub_cell (get_or e.sections sec 0) (get_or e.bases sec 0) in
    add_cell start (in_section token)

unfoldable pub relocate_token : Loaded → ℕ → ℕ → Relocation
relocate_token e base token =
    if section_of token == primsection
    then relocate_prim e token
    else if is_address base token
    then record { cell = loaded_address e token; tag = false }
    else record { cell = token; tag = false }

-- The mark of a branch target: `targets[bitnum/RELINFOBITS] |= …`.
unfoldable pub mark_target : ℕ → ℕ → ℕ → List Bool → List Bool
mark_target sect base token targets =
    if not (section_of token == primsection) && is_address base token && section_of token == sect
    then set targets (sub_cell (in_section token) (in_section base) / 8) true
    else targets

-- What a range of cells becomes.
pub record Range : Type 0 where
  pub image : List ℕ
  pub bitstring : List Bool
  pub targets : List Bool

-- `if(bitstring[k] & bitmask) …` for one cell.
unfoldable pub relocate_cell : Loaded → ℕ → Bool → ℕ → Relocation
relocate_cell e base bit token =
    if bit then relocate_token e base token else record { cell = token; tag = false }

-- The loop, from a cell on.
unfoldable pub relocate_cells : Loaded → ℕ → ℕ → List ℕ → List Bool → List Bool → Range
relocate_cells e sect base [] bits targets = record {
  image = [];
  bitstring = bits;
  targets = targets;
}
relocate_cells e sect base (token ∷ image) [] targets = record {
  image = token ∷ image;
  bitstring = [];
  targets = targets;
}
relocate_cells e sect base (token ∷ image) (bit ∷ bits) targets =
    let r = relocate_cell e base bit token in
    let marked = if bit then mark_target sect base token targets else targets in
    let rest = relocate_cells e sect base image bits marked in
    record {
      image = r.cell ∷ rest.image;
      bitstring = r.tag ∷ rest.bitstring;
      targets = rest.targets;
    }

-- `gforth_relocate_range`; as many targets as bits.
unfoldable pub relocate_range : Loaded → ℕ → ℕ → List ℕ → List Bool → Range
relocate_range e sect base image bits =
    relocate_cells e sect base image bits (replicate (length bits) false)

-- The calls of `compile_prim1`: with NULL, and with the cell of a number.
pub data Call : Type 0 where
  flush : Call
  prim_at : ℕ → Call

unfoldable pub calls_at : ℕ → Bool → Bool → List Call
calls_at i target bit =
    let prims = if bit then prim_at i ∷ [] else [] in if target then flush ∷ prims else prims

-- The loop of `gforth_compile_range`, from the cell `i` on.
unfoldable pub compile_bits : ℕ → List Bool → List Bool → List Call
compile_bits i [] targets = []
compile_bits i (bit ∷ bits) [] = []
compile_bits i (bit ∷ bits) (target ∷ targets) =
    calls_at i target bit ++ compile_bits (suc i) bits targets

-- `gforth_compile_range`, which ends in `finish_code`; for an empty section it returns at once.
unfoldable pub compile_cells : List ℕ → List Bool → List Bool → List Call
compile_cells [] bits targets = []
compile_cells (x ∷ image) bits targets = compile_bits 0 bits targets ++ (flush ∷ [])

abbrev pub compile_range : Range → List Call
compile_range r = compile_cells r.image r.bitstring r.targets
