-- ===== src/Compile.antt =====
-- engine/main.c: `compile_prim1`, which collects threaded code into basic blocks and hands each block
-- to `optimize_rewrite`, in direct threaded code (NEW_CFA). Its static variables are the state, a
-- pointer to a cell is the number of the cell, and what the call does to the code is a list of outputs.
pub mod Blocks
pub mod Rewrites
use gforth.Prelude.{
  ℕ, zero, suc, ◌+◌, ◌-◌, ◌*◌, ◌/◌, ◌%◌, ◌^◌, Bool, true, false, not, ◌&&◌, ◌||◌, ltb, leb, ◌==◌,
  if◌then◌else◌, List, [], ◌∷◌, ◌++◌, Option, none, some, get_or, length, sub_cell,
}

abbrev pub max_bb : ℕ
max_bb = 128

-- The table of labels with its address, the number of primitives, which primitives end a
-- superinstruction, and what CODE_ADDRESS reads of an execution token.
pub record Engine : Type 0 where
  pub vm_prims : ℕ
  pub labels : List ℕ
  pub npriminfos : ℕ
  pub superend : ℕ → Bool
  pub code_address : ℕ → ℕ

-- `(((Xt)*start)-vm_prims)-CFA_OFFSET` as a PrimNum of 32 bits.
unfoldable pub prim_of_cell : Engine → ℕ → ℕ
prim_of_cell e cell = ((sub_cell cell e.vm_prims / 8) % 2 ^ 32 + 2 ^ 32 - 2) % 2 ^ 32

-- `for(i=1; i<npriminfos; i*=2);` in at most `fuel` rounds.
unfoldable pub double_up : ℕ → ℕ → ℕ → ℕ
double_up zero i n = i
double_up (suc fuel) i n = let rest = double_up fuel (i * 2) n in if ltb i n then rest else i

-- `for(step=i/2; step>0; step/=2)`: the place where the search ends.
unfoldable pub search_label : Engine → ℕ → ℕ → ℕ → ℕ → ℕ
search_label e inst zero i step = i
search_label e inst (suc fuel) i step =
    let label = get_or e.labels i 0 in
    let up = search_label e inst fuel (i + step) (step / 2) in
    let down = search_label e inst fuel (i - step) (step / 2) in
    if step == 0 || (ltb i e.npriminfos && inst == label)
    then i
    else if ltb i e.npriminfos && ltb label inst
    then up
    else down

-- The number of the primitive that a cell of threaded code names.
unfoldable pub find_prim : Engine → ℕ → ℕ
find_prim e cell =
    let p = prim_of_cell e cell in
    let inst = e.code_address cell in
    let top = double_up e.npriminfos 1 e.npriminfos / 2 in
    let i = search_label e inst e.npriminfos top (top / 2) in
    if ltb p e.npriminfos then p else if inst == get_or e.labels i 0 then i else p

-- An instruction of the block: `instps[…]` and `origs[…]`.
pub record Inst : Type 0 where
  pub inst : ℕ
  pub orig : ℕ

-- `optimize_rewrite`, `align_code`, `append_jump`, and the store of a code address.
pub data Output : Type 0 where
  rewrite : List Inst → Output
  align : Output
  jump : Output
  code_word : ℕ → ℕ → Output

-- The call with NULL, and the call with the cell of a number and what the cell holds.
pub data Start : Type 0 where
  null : Start
  cell : ℕ → ℕ → Start

pub record Compiled : Type 0 where
  pub insts : List Inst
  pub outputs : List Output

unfoldable pub ends_block : Engine → List Inst → Bool
ends_block e [] = false
ends_block e (x ∷ []) = e.superend x.orig
ends_block e (x ∷ y ∷ insts) = ends_block e (y ∷ insts)

-- The first part of the call with a cell: the block so far is rewritten when it is full or ended.
unfoldable pub close_block : Engine → List Inst → Compiled
close_block e insts =
    if leb max_bb (length insts) || ends_block e insts
    then record { insts = []; outputs = rewrite insts ∷ [] }
    else record { insts = insts; outputs = [] }

unfoldable pub compile_prim1 : Engine → List Inst → Start → Compiled
compile_prim1 e insts null = record { insts = []; outputs = rewrite insts ∷ align ∷ [] }
compile_prim1 e insts (cell i x) =
    let c = close_block e insts in
    let p = find_prim e x in
    if ltb p e.npriminfos
    then record { insts = c.insts ++ (record { inst = i; orig = p } ∷ []); outputs = c.outputs }
    else record {
      insts = [];
      outputs = c.outputs ++ (rewrite c.insts ∷ jump ∷ code_word i (e.code_address x) ∷ []);
    }

-- A sequence of calls.
unfoldable pub compile_all : Engine → List Inst → List Start → Compiled
compile_all e insts [] = record { insts = insts; outputs = [] }
compile_all e insts (s ∷ starts) =
    let c = compile_prim1 e insts s in
    let rest = compile_all e c.insts starts in
    record { insts = rest.insts; outputs = c.outputs ++ rest.outputs }
