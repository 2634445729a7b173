-- ===== src/Code.antt =====
-- engine/main.c: the dynamic code area, where the code of the primitives is copied, and the updates of
-- the VM instruction pointer between them. Code addresses are numbers, and the places in the threaded
-- code are integers that count cells. What is copied is a list of chunks. A failed assertion, and a
-- loop that has not ended, are `none`.
pub mod Updates
pub mod Space
pub mod Prims
pub mod Infos
pub mod Forget
use gforth.Prelude.{
  ℕ, zero, suc, ◌+◌, ◌-◌, ◌*◌, ◌%◌, Bool, true, false, not, ◌&&◌, ◌||◌, ltb, leb, ◌==◌,
  if◌then◌else◌, List, [], ◌∷◌, ◌++◌, Option, none, some, get_or,
}
use gforth.Prelude.Int.{ℤ, pos, negsuc, pos_part, neg_part, ◌+ℤ◌, ◌-ℤ◌}
use gforth.Super.{Cost}

-- What the copying reads of a PrimInfo; `start` is NULL for a primitive that cannot be copied.
pub record PrimCode : Type 0 where
  pub start : Option ℕ
  pub len1 : ℕ
  pub length : ℕ
  pub restlength : ℕ
  pub superend : Bool
  pub max_ip_offset : ℕ

-- The variables that are set before code is generated, and the padding of the machine
-- (CODE_ALIGNMENT, MAX_PADDING, and the address of CODE_PADDING).
pub record Machine : Type 0 where
  pub priminfos : ℕ → PrimCode
  pub super_costs : ℕ → Cost
  pub super2 : List ℕ
  pub labels : List ℕ
  pub npriminfos : ℕ
  pub goto_start : ℕ
  pub goto_len : ℕ
  pub no_dynamic : Bool
  pub opt_ip_updates : ℕ
  pub opt_ip_updates_branch : ℕ
  pub branches_to_ip : ℕ → ℕ
  pub n_branch : ℕ
  pub ip_dead : List ℕ
  pub ip_update0 : ℕ
  pub min_ip_update : ℤ
  pub max_ip_update : ℤ
  pub code_area_size : ℕ
  pub alignment : ℕ
  pub maxpadding : ℕ
  pub nops : ℕ

-- A call of `memmove` that copies `length` bytes from `source` to `at`.
pub record Chunk : Type 0 where
  pub source : ℕ
  pub at : ℕ
  pub length : ℕ

-- `struct code_block_list`
pub record Block : Type 0 where
  pub block : ℕ
  pub size : ℕ

-- The code area: `uses` has a primitive for each time its `uses` is counted, and `next_block` is the number of the block that `*next_code_blockp` points to.
pub record Area : Type 0 where
  pub code_area : ℕ
  pub code_here : ℕ
  pub start_flush : ℕ
  pub code_block_list : List Block
  pub next_block : ℕ
  pub last_jump : ℕ
  pub ip_at : ℤ
  pub inst_index : ℕ
  pub uses : List ℕ
  pub chunks : List Chunk

unfoldable pub append_code : ℕ → ℕ → Area → Area
append_code code length a = record a {
  code_here = a.code_here + length;
  chunks = a.chunks ++ (record { source = code; at = a.code_here; length = length } ∷ []);
}

-- `align_code`
unfoldable pub align_code : Machine → Area → Area
align_code m a =
    let offset = a.code_here % m.alignment in
    let length = m.alignment - offset in
    if leb length m.maxpadding then append_code (m.nops + offset) length a else a

abbrev pub flush_to_here : Area → Area
flush_to_here a = record a { start_flush = a.code_here }

-- The start of a primitive that is copied.
abbrev pub address_of : Option ℕ → ℕ
address_of none = 0
address_of (some start) = start

unfoldable pub ltz : ℤ → ℤ → Bool
ltz a b = ltb (pos_part a + neg_part b) (pos_part b + neg_part a)

abbrev pub outside : ℤ → ℤ → ℤ → Bool
outside l u cellsdiff = ltz cellsdiff l || ltz u cellsdiff

-- `cellsdiff1`
unfoldable pub clamp : Machine → ℤ → ℤ
clamp m cellsdiff =
    if ltz m.max_ip_update cellsdiff
    then m.max_ip_update
    else if ltz cellsdiff m.min_ip_update
    then m.min_ip_update
    else cellsdiff

-- The code of one update of the instruction pointer by `step` cells.
unfoldable pub append_update : Machine → ℤ → Area → Area
append_update m step a =
    let p = pos_part (pos m.ip_update0 +ℤ step) in
    let pi = m.priminfos p in
    let copied = append_code (address_of pi.start) pi.len1 a in
    record copied { ip_at = a.ip_at +ℤ step }

pub record Updated : Type 0 where
  pub area : Area
  pub left : ℤ

-- The loop of `append_ip_update1`, in at most `fuel` rounds.
unfoldable pub update_loop : Machine → ℕ → ℤ → ℤ → ℤ → Area → Option Updated
update_loop m zero l u cellsdiff a = none
update_loop m (suc fuel) l u cellsdiff a =
    let step = clamp m cellsdiff in
    let next = append_update m step a in
    let left = cellsdiff -ℤ step in
    let rest = update_loop m fuel l u left next in
    if outside l u left then rest else some (record { area = next; left = left })

-- As many rounds as there are cells between, which is enough.
unfoldable pub append_ip_update1 : Machine → ℤ → ℤ → ℤ → Area → Option Updated
append_ip_update1 m target l u a =
    let cellsdiff = target -ℤ a.ip_at in
    let fuel = pos_part cellsdiff + neg_part cellsdiff in
    if m.opt_ip_updates == 0 && not (fuel == 0)
    then none
    else if outside l u cellsdiff
    then update_loop m fuel l u cellsdiff a
    else some (record { area = a; left = cellsdiff })
