-- ===== src/Tests/Coding.antt =====
-- engine/main.c: a small machine and its dynamic code area.
use gforth.Prelude.{
  ℕ, zero, suc, ◌+◌, ◌-◌, ◌*◌, ◌<◌, ◌≡◌, refl, arith, true, false, [], ◌∷◌, some, length,
}
use gforth.Prelude.Int.{pos, negsuc, pos_part, ◌+ℤ◌, ◌-ℤ◌}
use gforth.Super.{Cost}
use gforth.Code.{
  PrimCode, Machine, Block, Area, Updated, ltz, clamp, append_code, append_update, update_loop,
  append_ip_update1,
}
use gforth.Code.Updates.{Reaches, append_ip_update1_lem}
use gforth.Code.Space.{Context, block_at}
use gforth.Code.Prims.Room.{IsBlockOf}
use gforth.Code.Prims.Fits.{Fits}
use gforth.Code.Infos.{
  DynamicInfo, Infos, dynamic_info3, add_dynamic_info, parts, fetch_decompile_prim, Grown,
  add_dynamic_info-Grown, fetch_decompile_prim-add,
}
use gforth.Code.Forget.{holds, total, forget_dyncode3, dyncodesize, forget_dyncode3_lem}

abbrev cost : Cost
cost = record {
  loads = 1;
  stores = 0;
  updates = 0;
  state_in = 0;
  state_out = 0;
  imm_ops = 0;
  has_ip_offset = false;
  offset = 2;
  length = 1;
  branch_to_ip = false;
}

abbrev prim_code : PrimCode
prim_code = record {
  start = some 5000;
  len1 = 4;
  length = 12;
  restlength = 3;
  superend = true;
  max_ip_offset = 4;
}

-- Primitives of 12 bytes with a jump of 5 bytes, without updates of the instruction pointer.
abbrev machine : Machine
machine = record {
  priminfos = λ p. prim_code;
  super_costs = λ p. cost;
  super2 = 0 ∷ 1 ∷ 2 ∷ [];
  labels = 700 ∷ 701 ∷ 702 ∷ [];
  npriminfos = 3;
  goto_start = 6000;
  goto_len = 5;
  no_dynamic = false;
  opt_ip_updates = 0;
  opt_ip_updates_branch = 0;
  branches_to_ip = λ p. 0;
  n_branch = 1;
  ip_dead = [];
  ip_update0 = 40;
  min_ip_update = negsuc 2;
  max_ip_update = pos 4;
  code_area_size = 2097152;
  alignment = 16;
  maxpadding = 4;
  nops = 7000;
}

-- The code area at the start of the program.
abbrev start : Area
start = record {
  code_area = 0;
  code_here = 2097152;
  start_flush = 0;
  code_block_list = [];
  next_block = 0;
  last_jump = 0;
  ip_at = pos 10;
  inst_index = 0;
  uses = [];
  chunks = [];
}

abbrev with_updates : Machine
with_updates = record machine {
  opt_ip_updates = 7;
  priminfos = λ p. record prim_code { start = some (9000 + 16 * p); len1 = 7 };
}

-- The instruction pointer goes from cell 10 to cell 21 in three updates.
append_ip_update1_run :
    append_ip_update1 with_updates (pos 21) (pos 0) (pos 0) start
    ≡ some (record {
      area =
          append_update with_updates
            (pos 3)
            (append_update with_updates (pos 4) (append_update with_updates (pos 4) start));
      left = pos 0;
    })
unfolding append_ip_update1 update_loop clamp ltz append_update append_code ◌-ℤ◌ ◌+ℤ◌
append_ip_update1_run = refl

append_ip_update1_lem_example :
    (r : Updated) × (append_ip_update1 with_updates (pos 21) (pos 0) (pos 2) start ≡ some r)
    × Reaches with_updates
        (λ step. 9000 + 16 * pos_part (pos 40 +ℤ step))
        (λ step. 7)
        (pos 21)
        (pos 0)
        (pos 2)
        start
        r
append_ip_update1_lem_example =
    append_ip_update1_lem with_updates (omega arith) (omega arith)
      (λ step. 9000 + 16 * pos_part (pos 40 +ℤ step)) (λ step. 7) (λ step low high. (refl, refl))
      (pos 21) (pos 0) (pos 2) (omega arith) (omega arith) start (omega arith)

abbrev context : Context
context = record {
  ginstps = pos 10 ∷ pos 11 ∷ [];
  operand = λ place. place;
  gforth_alloc = λ blocks. some (4194304 * (length blocks + 1));
}

none_at : (b : Block) → IsBlockOf [] b → ⊥
unfolding block_at
none_at b (i, h) = ground arith

abbrev empty : Fits machine start
empty = record {
  room = record {
    begun = omega arith;
    fits = omega arith;
    owned = λ free. absurd (omega arith);
    sized = λ b known. absurd (none_at b known);
    inside = tt;
  };
  open_end = λ some_left. absurd (some_left refl);
}

abbrev info : DynamicInfo
info = record { tcp = 90; length = pos 12; prim = 2; seqlen = 1; start_state = 0; end_state = 0 }

abbrev one_info : Infos
one_info = record { dynamicinfos = info ∷ []; capacity = 2 }

add_dynamic_info-Grown_example :
    Grown (add_dynamic_info (record info { tcp = 91 }) one_info)
    × (1 < (add_dynamic_info (record info { tcp = 91 }) one_info).capacity)
add_dynamic_info-Grown_example =
    add_dynamic_info-Grown (record info { tcp = 91 }) one_info
      (record {
        k = 1;
        above = omega arith;
        below = omega arith;
        memory = λ some_entry. omega arith;
      })

-- A superinstruction of the primitives 2 and 0, with the label 700 of its own.
abbrev combined : Machine
combined = record machine {
  super_costs = λ p. record cost { offset = 3; length = 2 };
  super2 = 0 ∷ 1 ∷ 2 ∷ 2 ∷ 0 ∷ [];
}

fetch_decompile_prim-add_example :
    fetch_decompile_prim combined
      (add_dynamic_info (record info { tcp = 91; prim = 0 }) one_info).dynamicinfos
      91
      8000
    ≡ 702
unfolding dynamic_info3 parts
fetch_decompile_prim-add_example =
    fetch_decompile_prim-add combined (record info { tcp = 91; prim = 0 }) one_info 91 8000
      (omega arith, λ one. absurd (omega (arith, one))) refl

abbrev block : ℕ → Block
block at = record { block = at; size = 2097152 }

-- The code area with two blocks, and code in both.
abbrev two_blocks : Area
two_blocks = record start {
  code_area = 8388608;
  code_here = 8388708;
  code_block_list = block 4194304 ∷ block 8388608 ∷ [];
  next_block = 2;
}

sized_two : (b : Block) → IsBlockOf (block 4194304 ∷ block 8388608 ∷ []) b → b.size ≡ 2097152
unfolding block_at
sized_two b (i, h) = go i b h
  where
    go :
        (i : ℕ) (b : Block)
        → block_at (block 4194304 ∷ block 8388608 ∷ []) i ≡ some b
        → b.size ≡ 2097152
    go zero b h = ground arith
    go (suc zero) b h = ground arith
    go (suc (suc i)) b h = absurd (ground arith)

used : Fits machine two_blocks
unfolding block_at
used = record {
  room = record {
    begun = omega arith;
    fits = omega arith;
    owned = λ free. (1, refl);
    sized = sized_two;
    inside = tt;
  };
  open_end = λ some_left. absurd (some_left refl);
}

forget_dyncode3_lem_example :
    let r = forget_dyncode3 machine 90 8388650 [] two_blocks in
    (r.result ≡ true)
    × (r.area.code_here ≡ 8388650)
    × (r.area.code_area ≡ 8388608)
    × (r.area.last_jump ≡ 0)
    × (r.area.next_block ≡ 1 + 1)
    × Fits machine r.area
    × (dyncodesize r.area ≡ 2097152 + (8388650 - 8388608))
unfolding holds total
forget_dyncode3_lem_example =
    forget_dyncode3_lem machine 90 8388650 [] two_blocks (block 4194304 ∷ []) (block 8388608) []
      refl (refl, tt) refl used
