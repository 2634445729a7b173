-- ===== src/Code/Space.antt =====
-- engine/main.c: room in the dynamic code area: jumps, the list of the blocks, and the reservation of
-- space. The counts that only `print_metrics` shows are left out.
use gforth.Prelude.{
  ◌>>=◌, ℕ, zero, suc, ◌+◌, ◌-◌, Bool, true, false, not, ◌&&◌, ◌||◌, ltb, ◌==◌, if◌then◌else◌, List,
  [], ◌∷◌, ◌++◌, Option, none, some, get_or, is_negative,
}
use gforth.Prelude.Int.{ℤ, pos}
use mathlib.Core.Option as Option
use gforth.Code.{
  Machine, Block, Area, append_code, align_code, flush_to_here, address_of, ltz, Updated,
  append_ip_update1,
}

-- What surrounds a call: the places of the instructions of the block (`ginstps`), the operand in the
-- cell behind a place of the threaded code, and what `gforth_alloc` returns for the next block.
pub record Context : Type 0 where
  pub ginstps : List ℤ
  pub operand : ℤ → ℤ
  pub gforth_alloc : List Block → Option ℕ

abbrev pub instp : Context → ℕ → ℤ
instp c i = get_or c.ginstps i (pos 0)

-- `append_ip_update` where `inst_index+1` is `i`.
unfoldable pub append_ip_update : Machine → Context → ℕ → ℕ → Area → Option Updated
append_ip_update m c i n a =
    if m.opt_ip_updates == 0
    then some (record { area = a; left = pos 0 })
    else append_ip_update1 m (instp c i) (pos 0) (pos n) a

-- `ip_at > ginstps[inst_index]` where `inst_index+1` is `i`.
unfoldable pub is_behind : Context → ℕ → Area → Bool
is_behind c zero a = false
is_behind c (suc i) a = ltz (instp c i) a.ip_at

-- `append_jump` where `inst_index+1` is `i`.
unfoldable pub append_jump : Machine → Context → ℕ → Area → Option Area
append_jump m c i a =
    let pi = m.priminfos a.last_jump in
    if a.last_jump == 0
    then some a
    else if is_behind c i a || not pi.superend
    then (do
      r ← append_ip_update m c i 0 a
      let rest = append_code (address_of pi.start + pi.length) pi.restlength r.area
      let jump = align_code m (append_code m.goto_start m.goto_len rest)
      some (record jump { last_jump = 0 }))
    else none

abbrev pub append_jump_previous : Machine → Context → Area → Option Area
append_jump_previous m c a = append_jump m c a.inst_index a

-- The size that `reserve_code_space` reserves.
abbrev pub reserved_size : ℕ → ℕ
reserved_size size = if is_negative size then 100 else size

pub record Reserved : Type 0 where
  pub area : Area
  pub failed : Bool

-- The next block: the one that the list has, or a new one.
unfoldable pub enter_new_block : Machine → Option ℕ → Area → Reserved
enter_new_block m none a = record {
  area = record a { code_here = 0; start_flush = 0; code_area = 0 };
  failed = true;
}
enter_new_block m (some block) a = record {
  area = record a {
    code_here = block;
    start_flush = block;
    code_area = block;
    code_block_list = a.code_block_list ++ (record { block = block; size = m.code_area_size } ∷ []);
    next_block = a.next_block + 1;
  };
  failed = false;
}

unfoldable pub block_at : List Block → ℕ → Option Block
block_at [] i = none
block_at (b ∷ blocks) zero = some b
block_at (b ∷ blocks) (suc i) = block_at blocks i

unfoldable pub enter_block : Machine → Context → Option Block → Area → Reserved
enter_block m c none a = enter_new_block m (c.gforth_alloc a.code_block_list) a
enter_block m c (some b) a = record {
  area = record a {
    code_here = b.block;
    start_flush = b.block;
    code_area = b.block;
    next_block = a.next_block + 1;
  };
  failed = false;
}

unfoldable pub reserve_code_space : Machine → Context → ℕ → Area → Option Reserved
reserve_code_space m c size a =
    if ltb (a.code_area + m.code_area_size) (a.code_here + reserved_size size)
    then (do
      jumped ← append_jump_previous m c a
      some (
          enter_block m c (block_at jumped.code_block_list jumped.next_block)
            (flush_to_here jumped)))
    else some (record { area = a; failed = false })

abbrev pub is_copied : Option ℕ → Bool
is_copied none = false
is_copied (some start) = true

unfoldable pub can_copy : Machine → ℕ → Bool
can_copy m p = not m.no_dynamic && is_copied (m.priminfos p).start

-- The jump behind the primitive before, if there is one.
unfoldable pub prev_rest : Machine → Option ℕ → ℕ → ℕ
prev_rest m none padding = 0
prev_rest m (some q) padding = (m.priminfos q).restlength + m.goto_len + padding

-- The size that `reserve_code_super` computes, from the primitive after `prev` on.
unfoldable pub super_size : Machine → Option ℕ → List ℕ → ℕ → ℕ
super_size m prev [] size = size + prev_rest m prev 0
super_size m prev (p ∷ origs) size =
    let more =
      if can_copy m p then (m.priminfos p).length else prev_rest m prev (m.alignment - 1) in
    super_size m (some p) origs (size + more)

-- `reserve_code_super`, whose caller does not look at the result of `reserve_code_space`.
unfoldable pub reserve_code_super : Machine → Context → List ℕ → Area → Option Area
reserve_code_super m c origs a =
    let size = super_size m none origs (m.alignment - 1) in
    if m.no_dynamic
    then some a
    else Option.map (λ (r : Reserved). r.area) (reserve_code_space m c size a)
