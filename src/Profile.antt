-- ===== src/Profile.antt =====
-- engine/profile.c: the hash table of basic blocks with the counts of their runs. Addresses are numbers,
-- an array of chains is a function, and a count does not reach 2 ^ 63.
pub mod Counts
use gforth.Prelude.{
  ℕ, zero, suc, ◌+◌, ◌/◌, ◌%◌, ◌^◌, bit_and, ◌-◌, Bool, true, false, ◌==◌, if◌then◌else◌, List, [],
  ◌∷◌, ◌++◌, Option, none, some,
}

-- `block_count`; `next` is the rest of the chain.
pub record BlockCount : Type 0 where
  pub fallthrough : Option ℕ
  pub ip : ℕ
  pub count : ℕ
  pub insts : List ℕ

-- `blocks`
abbrev pub Blocks : Type 0
Blocks = ℕ → List BlockCount

-- `hash(p)`
unfoldable pub bucket : ℕ → ℕ
bucket p = bit_and (p / 8) (2 ^ 20 - 1)

unfoldable pub find_ip : ℕ → List BlockCount → Option BlockCount
find_ip ip [] = none
find_ip ip (b ∷ chain) = let rest = find_ip ip chain in if b.ip == ip then some b else rest

unfoldable pub block_lookup : ℕ → Blocks → Option BlockCount
block_lookup ip blocks = find_ip ip (blocks (bucket ip))

unfoldable pub with_chain : ℕ → List BlockCount → Blocks → Blocks
with_chain h chain blocks i = if i == h then chain else blocks i

abbrev pub new_block : ℕ → BlockCount
new_block ip = record { fallthrough = none; ip = ip; count = 0; insts = [] }

unfoldable pub insert_absent : ℕ → Option BlockCount → Blocks → Blocks
insert_absent ip (some b) blocks = blocks
insert_absent ip none blocks = with_chain (bucket ip) (new_block ip ∷ blocks (bucket ip)) blocks

-- `block_insert`, whose result is the block that `block_lookup` finds afterwards.
unfoldable pub block_insert : ℕ → Blocks → Blocks
block_insert ip blocks = insert_absent ip (block_lookup ip blocks) blocks

-- A change of the block of an address.
unfoldable pub change_block : (BlockCount → BlockCount) → ℕ → List BlockCount → List BlockCount
change_block f ip [] = []
change_block f ip (b ∷ chain) =
    let rest = b ∷ change_block f ip chain in if b.ip == ip then f b ∷ chain else rest

-- `add_inst`, with the number of a name.
unfoldable pub add_inst : ℕ → BlockCount → BlockCount
add_inst inst b = record b { insts = b.insts ++ (inst ∷ []) }

unfoldable pub count_run : BlockCount → BlockCount
count_run b = record b { count = b.count + 1 }

unfoldable pub vm_count_block : ℕ → Blocks → Blocks
vm_count_block ip blocks =
    let inserted = block_insert ip blocks in
    with_chain (bucket ip) (change_block count_run ip (inserted (bucket ip))) inserted

-- The table at the start, and the calls of `vm_count_block` for the blocks that run.
abbrev pub no_blocks : Blocks
no_blocks h = []

unfoldable pub count_all : List ℕ → Blocks → Blocks
count_all [] blocks = blocks
count_all (ip ∷ ips) blocks = count_all ips (vm_count_block ip blocks)
