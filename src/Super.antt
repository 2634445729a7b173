-- ===== src/Super.antt =====
-- engine/main.c: the table of static superinstructions and stack-caching variants. The generated
-- arrays `super2` and `super_costs` (SUPER2_I, COSTS_I) are parameters. A pointer into an array of
-- primitive numbers is the rest of the array from there on.
pub mod Table
pub mod Label
pub mod Rewrite
use gforth.Prelude.{
  ℕ, zero, suc, ◌+◌, ◌*◌, ◌%◌, ◌^◌, ◌-◌, bit_and, Bool, true, false, not, ◌&&◌, ◌||◌, ltb, leb,
  ◌==◌, if◌then◌else◌, List, [], ◌∷◌, Option, none, some, length, get_or, take, drop, set,
  replicate,
}

-- `struct cost`, but for `branch`, which the code modelled here does not read. The variants of a
-- primitive with another `ip_offset` are told by a flag, since the code only asks whether it is 0.
pub record Cost : Type 0 where
  pub loads : ℕ
  pub stores : ℕ
  pub updates : ℕ
  pub state_in : ℕ
  pub state_out : ℕ
  pub imm_ops : ℕ
  pub has_ip_offset : Bool
  pub offset : ℕ
  pub length : ℕ
  pub branch_to_ip : Bool

-- What the code reads of `PrimInfo`: whether `start` is not NULL, and the lengths.
pub record PrimInfo : Type 0 where
  pub has_start : Bool
  pub len1 : ℕ
  pub length : ℕ
  pub max_ip_offset : ℕ

-- `ss_cost` points to one of these functions.
pub data CostFunction : Type 0 where
  codesize ls lsu nexts : CostFunction

-- The variables that the command line and `check_prims` set, with the generated arrays.
pub record Config : Type 0 where
  pub super2 : List ℕ
  pub super_costs : List Cost
  pub priminfos : List PrimInfo
  pub no_dynamic : Bool
  pub opt_ip_updates : ℕ
  pub ss_cost : CostFunction
  pub static_super_number : ℕ
  pub maxstates : ℕ
  pub noop : ℕ

abbrev no_cost : Cost
no_cost = record {
  loads = 0;
  stores = 0;
  updates = 0;
  state_in = 0;
  state_out = 0;
  imm_ops = 0;
  has_ip_offset = false;
  offset = 0;
  length = 0;
  branch_to_ip = false;
}

abbrev no_info : PrimInfo
no_info = record { has_start = false; len1 = 0; length = 0; max_ip_offset = 0 }

abbrev pub canonical_state : ℕ
canonical_state = 0

abbrev pub inf_cost : ℕ
inf_cost = 1000000

-- `super_costs + p` and `priminfos[p]`
unfoldable pub cost_of : Config → ℕ → Cost
cost_of g p = get_or g.super_costs p no_cost

unfoldable pub info_of : Config → ℕ → PrimInfo
info_of g p = get_or g.priminfos p no_info

unfoldable pub is_relocatable : Config → ℕ → Bool
is_relocatable g p = not g.no_dynamic && (info_of g p).has_start

-- The primitives that `p` stands for: `super2 + c->offset`, of which `c->length` belong to it.
unfoldable pub start_of : Config → ℕ → List ℕ
start_of g p = drop (cost_of g p).offset g.super2

unfoldable pub cost_codesize : Config → ℕ → ℕ
cost_codesize g p =
    let pi = info_of g p in if ltb 0 g.opt_ip_updates then pi.length - pi.len1 else pi.length

unfoldable pub cost_ls : Config → ℕ → ℕ
cost_ls g p = let c = cost_of g p in c.loads + c.stores

unfoldable pub cost_lsu : Config → ℕ → ℕ
cost_lsu g p = let c = cost_of g p in c.loads + c.stores + c.updates

unfoldable pub cost_nexts : Config → ℕ → ℕ
cost_nexts g p = 1

unfoldable pub call_cost : CostFunction → Config → ℕ → ℕ
call_cost codesize g p = cost_codesize g p
call_cost ls g p = cost_ls g p
call_cost lsu g p = cost_lsu g p
call_cost nexts g p = cost_nexts g p

-- `struct super_table_entry`: the key and the list of superinstructions and variants for it.
pub record Entry : Type 0 where
  pub start : List ℕ
  pub length : ℕ
  pub ss_list : List ℕ

abbrev pub SuperTable : Type 0
SuperTable = List (List Entry)

-- `hash_super`: `r` is an int of 32 bits.
unfoldable pub hash_rounds : ℕ → List ℕ → ℕ → ℕ
hash_rounds zero start r = r
hash_rounds (suc n) [] r = r
hash_rounds (suc n) (p ∷ start) r = hash_rounds n start ((r * 2 + p) % 2 ^ 32)

unfoldable pub hash_super : List ℕ → ℕ → ℕ
hash_super start length = bit_and (hash_rounds length start 0) 255

-- `memcmp` of two arrays of primitive numbers over their first `n` elements.
unfoldable pub same_prims : ℕ → List ℕ → List ℕ → Bool
same_prims zero xs ys = true
same_prims (suc n) (x ∷ xs) (y ∷ ys) = x == y && same_prims n xs ys
same_prims (suc n) xs ys = false

-- The walk along one chain of the table.
unfoldable pub lookup_chain : List Entry → List ℕ → ℕ → Option (List ℕ)
lookup_chain [] start length = none
lookup_chain (e ∷ es) start length =
    if length == e.length && same_prims length e.start start
    then some e.ss_list
    else lookup_chain es start length

unfoldable pub lookup_super : SuperTable → List ℕ → ℕ → Option (List ℕ)
lookup_super t start length = lookup_chain (get_or t (hash_super start length) []) start length

unfoldable pub find_states : Config → List ℕ → ℕ → ℕ → Option ℕ
find_states g [] state_in state_out = none
find_states g (s ∷ ss) state_in state_out =
    let c = cost_of g s in
    if c.state_in == state_in && c.state_out == state_out
    then some s
    else find_states g ss state_in state_out

-- `lookup_ss`; `none` is -1.
unfoldable pub lookup_ss : Config → SuperTable → List ℕ → ℕ → ℕ → ℕ → Option ℕ
lookup_ss g t start length state_in state_out = elim (lookup_super t start length) [
  | none ↦ none
  | some ss ↦ find_states g ss state_in state_out
]
