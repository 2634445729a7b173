-- ===== src/Tests/Rewriting.antt =====
-- engine/main.c: a small set of primitives, with one static superinstruction and a second
-- stack-caching state, on which the theorems on the rewriting are applied.
use gforth.Prelude.{
  ℕ, ◌≡◌, ◌==◌, ◌*◌, refl, inl, inr, arith, true, false, List, [], ◌∷◌, some, replicate, length,
  get_or,
}
use mathlib.Core.Option as Option
use gforth.Super.{
  Cost, Config, PrimInfo, Entry, lsu, cost_of, info_of, is_relocatable, start_of, call_cost,
  cost_lsu, lookup_super, lookup_chain, hash_super, hash_rounds, same_prims, canonical_state,
}
use gforth.Super.Label.{
  no_state, empty_waypoints, offer, offer_transition, offer_transitions, without_transition,
  transitions, make_termstate, rule_offer, accept, found, offer_rule, offer_rules, offer_lengths,
  label_round, label,
}
use gforth.Super.Label.Valid.{IsSound}
use gforth.Super.Label.Cheap.{Any, CheapRule, AllCheap, CostsAtMost, label-CostsAtMost}
use gforth.Super.Table.{
  Prepared, change_chain, change_super, new_entry, replace, enter_known, enter, with_table,
  enter_transition, count_super, note_branch, is_entered, prepare_prim, prepare_prims,
  prepare_super_table,
}
use gforth.Super.Table.Sound.{prepare_super_table-IsSound}
use gforth.Super.Rewrite.{instruction, inside, walk, take_transition, optimize_rewrite}
use gforth.Compile.{Engine, Start, null, cell, prim_of_cell, find_prim, compile_all}
use gforth.Compile.Blocks.{prims_of}
use gforth.Compile.Rewrites.{EachCheap, AllWalked, compile_all-AllWalked}
use gforth.Super.Rewrite.Correct.{Walked, optimize_rewrite_lem}

abbrev prim : ℕ → ℕ → ℕ → ℕ → ℕ → Cost
prim loads offset length state_in state_out = record {
  loads = loads;
  stores = 0;
  updates = 0;
  state_in = state_in;
  state_out = state_out;
  imm_ops = 0;
  has_ip_offset = false;
  offset = offset;
  length = length;
  branch_to_ip = false;
}

abbrev info : PrimInfo
info = record { has_start = true; len1 = 0; length = 4; max_ip_offset = 0 }

-- `noop`, `dup`, `swap`, `+`; `dup swap` in one; `dup` and `+` on another state; a transition.
abbrev small : Config
small = record {
  super2 = 0 ∷ 1 ∷ 2 ∷ 3 ∷ 1 ∷ 2 ∷ [];
  super_costs =
      prim 1 0 1 0 0
      ∷ prim 1 1 1 0 0
      ∷ prim 1 2 1 0 0
      ∷ prim 1 3 1 0 0
      ∷ prim 1 4 2 0 0
      ∷ prim 0 1 1 0 1
      ∷ prim 0 3 1 1 0
      ∷ prim 1 0 1 1 0
      ∷ [];
  priminfos = info ∷ info ∷ info ∷ info ∷ info ∷ info ∷ info ∷ info ∷ [];
  no_dynamic = false;
  opt_ip_updates = 0;
  ss_cost = lsu;
  static_super_number = 10000;
  maxstates = 2;
  noop = 0;
}

abbrev block : List ℕ
block = 1 ∷ 2 ∷ 1 ∷ 3 ∷ 2 ∷ []

abbrev entry : List ℕ → ℕ → List ℕ → List Entry
entry start length ss = record { start = start; length = length; ss_list = ss } ∷ []

abbrev prepared : Prepared
prepared = record {
  tables = record {
    table =
        entry (0 ∷ 1 ∷ 2 ∷ 3 ∷ 1 ∷ 2 ∷ []) 1 (0 ∷ [])
        ∷ entry (1 ∷ 2 ∷ 3 ∷ 1 ∷ 2 ∷ []) 1 (5 ∷ 1 ∷ [])
        ∷ entry (2 ∷ 3 ∷ 1 ∷ 2 ∷ []) 1 (2 ∷ [])
        ∷ entry (3 ∷ 1 ∷ 2 ∷ []) 1 (6 ∷ 3 ∷ [])
        ∷ entry (1 ∷ 2 ∷ []) 2 (4 ∷ [])
        ∷ replicate 251 [];
    state_transitions = 7 ∷ [];
    max_super = 2;
  };
  branches_to_ip = replicate 8 0;
  ip_update0 = 0;
  nsupers = 1;
}

prepare_small : prepare_super_table small ≡ some prepared
unfolding prepare_super_table prepare_prims prepare_prim is_entered note_branch count_super
    enter_transition with_table enter enter_known replace new_entry change_super change_chain
    start_of Option.bind lookup_super lookup_chain same_prims hash_super hash_rounds cost_of
    is_relocatable info_of
prepare_small = refl

small_cheap : AllCheap small prepared.tables 1 block
unfolding found call_cost cost_lsu lookup_super lookup_chain same_prims hash_super hash_rounds
    cost_of is_relocatable info_of
small_cheap =
    let dup : Any (CheapRule small 1) (5 ∷ 1 ∷ []) = inr (inl (refl, refl, omega arith)) in
    let swap : Any (CheapRule small 1) (2 ∷ []) = inl (refl, refl, omega arith) in
    let plus : Any (CheapRule small 1) (6 ∷ 3 ∷ []) = inr (inl (refl, refl, omega arith)) in
    (dup, (swap, (dup, (plus, (swap, tt)))))

optimize_rewrite_lem_example :
    Walked small block canonical_state (optimize_rewrite small prepared.tables block)
optimize_rewrite_lem_example =
    optimize_rewrite_lem small prepared 1 block prepare_small (omega arith) small_cheap
      (omega arith)

prepare_super_table-IsSound_example : IsSound small prepared.tables
prepare_super_table-IsSound_example = prepare_super_table-IsSound small prepared prepare_small

label-CostsAtMost_example :
    CostsAtMost (length block * 1) (get_or (label small prepared.tables block) 0 no_state)
label-CostsAtMost_example =
    label-CostsAtMost small prepared.tables 1 block (omega arith) (omega arith) small_cheap
      (omega arith)

rewrite_small :
    optimize_rewrite small prepared.tables block
    ≡ some (instruction 4 ∷ inside ∷ instruction 5 ∷ instruction 6 ∷ instruction 2 ∷ [])
unfolding optimize_rewrite walk take_transition label label_round transitions offer_transitions
    offer_transition without_transition make_termstate empty_waypoints offer rule_offer accept
    offer_rule offer_rules found offer_lengths call_cost lookup_super lookup_chain same_prims
    hash_super hash_rounds cost_of is_relocatable info_of cost_lsu
rewrite_small = refl

-- The engine of these primitives, where `swap` ends a superinstruction.
abbrev engine : Engine
engine = record {
  vm_prims = 4096;
  labels = 700 ∷ 701 ∷ 702 ∷ 703 ∷ [];
  npriminfos = 4;
  superend = λ orig. orig == 2;
  code_address = λ x. x;
}

-- `dup + swap`, a NULL, and `dup` again.
abbrev starts : List Start
starts = cell 0 4120 ∷ cell 1 4136 ∷ cell 2 4128 ∷ null ∷ cell 3 4120 ∷ []

starts_cheap : EachCheap small prepared.tables 1 (prims_of engine starts)
unfolding prims_of find_prim prim_of_cell found call_cost cost_lsu lookup_super lookup_chain
    same_prims hash_super hash_rounds cost_of is_relocatable info_of
starts_cheap =
    let dup : Any (CheapRule small 1) (5 ∷ 1 ∷ []) = inr (inl (refl, refl, omega arith)) in
    let swap : Any (CheapRule small 1) (2 ∷ []) = inl (refl, refl, omega arith) in
    let plus : Any (CheapRule small 1) (6 ∷ 3 ∷ []) = inr (inl (refl, refl, omega arith)) in
    (dup, (plus, (swap, (dup, tt))))

compile_all-AllWalked_example :
    AllWalked small prepared.tables (compile_all engine [] starts).outputs
compile_all-AllWalked_example =
    compile_all-AllWalked small prepared 1 prepare_small (omega arith) (omega arith) engine starts
      starts_cheap
