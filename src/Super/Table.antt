-- ===== src/Super/Table.antt =====
-- engine/main.c: `prepare_super_table`, which enters the generated primitives into the hash table
-- and the list of stack-caching transitions. The tables that it fills are those that the labelling
-- reads. Failed assertions are `none`. The bounds `min_ip_update` and `max_ip_update`, which only the
-- code generator reads, are left out.
pub mod Sound
use gforth.Prelude.{
  ℕ, zero, suc, ◌+◌, Bool, true, false, not, ◌&&◌, ◌||◌, ltb, leb, ◌==◌, if◌then◌else◌, List, [],
  ◌∷◌, Option, none, some, get_or, set, replicate, length, max,
}
use mathlib.Core.Option as Option
use gforth.Super.{
  Cost, Config, Entry, SuperTable, cost_of, info_of, is_relocatable, start_of, hash_super,
  same_prims, lookup_super, lookup_ss, canonical_state,
}
use gforth.Super.Label.{Tables}

pub record Prepared : Type 0 where
  pub tables : Tables
  pub branches_to_ip : List ℕ
  pub ip_update0 : ℕ
  pub nsupers : ℕ

-- A write through the pointer that `lookup_super` returns: the list of the first entry with the key.
unfoldable pub change_chain : (List ℕ → List ℕ) → List Entry → List ℕ → ℕ → List Entry
change_chain f [] start length = []
change_chain f (e ∷ es) start length =
    let rest = change_chain f es start length in
    if length == e.length && same_prims length e.start start
    then record e { ss_list = f e.ss_list } ∷ es
    else e ∷ rest

unfoldable pub change_super : (List ℕ → List ℕ) → SuperTable → List ℕ → ℕ → SuperTable
change_super f t start length =
    let h = hash_super start length in set t h (change_chain f (get_or t h []) start length)

-- The new entry goes to the front of its chain.
unfoldable pub new_entry : SuperTable → List ℕ → ℕ → ℕ → SuperTable
new_entry t start length s =
    let h = hash_super start length in
    let e : Entry = record { start = start; length = length; ss_list = s ∷ [] } in
    set t h (e ∷ get_or t h [])

-- The loop that replaces the primitive `old`; `none` is the assertion that finds none.
unfoldable pub replace : ℕ → ℕ → List ℕ → Option (List ℕ)
replace old s [] = none
replace old s (x ∷ ss) =
    let rest = replace old s ss in if x == old then some (s ∷ ss) else Option.map (◌∷◌ x) rest

-- The primitive `i` for a key that the table has: `ss` is the key's list.
unfoldable pub enter_known : Config → SuperTable → ℕ → List ℕ → Option SuperTable
enter_known g t i ss =
    let c = cost_of g i in
    let start = start_of g i in
    if c.state_in == canonical_state
      && c.state_out == canonical_state
      && ltb 0 (info_of g i).max_ip_offset
    then (if c.length == 1
        then Option.map (λ new. change_super (λ old. new) t start c.length) (replace c.offset i ss)
        else none)
    else some (change_super (λ old. i ∷ old) t start c.length)

unfoldable pub enter : Config → SuperTable → ℕ → Option (List ℕ) → Option SuperTable
enter g t i none = some (new_entry t (start_of g i) (cost_of g i).length i)
enter g t i (some ss) = enter_known g t i ss

unfoldable pub with_table : Prepared → SuperTable → Prepared
with_table st t = let ts = st.tables in record st { tables = record ts { table = t } }

-- A transition between stack-caching states, or the primitive that only updates `ip`.
unfoldable pub enter_transition : Config → Prepared → ℕ → Option Prepared
enter_transition g st i =
    let c = cost_of g i in
    let ts = st.tables in
    if not (is_relocatable g i)
    then some st
    else if c.state_in == canonical_state && c.state_out == canonical_state
    then (if st.ip_update0 == 0 then some (record st { ip_update0 = i }) else none)
    else some (record st { tables = record ts { state_transitions = i ∷ ts.state_transitions } })

unfoldable pub count_super : Cost → Prepared → Prepared
count_super c st =
    let ts = st.tables in
    record st {
      tables = record ts { max_super = max ts.max_super c.length };
      nsupers = if leb 2 c.length then st.nsupers + 1 else st.nsupers;
    }

unfoldable pub note_branch : Prepared → ℕ → Option ℕ → Prepared
note_branch st i none = st
note_branch st i (some ss) = record st { branches_to_ip = set st.branches_to_ip ss i }

-- The conditions on a primitive that is entered.
unfoldable pub is_entered : Config → Prepared → Cost → Bool
is_entered g st c =
    (ltb c.length 2 || ltb st.nsupers g.static_super_number)
    && ltb c.state_in g.maxstates
    && ltb c.state_out g.maxstates
    && not c.has_ip_offset

-- One round of the loop, for the primitive `i`.
unfoldable pub prepare_prim : Config → Prepared → ℕ → Option Prepared
prepare_prim g st i =
    let c = cost_of g i in
    let start = start_of g i in
    let t = st.tables.table in
    if c.branch_to_ip
    then some (note_branch st i (lookup_ss g t start c.length c.state_in c.state_out))
    else if is_entered g st c
    then Option.map (count_super c) (
        if c.offset == g.noop && not (i == g.noop)
        then enter_transition g st i
        else Option.map (with_table st) (enter g t i (lookup_super t start c.length)))
    else some st

-- The loop from the primitive `i` on; `left` primitives are to go.
unfoldable pub prepare_prims : Config → ℕ → ℕ → Prepared → Option Prepared
prepare_prims g i zero st = some st
prepare_prims g i (suc left) st = Option.bind (prepare_prim g st i) (prepare_prims g (suc i) left)

abbrev pub nothing_prepared : Config → Prepared
nothing_prepared g = record {
  tables = record { table = replicate 256 []; state_transitions = []; max_super = 2 };
  branches_to_ip = replicate (length g.super_costs) 0;
  ip_update0 = 0;
  nsupers = 0;
}

unfoldable pub prepare_super_table : Config → Option Prepared
prepare_super_table g = prepare_prims g 0 (length g.super_costs) (nothing_prepared g)
