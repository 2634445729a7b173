-- ===== src/Super/Label.antt =====
-- engine/main.c: the labelling of a basic block, back to front, in `optimize_rewrite`, with
-- `empty_tpa_state`, `transitions` and `make_termstate`. It is the labelling without the automaton
-- (`tpa_noautomaton`), which `prepare_super_table` selects when there are static superinstructions,
-- unless the user disables state equivalence: then `lookup_tpa` finds nothing and no state is
-- normalized. The sharing of equal states by `lookup_tpa_state` changes no value.
pub mod Offers
pub mod Valid
pub mod Chain
pub mod Cheap
use gforth.Prelude.{
  ℕ, zero, suc, ◌+◌, ◌-◌, Bool, true, false, not, ◌&&◌, leb, ◌==◌, if◌then◌else◌, List, [], ◌∷◌,
  Option, none, some, get_or, set, replicate, length, min,
}
use gforth.Super.{
  Config, SuperTable, cost_of, call_cost, is_relocatable, lookup_super, inf_cost, canonical_state,
}

-- `struct waypoint`; `inst` is the primitive to use from here to the next waypoint.
pub record Waypoint : Type 0 where
  pub cost : ℕ
  pub inst : ℕ
  pub relocatable : Bool
  pub no_transition : Bool

-- `struct tpa_state`: a waypoint for each stack-caching state, in front of an instruction, and in
-- front of an instruction and a transition.
pub record TpaState : Type 0 where
  pub inst : List Waypoint
  pub trans : List Waypoint

-- The tables that `prepare_super_table` fills.
pub record Tables : Type 0 where
  pub table : SuperTable
  pub state_transitions : List ℕ
  pub max_super : ℕ

-- A waypoint of `calloc` and `init_waypoints`.
abbrev pub unset : Waypoint
unset = record { cost = inf_cost; inst = 0; relocatable = false; no_transition = false }

unfoldable pub empty_waypoints : Config → List Waypoint
empty_waypoints g = replicate g.maxstates unset

-- `if (jcost <= wi->cost) …` for a waypoint `w` that is offered for the state `k`.
unfoldable pub offer : List Waypoint → ℕ → Waypoint → List Waypoint
offer ws k w = if leb w.cost (get_or ws k unset).cost then set ws k w else ws

-- One round of the loop over `state_transitions`, from the waypoints in front of the instruction.
unfoldable pub offer_transition : Config → List Waypoint → List Waypoint → ℕ → List Waypoint
offer_transition g inst trans s =
    let c = cost_of g s in
    let wo = get_or inst c.state_out unset in
    if wo.cost == inf_cost
    then trans
    else offer trans c.state_in (record {
      cost = wo.cost + call_cost g.ss_cost g s;
      inst = s;
      relocatable = wo.relocatable;
      no_transition = false;
    })

unfoldable pub offer_transitions : Config → List Waypoint → List Waypoint → List ℕ → List Waypoint
offer_transitions g inst trans [] = trans
offer_transitions g inst trans (s ∷ ss) =
    offer_transitions g inst (offer_transition g inst trans s) ss

unfoldable pub without_transition : List Waypoint → List Waypoint
without_transition [] = []
without_transition (w ∷ ws) = record w { no_transition = true } ∷ without_transition ws

-- `transitions`: a copy of the waypoints, improved by the stack-caching transitions.
unfoldable pub transitions : Config → Tables → List Waypoint → TpaState
transitions g t inst = record {
  inst = inst;
  trans = offer_transitions g inst (without_transition inst) t.state_transitions;
}

unfoldable pub make_termstate : Config → Tables → TpaState
make_termstate g t =
    let start = empty_waypoints g in
    let first = get_or start canonical_state unset in
    transitions g t (set start canonical_state (record first { cost = 0 }))

-- What a superinstruction or variant `s` offers, before the state `behind` of what follows it:
-- `none` is the `continue` at an infinite cost.
unfoldable pub rule_offer : Config → TpaState → ℕ → Option Waypoint
rule_offer g behind s =
    let c = cost_of g s in
    let wt = get_or behind.trans c.state_out unset in
    let direct = not (is_relocatable g s) && not wt.relocatable in
    let wo = if direct then get_or behind.inst c.state_out unset else wt in
    if wo.cost == inf_cost
    then none
    else some (record {
      cost = wo.cost + call_cost g.ss_cost g s;
      inst = s;
      relocatable = is_relocatable g s;
      no_transition = if direct then true else wt.no_transition;
    })

unfoldable pub accept : List Waypoint → ℕ → Option Waypoint → List Waypoint
accept ws k none = ws
accept ws k (some w) = offer ws k w

unfoldable pub offer_rule : Config → TpaState → List Waypoint → ℕ → List Waypoint
offer_rule g behind ws s = accept ws (cost_of g s).state_in (rule_offer g behind s)

unfoldable pub offer_rules : Config → TpaState → List Waypoint → List ℕ → List Waypoint
offer_rules g behind ws [] = ws
offer_rules g behind ws (s ∷ ss) = offer_rules g behind (offer_rule g behind ws s) ss

abbrev pub no_state : TpaState
no_state = record { inst = []; trans = [] }

unfoldable pub found : Option (List ℕ) → List ℕ
found none = []
found (some ss) = ss

-- The loop `for (j=1; j<=max_super && i+j<=ninsts; j++)`: `origs` are the instructions from `i` on
-- and `later` the states from `i + j` on; `left` rounds are to go.
unfoldable pub offer_lengths :
    Config → Tables → List ℕ → ℕ → ℕ → List TpaState → List Waypoint → List Waypoint
offer_lengths g t origs zero j later ws = ws
offer_lengths g t origs (suc left) j [] ws = ws
offer_lengths g t origs (suc left) j (behind ∷ later) ws =
    offer_lengths g t origs left (suc j) later
      (offer_rules g behind ws (found (lookup_super t.table origs j)))

-- One round of the labelling: the state in front of the first of `origs`.
unfoldable pub label_round : Config → Tables → List ℕ → List TpaState → TpaState
label_round g t origs later =
    transitions g t
      (offer_lengths g t origs (min t.max_super (length origs)) 1 later (empty_waypoints g))

-- The array `ts`: a state in front of each instruction, and the final one.
unfoldable pub label : Config → Tables → List ℕ → List TpaState
label g t [] = make_termstate g t ∷ []
label g t (p ∷ origs) = let later = label g t origs in label_round g t (p ∷ origs) later ∷ later
