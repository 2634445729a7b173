-- ===== src/Super/Rewrite.antt =====
-- engine/main.c: the second half of `optimize_rewrite`, which walks along the cheapest labels and
-- compiles the primitives that they name. Each call of `compile_prim_dyn` is an event; what the
-- call puts into the code area, how it moves `inst_index`, and the records on the code (DynamicInfo)
-- are not modelled here. A failed assertion on a label's cost, on a stack-caching state, or on
-- `i==nextdyn` is `none`. Left out are the assertions inst_index==i-1 (line 2082), code_area==old_code_area
-- (line 2097), those under GFORTH_DEBUGGING, and those in the functions that it calls; the space that
-- `reserve_code_super` reserves is enough for the one on the code area only when the cost is the code
-- size, as the comment in that function says.
pub mod Correct
use gforth.Prelude.{
  ◌>>=◌, ℕ, zero, suc, ◌-◌, Bool, true, false, not, ◌&&◌, ◌||◌, ◌==◌, if◌then◌else◌, List, [], ◌∷◌,
  ◌++◌, Option, none, some, get_or,
}
use gforth.Super.{Config, cost_of, inf_cost, canonical_state}
use gforth.Super.Label.{Waypoint, TpaState, Tables, unset, label, no_state}

-- The compilation of a stack-caching transition, that of a superinstruction or variant, and an
-- instruction inside a superinstruction, for which nothing is compiled.
pub data Event : Type 0 where
  transition instruction : ℕ → Event
  inside : Event

abbrev assert : Bool → Option (Unit {0})
assert true = some tt
assert false = none

-- The state after a transition, compiled if there is one.
unfoldable pub take_transition : Config → TpaState → ℕ → Bool → Option (ℕ × List Event)
take_transition g t nextstate true = some (nextstate, [])
take_transition g t nextstate false = do
  let w = get_or t.trans nextstate unset
  let c = cost_of g w.inst
  _ ← assert (not (w.cost == inf_cost))
  _ ← assert (c.state_in == nextstate)
  some (c.state_out, transition w.inst ∷ [])

-- The loop from an instruction on; `skip` is `nextdyn - i`.
unfoldable pub walk : Config → List ℕ → List TpaState → ℕ → ℕ → Bool → Option (List Event)
walk g [] ts skip nextstate no_transition = do
  _ ← assert (no_transition || skip == 0)
  (last, es) ← take_transition g (get_or ts 0 no_state) nextstate no_transition
  _ ← assert (last == canonical_state)
  some es
walk g (p ∷ origs) [] skip nextstate no_transition = none
walk g (p ∷ origs) (t ∷ ts) (suc skip) nextstate no_transition = do
  es ← walk g origs ts skip nextstate no_transition
  some (inside ∷ es)
walk g (p ∷ origs) (t ∷ ts) zero nextstate no_transition = do
  (state, before) ← take_transition g t nextstate no_transition
  let w = get_or t.inst state unset
  let c = cost_of g w.inst
  _ ← assert (c.state_in == state)
  _ ← assert (not (w.cost == inf_cost))
  es ← walk g origs ts (c.length - 1) c.state_out w.no_transition
  some (before ++ (instruction w.inst ∷ es))

-- `optimize_rewrite`: the labels, and the walk along them from the canonical state.
unfoldable pub optimize_rewrite : Config → Tables → List ℕ → Option (List Event)
optimize_rewrite g t [] = some []
optimize_rewrite g t (p ∷ origs) =
    let ts = label g t (p ∷ origs) in
    let w = get_or (get_or ts 0 no_state).trans canonical_state unset in
    walk g (p ∷ origs) ts 0 canonical_state (not w.relocatable || w.no_transition)
